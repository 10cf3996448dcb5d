-- ===== src/Common/PacketPool.antt =====
-- cpp/common/packet_pool.hpp. A `unique_ptr<Packet>` is the packet's identity; the head of the list
-- is the back of `m_pool`. The profiler's counters are left out.
pub mod Count
use mathlib.Core.List.{Perm, perm_middle}
use mathlib.Core.List.Perm
use remote_play.Prelude.{
  ℕ, zero, suc, ◌+◌, ◌-◌, ◌≤◌, ◌<◌, ◌≡◌, refl, sym, ap, ◌∙◌, List, [], ◌∷◌, ◌++◌, Bool, true, false,
  Option, none, some, arith, length, length-append,
}

-- The constructor: `pool_size` packets, numbered as they are made.
unfoldable pub init : ℕ → List ℕ
init zero = []
init (suc n) = n ∷ init n

unfoldable pub acquire : List ℕ → Option ℕ × List ℕ
acquire [] = (none, [])
acquire (p ∷ pool) = (some p, pool)

unfoldable pub release : List ℕ → Option ℕ → List ℕ
release pool none = pool
release pool (some p) = p ∷ pool

-- A program that holds `unique_ptr`s of the pool: it may ask for a packet, and give back the one that
-- stands at a place of its list.
pub data Op : Type 0 where
  ask : Op
  give_back : ℕ → Op

pub record System : Type 0 where
  pub pool : List ℕ
  pub held : List ℕ

abbrev pub keep : Option ℕ → List ℕ → List ℕ
keep none held = held
keep (some p) held = p ∷ held

abbrev pub pick : List ℕ → ℕ → Option ℕ × List ℕ
pick [] i = (none, [])
pick (x ∷ xs) zero = (some x, xs)
pick (x ∷ xs) (suc i) = let (o, rest) = pick xs i in (o, x ∷ rest)

pub step : System → Op → System
step s ask = let (p, pool) = acquire s.pool in record { pool = pool; held = keep p s.held }
step s (give_back i) =
    let (p, held) = pick s.held i in record { pool = release s.pool p; held = held }

pub run : System → List Op → System
run s [] = s
run s (o ∷ os) = run (step s o) os

abbrev pub packets : System → List ℕ
packets s = s.pool ++ s.held

pick-perm : (xs : List ℕ) (i : ℕ) (p : ℕ) → (pick xs i).0 ≡ some p → Perm xs (p ∷ (pick xs i).1)
pick-perm [] i p e = cc
pick-perm (x ∷ xs) zero p e = Perm.cons' (ground arith) Perm.rfl
pick-perm (x ∷ xs) (suc i) p e = Perm.trans (Perm.cons x (pick-perm xs i p e)) (Perm.swap p x _)

pick-none : (xs : List ℕ) (i : ℕ) → (pick xs i).0 ≡ none → (pick xs i).1 ≡ xs
pick-none [] i e = refl
pick-none (x ∷ xs) zero e = cc
pick-none (x ∷ xs) (suc i) e = ap (◌∷◌ x) (pick-none xs i e)

take_step : (s : System) (pool : List ℕ) → s.pool ≡ pool → Perm (packets (step s ask)) (packets s)
unfolding step acquire
take_step s [] e = rw e (Perm.refl _)
take_step s (p ∷ pool) e = rw e (perm_middle {a = p} pool s.held)

give_step :
    (s : System) (i : ℕ) (o : Option ℕ)
    → (pick s.held i).0 ≡ o
    → Perm (packets (step s (give_back i))) (packets s)
unfolding step release
give_step s i none e = rw (e, release, pick-none s.held i e) (Perm.refl _)
give_step s i (some p) e =
    rw (e, release)
      (Perm.trans (Perm.symm (perm_middle s.pool (pick s.held i).1))
        (Perm.append (Perm.refl s.pool) (Perm.symm (pick-perm s.held i p e))))

step-perm : (s : System) (o : Op) → Perm (packets (step s o)) (packets s)
step-perm s ask = take_step s s.pool refl
step-perm s (give_back i) = give_step s i (pick s.held i).0 refl

-- Whatever the holder asks for and gives back, the packets of the pool and of the holder together
-- are those of the start: none is lost, made up, or in two places.
pub run-perm : (s : System) (os : List Op) → Perm (packets (run s os)) (packets s)
unfolding run
run-perm s [] = Perm.refl _
run-perm s (o ∷ os) = Perm.trans (run-perm (step s o) os) (step-perm s o)
