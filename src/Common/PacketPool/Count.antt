-- ===== src/Common/PacketPool/Count.antt =====
-- When the pool runs dry.
use remote_play.Prelude.{
  ℕ, zero, suc, ◌+◌, ◌≡◌, ◌↔◌, refl, ap, ◌∙◌, List, [], ◌∷◌, Option, none, some, arith, length,
}
use remote_play.Common.PacketPool.{
  System, Op, ask, give_back, init, acquire, release, keep, pick, step, run,
}

abbrev pub total : System → ℕ
total s = length s.pool + length s.held

length-init : (n : ℕ) → length (init n) ≡ n
unfolding init
length-init zero = refl
length-init (suc n) = ap suc (length-init n)

length-pick :
    (xs : List ℕ) (i : ℕ) → length (release [] (pick xs i).0) + length (pick xs i).1 ≡ length xs
unfolding release
length-pick [] i = omega arith
length-pick (x ∷ xs) zero = omega arith
length-pick (x ∷ xs) (suc i) = omega (arith, length-pick xs i)

length-release :
    (pool : List ℕ) (o : Option ℕ) → length (release pool o) ≡ length pool + length (release [] o)
unfolding release
length-release pool none = omega arith
length-release pool (some p) = omega arith

total-acquire :
    (pool held : List ℕ)
    → length (acquire pool).1 + length (keep (acquire pool).0 held) ≡ length pool + length held
unfolding acquire
total-acquire [] held = refl
total-acquire (p ∷ pool) held = omega arith

total-step : (s : System) (o : Op) → total (step s o) ≡ total s
unfolding step
total-step s ask = total-acquire s.pool s.held
total-step s (give_back i) =
    omega (arith, length-release s.pool (pick s.held i).0, length-pick s.held i)

total-run : (s : System) (os : List Op) → total (run s os) ≡ total s
unfolding run
total-run s [] = refl
total-run s (o ∷ os) = total-run (step s o) os ∙ total-step s o

acquire-none_iff : (pool : List ℕ) → ((acquire pool).0 ≡ none) ↔ (length pool ≡ 0)
unfolding acquire
acquire-none_iff [] = (λ _. refl, λ _. refl)
acquire-none_iff (p ∷ pool) = (λ e. cc, λ e. absurd (omega arith))

-- After any history of a pool made with `n` packets, a further request is refused exactly when all
-- `n` packets are held.
pub acquire-exhausted_iff :
    (n : ℕ) (os : List Op)
    → let s = run (record { pool = init n; held = [] }) os in
      ((acquire s.pool).0 ≡ none) ↔ (length s.held ≡ n)
acquire-exhausted_iff n os =
    let s = run (record { pool = init n; held = [] }) os in
    let all = total-run (record { pool = init n; held = [] }) os in
    (
      λ e. omega (arith, (acquire-none_iff s.pool).0 e, all, length-init n),
      λ e. (acquire-none_iff s.pool).1 (omega (arith, all, length-init n)),
    )
