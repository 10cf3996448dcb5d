-- ===== src/Client/Receiver/Owners/Balance.antt =====
-- cpp/client/receiver.cpp: each call moves frames from one place to another.
use remote_play.Prelude.{
  ℕ, ◌+◌, ◌<◌, ◌≡◌, refl, ap, ◌∙◌, List, [], ◌∷◌, Bool, false, Option, none, some, arith, ltb, ◌==◌,
  if◌then◌else◌, Bool-cases, Option-cases, inl, inr, ==_refl, ==_of_ne,
}
use remote_play.Common.Protocol.{VideoHeader}
use remote_play.Client.Receiver.Fragment.{put}
use remote_play.Client.Receiver.Fragment.Count.{count_set, count_set-differ}
use remote_play.Client.Receiver.State.{
  Receiver, slot_of, take_frame, get_from_pool, return_to_pool, memb,
}
use remote_play.Client.Receiver.Process.{start_frame, find_frame}
use remote_play.Client.Receiver.Owners.{
  count_in, is_frame, places, allocated, IsOwned, count_in-absent,
}

abbrev pub one_if : Bool → ℕ
one_if b = if b then 1 else 0

pub count_put :
    (ring : ℕ → Option ℕ) (s : ℕ) (o : Option ℕ) (x : ℕ)
    → s < 64
    → count_set (λ i. is_frame x (put ring s o i)) 64 + one_if (is_frame x (ring s))
      ≡ count_set (λ i. is_frame x (ring i)) 64 + one_if (is_frame x o)
count_put ring s o x h =
    count_set-differ (λ i. is_frame x (ring i)) (λ i. is_frame x (put ring s o i)) s 64
      (λ j ne. rw (==_of_ne j s ne) refl) h
    ∙ rw (==_refl s) refl

-- Another frame, or none, in a slot.
pub put-places :
    (r : Receiver) (s : ℕ) (o : Option ℕ) (x : ℕ)
    → s < 64
    → places (record r { frame_ring = put r.frame_ring s o }) x
        + one_if (is_frame x (r.frame_ring s))
      ≡ places r x + one_if (is_frame x o)
unfolding places
put-places r s o x h = omega (arith, count_put r.frame_ring s o x h)

-- A frame that is in a slot is not in the pool.
pub in_slot-memb :
    (held : List ℕ) (r : Receiver) (s p : ℕ)
    → IsOwned held r
    → s < 64
    → r.frame_ring s ≡ some p
    → memb p r.frame_pool ≡ false
unfolding places
in_slot-memb held r s p own h e =
    let cleared = count_put r.frame_ring s none p h in
    count_in-absent p r.frame_pool (ground (arith, rw e at cleared, own p))

pub return_to_pool-places :
    (r : Receiver) (p x : ℕ)
    → memb p r.frame_pool ≡ false
    → places (return_to_pool r p) x ≡ places r x + one_if (p == x)
unfolding return_to_pool places count_in
return_to_pool-places r p x e = rw e (omega arith)

take-places :
    (r : Receiver) (pool : List ℕ) (x : ℕ)
    → r.frame_pool ≡ pool
    → let (p, r') = take_frame r pool in
      places r' x + one_if (p == x) + allocated r x ≡ places r x + allocated r' x
unfolding take_frame places count_in
take-places r [] x e = ground arith
take-places r (p ∷ pool) x e = ground arith

take_frame-ring : (r : Receiver) (pool : List ℕ) → (take_frame r pool).1.frame_ring ≡ r.frame_ring
unfolding take_frame
take_frame-ring r [] = refl
take_frame-ring r (p ∷ pool) = refl

start-places :
    (r : Receiver) (h : VideoHeader) (now x : ℕ)
    → let r' = (start_frame r h now).1 in
      places r' x + one_if (is_frame x (r.frame_ring (slot_of h.frame_id))) + allocated r x
      ≡ places r x + allocated r' x
unfolding start_frame get_from_pool places
start-places r h now x =
    let (p, r1) = take_frame r r.frame_pool in
    let s = slot_of h.frame_id in
    let taken = take-places r r.frame_pool x refl in
    let there = count_put r1.frame_ring s (some p) x (omega arith) in
    let before : one_if (is_frame x (r1.frame_ring s)) ≡ one_if (is_frame x (r.frame_ring s)) =
      ap (λ (ring : ℕ → Option ℕ). one_if (is_frame x (ring s))) (take_frame-ring r r.frame_pool) in
    omega (arith, taken, there, before)

-- Frames move, and new ones are allocated, but none is lost or in two places.
abbrev pub IsBalanced : Receiver → Receiver → Type 0
IsBalanced r r' = (x : ℕ) → places r' x + allocated r x ≡ places r x + allocated r' x

pub return_to_pool-keeps :
    (r : Receiver) (p : ℕ)
    → ((return_to_pool r p).frame_ring ≡ r.frame_ring)
      × ((return_to_pool r p).frame_storage ≡ r.frame_storage)
unfolding return_to_pool
return_to_pool-keeps r p = ground arith

-- The frame `p` of the slot goes to the pool, and another takes its place.
replace-IsBalanced :
    (held : List ℕ) (r : Receiver) (h : VideoHeader) (now p : ℕ)
    → IsOwned held r
    → r.frame_ring (slot_of h.frame_id) ≡ some p
    → IsBalanced r (start_frame (return_to_pool r p) h now).1
replace-IsBalanced held r h now p own e x =
    let s = slot_of h.frame_id in
    let back = return_to_pool r p in
    let absent = in_slot-memb held r s p own (omega arith) e in
    let started = start-places back h now x in
    let (ring, storage) = return_to_pool-keeps r p in
    omega (
      arith,
      return_to_pool-places r p x absent,
      started,
      ap (λ o. one_if (is_frame x o)) (ap (λ (f : ℕ → Option ℕ). f s) ring ∙ e),
      ap (λ n. one_if (ltb x n)) storage,
    )

pub find_frame-IsBalanced :
    (held : List ℕ) (r : Receiver) (h : VideoHeader) (now : ℕ)
    → IsOwned held r
    → IsBalanced r (find_frame r h now).1
unfolding find_frame
find_frame-IsBalanced held r h now own x = elim (Option-cases (r.frame_ring (slot_of h.frame_id))) [
  | inl e ↦
      rw (e, find_frame) (let started = rw e at (start-places r h now x) in omega (arith, started))
  | inr (p, e) ↦
      rw (e, find_frame)
        (elim (Bool-cases ((r.frames p).frame_id == h.frame_id)) [
          | inl same ↦ rw same refl
          | inr other ↦ rw other (replace-IsBalanced held r h now p own e x)
        ])
]
