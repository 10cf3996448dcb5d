-- ===== src/Client/Receiver/Owners/Readers.antt =====
-- cpp/client/receiver.cpp: each frame has one owner, whatever the reader calls, and at the start.
use remote_play.Prelude.{
  ℕ, zero, suc, ◌+◌, ◌-◌, ◌≡◌, ◌⊎◌, refl, ap, List, [], ◌∷◌, true, Option, none, some, arith, ltb,
  leb, ◌==◌, if◌then◌else◌, Bool-cases, Option-cases, inl, inr,
}
use remote_play.Common.PacketPool
use remote_play.Client.Receiver.Fragment.{put}
use remote_play.Client.Receiver.Fragment.Count.{count_set-none}
use remote_play.Client.Receiver.State.{Receiver, init, slot_of, return_to_pool, memb}
use remote_play.Client.Receiver.Reading.{
  frame_at, get_next_frame, hand_out, discard_frame, discard_frames, force_advance_to,
}
use remote_play.Client.Receiver.Owners.{count_in, count_in-absent, places, IsOwned}
use remote_play.Client.Receiver.Owners.Balance.{
  one_if, count_put, in_slot-memb, return_to_pool-places, return_to_pool-keeps,
}
use remote_play.Client.Receiver.Owners.Calls.{IsSame-IsOwned}

-- A frame of the ring is taken out of it.
frame_at-slot :
    (r : Receiver) (fid p : ℕ) → frame_at r fid ≡ some p → r.frame_ring (slot_of fid) ≡ some p
unfolding frame_at
frame_at-slot r fid p e = elim (Option-cases (r.frame_ring (slot_of fid))) [
  | inl empty ↦ absurd (none_there (rw (empty, frame_at) at e))
  | inr (q, there) ↦ here q there (rw (there, frame_at) at e)
]
  where
    here :
        (q : ℕ)
        → r.frame_ring (slot_of fid) ≡ some q
        → (if (r.frames q).frame_id == fid then some q else none) ≡ some p
        → r.frame_ring (slot_of fid) ≡ some p
    here q there k = ground arith

    none_there : ◌≡◌ {A = Option ℕ} none (some p) → ⊥
    none_there k = cc

hand_out-IsOwned :
    (held : List ℕ) (r : Receiver) (p : ℕ)
    → r.frame_ring (slot_of r.next_frame_id_to_read) ≡ some p
    → IsOwned held r
    → IsOwned (p ∷ held) (hand_out r p)
unfolding hand_out places count_in
hand_out-IsOwned held r p e own x =
    let s = slot_of r.next_frame_id_to_read in
    let moved = rw e at (count_put r.frame_ring s none x (omega arith)) in
    omega (arith, own x, moved)

pub get_next_frame-IsOwned :
    (held : List ℕ) (r : Receiver)
    → IsOwned held r
    → let (o, r') = get_next_frame r in
      ((o ≡ none) × IsOwned held r') ⊎ ((p : ℕ) × (o ≡ some p) × IsOwned (p ∷ held) r')
unfolding get_next_frame
get_next_frame-IsOwned held r own = elim (Option-cases (frame_at r r.next_frame_id_to_read)) [
  | inl e ↦ rw (e, get_next_frame) (inl (refl, own))
  | inr (p, e) ↦
      rw (e, get_next_frame)
        (elim (Bool-cases (r.frames p).is_complete) [
          | inr partly ↦ rw partly (inl (refl, own))
          | inl fully ↦ rw fully (
              inr (
                p,
                refl,
                hand_out-IsOwned held r p (frame_at-slot r r.next_frame_id_to_read p e) own,
              ))
        ])
]

to_pool-IsOwned :
    (held : List ℕ) (r : Receiver) (fid p : ℕ)
    → r.frame_ring (slot_of fid) ≡ some p
    → IsOwned held r
    → IsOwned held
        (record (return_to_pool r p) { frame_ring = put r.frame_ring (slot_of fid) none })
unfolding return_to_pool places count_in
to_pool-IsOwned held r fid p e own x =
    let absent = in_slot-memb held r (slot_of fid) p own (omega arith) e in
    let moved = rw e at (count_put r.frame_ring (slot_of fid) none x (omega arith)) in
    rw absent (omega (arith, own x, moved))

discard_frame-IsOwned :
    (held : List ℕ) (r : Receiver) (fid : ℕ) → IsOwned held r → IsOwned held (discard_frame r fid)
unfolding discard_frame
discard_frame-IsOwned held r fid own = elim (Option-cases (frame_at r fid)) [
  | inl e ↦ rw (e, discard_frame) own
  | inr (p, e) ↦ rw (e, discard_frame) (to_pool-IsOwned held r fid p (frame_at-slot r fid p e) own)
]

discard_frames-IsOwned :
    (held : List ℕ) (r : Receiver) (fid rounds : ℕ)
    → IsOwned held r
    → IsOwned held (discard_frames r fid rounds)
unfolding discard_frames
discard_frames-IsOwned held r fid zero own = own
discard_frames-IsOwned held r fid (suc rounds) own =
    discard_frames-IsOwned held (discard_frame r fid) (fid + 1) rounds
      (discard_frame-IsOwned held r fid own)

advanced-IsOwned :
    (held : List ℕ) (r : Receiver) (frame_id : ℕ)
    → IsOwned held r
    → IsOwned held (record r { next_frame_id_to_read = frame_id })
advanced-IsOwned held r frame_id own =
    IsSame-IsOwned held r (some (record r { next_frame_id_to_read = frame_id })) own (record {
      window = refl;
      frame_pool = refl;
      frame_ring = refl;
      frame_storage = refl;
      fec_ring = refl;
      fec_pool = refl;
    })

pub force_advance_to-IsOwned :
    (held : List ℕ) (r : Receiver) (frame_id : ℕ)
    → IsOwned held r
    → IsOwned held (force_advance_to r frame_id)
unfolding force_advance_to
force_advance_to-IsOwned held r frame_id own =
    elim (Bool-cases (leb frame_id r.next_frame_id_to_read)) [
      | inl back ↦ rw back own
      | inr ahead ↦ rw ahead (
          advanced-IsOwned held _ frame_id (
            discard_frames-IsOwned held r r.next_frame_id_to_read
              (frame_id - r.next_frame_id_to_read) own))
    ]

-- What the reader gives back goes to the pool.
unfoldable pub remove : ℕ → List ℕ → List ℕ
remove p [] = []
remove p (q ∷ qs) = if q == p then qs else q ∷ remove p qs

remove-count :
    (p x : ℕ) (qs : List ℕ)
    → memb p qs ≡ true
    → count_in x (remove p qs) + one_if (p == x) ≡ count_in x qs
unfolding remove count_in
remove-count p x [] e = cc
remove-count p x (q ∷ qs) e = ground (arith, remove-count p x qs)

pub give_back-IsOwned :
    (held : List ℕ) (r : Receiver) (p : ℕ)
    → memb p held ≡ true
    → IsOwned held r
    → IsOwned (remove p held) (return_to_pool r p)
unfolding places
give_back-IsOwned held r p e own x =
    let removed = remove-count p p held e in
    let absent =
      let mine = own p in count_in-absent p r.frame_pool (ground (arith, removed, mine)) in
    let (ring, storage) = return_to_pool-keeps r p in
    omega (
      arith,
      own x,
      remove-count p x held e,
      return_to_pool-places r p x absent,
      ap (λ n. one_if (ltb x n)) storage,
    )

pool-count : (n x : ℕ) → count_in x (PacketPool.init n) ≡ one_if (ltb x n)
unfolding count_in PacketPool.init
pool-count zero x = ground arith
pool-count (suc n) x = ground (arith, pool-count n x)

pub init-IsOwned : (n : ℕ) → IsOwned [] (init n)
unfolding init places
init-IsOwned n x = omega (arith, pool-count n x, count_set-none 64, nothing_held x)
  where
    nothing_held : (y : ℕ) → count_in y [] ≡ 0
    nothing_held y = unfold count_in in refl
