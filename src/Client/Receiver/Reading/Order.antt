-- ===== src/Client/Receiver/Reading/Order.antt =====
-- What the reader gets: whole frames, one after the other.
use remote_play.Prelude.{
  ℕ, zero, suc, ◌+◌, ◌≤◌, ◌<◌, ◌≡◌, ◌⊎◌, refl, sym, ap, ◌∙◌, List, [], ◌∷◌, ◌++◌, Bool, true, false,
  arith, Option, none, some, leb, ◌==◌, if◌then◌else◌, Bool-cases, Option-cases, inl, inr, u32,
  length, take, length-append,
}
use mathlib.Core.List.{append-nil, append_assoc}
use remote_play.Client.Frame.{FrameData}
use remote_play.Client.Receiver.Fragment.Count.{complete_full}
use remote_play.Client.Receiver.Counting.{AllCounted}
use remote_play.Client.Receiver.State.{Receiver, slot_of}
use remote_play.Client.Receiver.Reading.{
  frame_at, hand_out, get_next_frame, nack_fragments, nack_frame, nack_frames, get_pending_nacks,
}

-- What the reader may rely on when it gets the frame at `p`.
pub record IsDelivered (r r' : Receiver) (p : ℕ) : Type 0 where
  pub expected : (r.frames p).frame_id ≡ r.next_frame_id_to_read
  pub whole : (i : ℕ) → i < (r.frames p).total_fragments → (r.frames p).fragment_map i ≡ true
  pub next : r'.next_frame_id_to_read ≡ u32 (r.next_frame_id_to_read + 1)
  pub taken : r'.frame_ring (slot_of r.next_frame_id_to_read) ≡ none

frame_at-id : (r : Receiver) (fid p : ℕ) → frame_at r fid ≡ some p → (r.frames p).frame_id ≡ fid
unfolding frame_at
frame_at-id r fid p e = elim (Option-cases (r.frame_ring (slot_of fid))) [
  | inl none_there ↦ absurd_of (rw (none_there, frame_at) at e)
  | inr (q, there) ↦ here q (rw (there, frame_at) at e)
]
  where
    absurd_of : ◌≡◌ {A = Option ℕ} none (some p) → (r.frames p).frame_id ≡ fid
    absurd_of k = cc

    here :
        (q : ℕ)
        → (if (r.frames q).frame_id == fid then some q else none) ≡ some p
        → (r.frames p).frame_id ≡ fid
    here q k = ground arith

-- GetNextFrame hands out a frame only if it has the expected number and all its fragments are there;
-- it then expects the next number, which wraps at 2 ^ 32, and the frame is no longer in the ring.
-- Otherwise it hands out nothing and changes nothing.
pub get_next_frame-in_order :
    (r : Receiver)
    → AllCounted r
    → let (o, r') = get_next_frame r in
      ((o ≡ none) × (r' ≡ r)) ⊎ ((p : ℕ) × (o ≡ some p) × IsDelivered r r' p)
unfolding get_next_frame hand_out
get_next_frame-in_order r all = elim (Option-cases (frame_at r r.next_frame_id_to_read)) [
  | inl e ↦ rw (e, get_next_frame) (inl (refl, refl))
  | inr (p, e) ↦
      rw (e, get_next_frame)
        (elim (Bool-cases (r.frames p).is_complete) [
          | inr partly ↦ rw partly (inl (refl, refl))
          | inl fully ↦ rw fully (
              inr (
                p,
                refl,
                record {
                  expected = frame_at-id r r.next_frame_id_to_read p e;
                  whole = λ i h. complete_full (r.frames p) i (all p) fully h;
                  next = refl;
                  taken = ground arith;
                },
              ))
        ])
]

-- The fragments of one frame that are not there, in order.
pub missing_of : FrameData → ℕ → ℕ → ℕ → List (ℕ × ℕ)
missing_of f fid j zero = []
missing_of f fid j (suc rounds) =
    let rest = missing_of f fid (j + 1) rounds in if f.fragment_map j then rest else (fid, j) ∷ rest

-- All that could be asked for: the missing fragments of the incomplete frames among the next 32.
missing_at : Receiver → ℕ → List (ℕ × ℕ)
unfolding missing_of
missing_at r fid = elim (frame_at r fid) [
  | none ↦ []
  | some p ↦
      if (r.frames p).is_complete
      then []
      else missing_of (r.frames p) fid 0 (r.frames p).total_fragments
]

pub missing_from : Receiver → ℕ → ℕ → List (ℕ × ℕ)
unfolding missing_at
missing_from r i zero = []
missing_from r i (suc rounds) =
    missing_at r (u32 (r.next_frame_id_to_read + i)) ++ missing_from r (i + 1) rounds

-- How a scan over the wanted fragments `xs` ends that has collected `acc` before: it is cut short with
-- ten of them, or has added them all.
data Scan (acc xs : List (ℕ × ℕ)) (r : Bool × List (ℕ × ℕ)) : Type 0 where
  cut :
      (tail : List (ℕ × ℕ)) → r.0 ≡ true → length r.1 ≡ 10 → acc ++ xs ≡ r.1 ++ tail → Scan acc xs r
  whole : r.0 ≡ false → r.1 ≡ acc ++ xs → length r.1 ≤ 10 → Scan acc xs r

Scan-cast :
    {acc acc' xs xs' : List (ℕ × ℕ)} {r : Bool × List (ℕ × ℕ)}
    → acc ++ xs ≡ acc' ++ xs'
    → Scan acc xs r
    → Scan acc' xs' r
Scan-cast e (cut tail a b c) = cut tail a b (sym e ∙ c)
Scan-cast e (whole a b c) = whole a (b ∙ e) c

nack_fragments-Scan :
    (f : FrameData) (fid j rounds : ℕ) (acc : List (ℕ × ℕ))
    → length acc ≤ 10
    → Scan acc (missing_of f fid j rounds) (nack_fragments f fid j rounds acc)
unfolding nack_fragments missing_of
nack_fragments-Scan f fid j zero acc h = whole refl (sym (append-nil acc)) h
nack_fragments-Scan f fid j (suc rounds) acc h = elim (Bool-cases (f.fragment_map j)) [
  | inl there ↦ rw there (nack_fragments-Scan f fid (j + 1) rounds acc h)
  | inr lost ↦ rw lost (elim (Bool-cases (leb 10 (length acc))) [
    | inl enough ↦
        rw enough (cut ((fid, j) ∷ missing_of f fid (j + 1) rounds) refl (ground arith) refl)
    | inr room ↦ rw room (
        Scan-cast (append_assoc acc ((fid, j) ∷ []) _) (
          nack_fragments-Scan f fid (j + 1) rounds (acc ++ (fid, j) ∷ [])
            (ground (arith, length-append acc ((fid, j) ∷ [])))))
  ])
]

nack_frame-Scan :
    (r : Receiver) (fid : ℕ) (acc : List (ℕ × ℕ))
    → length acc ≤ 10
    → Scan acc (missing_at r fid) (nack_frame r fid acc)
unfolding nack_frame missing_at
nack_frame-Scan r fid acc h = elim (Option-cases (frame_at r fid)) [
  | inl e ↦ rw (e, nack_frame, missing_at) (whole refl (sym (append-nil acc)) h)
  | inr (p, e) ↦ rw (e, nack_frame, missing_at) (by_flag p (r.frames p).is_complete)
]
  where
    by_flag :
        (p : ℕ) (complete : Bool)
        → Scan acc
            (if complete then [] else missing_of (r.frames p) fid 0 (r.frames p).total_fragments)
            (if complete
              then (false, acc)
              else nack_fragments (r.frames p) fid 0 (r.frames p).total_fragments acc)
    by_flag p true = whole refl (sym (append-nil acc)) h
    by_flag p false = nack_fragments-Scan (r.frames p) fid 0 _ acc h

take_front : (n : ℕ) (xs ys : List (ℕ × ℕ)) → length xs ≡ n → take n (xs ++ ys) ≡ xs
take_front zero [] ys e = refl
take_front zero (x ∷ xs) ys e = absurd (omega arith)
take_front (suc n) [] ys e = absurd (omega arith)
take_front (suc n) (x ∷ xs) ys e = ap (◌∷◌ x) (take_front n xs ys (omega arith))

take_all : (n : ℕ) (xs : List (ℕ × ℕ)) → length xs ≤ n → take n xs ≡ xs
take_all zero [] h = refl
take_all zero (x ∷ xs) h = absurd (omega arith)
take_all (suc n) [] h = refl
take_all (suc n) (x ∷ xs) h = ap (◌∷◌ x) (take_all n xs (omega arith))

nack_frames-take :
    (r : Receiver) (i rounds : ℕ) (acc : List (ℕ × ℕ))
    → length acc ≤ 10
    → nack_frames r i rounds acc ≡ take 10 (acc ++ missing_from r i rounds)
unfolding nack_frames missing_from
nack_frames-take r i zero acc h = sym (ap (take 10) (append-nil acc) ∙ take_all 10 acc h)
nack_frames-take r i (suc rounds) acc h =
    let fid = u32 (r.next_frame_id_to_read + i) in
    after (nack_frame-Scan r fid acc h) (nack_frames-take r (i + 1) rounds (nack_frame r fid acc).1)
  where
    abbrev_result : Bool × List (ℕ × ℕ)
    abbrev_result = nack_frame r (u32 (r.next_frame_id_to_read + i)) acc

    after :
        Scan acc (missing_at r (u32 (r.next_frame_id_to_read + i))) abbrev_result
        → (length abbrev_result.1 ≤ 10
            → nack_frames r (i + 1) rounds abbrev_result.1
              ≡ take 10 (abbrev_result.1 ++ missing_from r (i + 1) rounds))
        → (if abbrev_result.0
            then abbrev_result.1
            else nack_frames r (i + 1) rounds abbrev_result.1)
          ≡ take 10 (
              acc
              ++ (missing_at r (u32 (r.next_frame_id_to_read + i))
                  ++ missing_from r (i + 1) rounds))
    after (cut tail a b c) ih = rw a (
        sym (
          ap (take 10) (
            sym (append_assoc acc _ _)
            ∙ ap (λ l. l ++ missing_from r (i + 1) rounds) c
            ∙ append_assoc abbrev_result.1 tail _)
          ∙ take_front 10 abbrev_result.1 _ b))
    after (whole a b c) ih = rw a (
        ih c ∙ ap (take 10) (ap (λ l. l ++ missing_from r (i + 1) rounds) b ∙ append_assoc acc _ _))

-- GetPendingNACKs asks for the first ten of the fragments that are missing from the incomplete
-- frames among the next 32 numbers, in order of frame and fragment: for all of them if they are ten or
-- fewer.
pub get_pending_nacks-take : (r : Receiver) → get_pending_nacks r ≡ take 10 (missing_from r 0 32)
unfolding get_pending_nacks
get_pending_nacks-take r = nack_frames-take r 0 32 [] (omega arith)
