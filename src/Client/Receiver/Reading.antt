-- ===== src/Client/Receiver/Reading.antt =====
-- cpp/client/receiver.cpp: the reading side. GetNextFrame, FindLatestAvailableKeyframe,
-- ForceAdvanceTo and GetPendingNACKs.
pub mod Order
use remote_play.Prelude.{
  ℕ, zero, suc, ◌+◌, ◌-◌, ◌%◌, List, [], ◌∷◌, ◌++◌, Bool, true, false, not, ◌&&◌, ◌||◌, Option,
  none, some, ltb, leb, ◌==◌, if◌then◌else◌, u32, length,
}
use remote_play.Client.Frame.{FrameData}
use remote_play.Client.Receiver.Fragment.{put}
use remote_play.Client.Receiver.State.{Receiver, slot_of, return_to_pool}

-- The frame of the ring with this number, if it is there.
unfoldable pub frame_at : Receiver → ℕ → Option ℕ
frame_at r fid = elim (r.frame_ring (slot_of fid)) [
  | none ↦ none
  | some p ↦ if (r.frames p).frame_id == fid then some p else none
]

unfoldable pub hand_out : Receiver → ℕ → Receiver
hand_out r p = record r {
  frame_ring = put r.frame_ring (slot_of r.next_frame_id_to_read) none;
  next_frame_id_to_read = u32 (r.next_frame_id_to_read + 1);
}

-- The caller becomes the owner of the frame at the address.
unfoldable pub get_next_frame : Receiver → Option ℕ × Receiver
unfolding frame_at hand_out
get_next_frame r = elim (frame_at r r.next_frame_id_to_read) [
  | none ↦ (none, r)
  | some p ↦ if (r.frames p).is_complete then (some p, hand_out r p) else (none, r)
]

-- `found ? latestKeyframeId : 0`: the loop keeps the last hit.
unfoldable pub is_keyframe_at : Receiver → ℕ → Bool
is_keyframe_at r fid = elim (frame_at r fid) [
  | none ↦ false
  | some p ↦ (r.frames p).is_complete && (r.frames p).is_keyframe
]

unfoldable pub scan_keyframes : Receiver → ℕ → ℕ → ℕ → ℕ
unfolding is_keyframe_at
scan_keyframes r i zero latest = latest
scan_keyframes r i (suc rounds) latest =
    let fid = u32 (r.next_frame_id_to_read + i) in
    scan_keyframes r (i + 1) rounds (if is_keyframe_at r fid then fid else latest)

unfoldable pub find_latest_available_keyframe : Receiver → ℕ
find_latest_available_keyframe r = scan_keyframes r 0 64 0

-- The loop of ForceAdvanceTo: frames with the numbers `fid`, `fid + 1`, … go back to the pool.
unfoldable pub discard_frame : Receiver → ℕ → Receiver
discard_frame r fid = elim (frame_at r fid) [
  | none ↦ r
  | some p ↦ record (return_to_pool r p) { frame_ring = put r.frame_ring (slot_of fid) none }
]

unfoldable pub discard_frames : Receiver → ℕ → ℕ → Receiver
discard_frames r fid zero = r
discard_frames r fid (suc rounds) = discard_frames (discard_frame r fid) (fid + 1) rounds

unfoldable pub force_advance_to : Receiver → ℕ → Receiver
force_advance_to r frame_id =
    if leb frame_id r.next_frame_id_to_read
    then r
    else record (discard_frames r r.next_frame_id_to_read (frame_id - r.next_frame_id_to_read)) {
      next_frame_id_to_read = frame_id;
    }

-- A NACK is a frame number and a fragment index. The flag says that the call returned early.
unfoldable pub nack_fragments : FrameData → ℕ → ℕ → ℕ → List (ℕ × ℕ) → Bool × List (ℕ × ℕ)
nack_fragments f fid j zero nacks = (false, nacks)
nack_fragments f fid j (suc rounds) nacks =
    let rest =
      nack_fragments f fid (j + 1) rounds
        (if f.fragment_map j then nacks else nacks ++ (fid, j) ∷ []) in
    if not (f.fragment_map j) && leb 10 (length nacks) then (true, nacks) else rest

unfoldable pub nack_frame : Receiver → ℕ → List (ℕ × ℕ) → Bool × List (ℕ × ℕ)
nack_frame r fid nacks = elim (frame_at r fid) [
  | none ↦ (false, nacks)
  | some p ↦
      if (r.frames p).is_complete
      then (false, nacks)
      else nack_fragments (r.frames p) fid 0 (r.frames p).total_fragments nacks
]

unfoldable pub nack_frames : Receiver → ℕ → ℕ → List (ℕ × ℕ) → List (ℕ × ℕ)
nack_frames r i zero nacks = nacks
nack_frames r i (suc rounds) nacks =
    let (early, nacks') = nack_frame r (u32 (r.next_frame_id_to_read + i)) nacks in
    let rest = nack_frames r (i + 1) rounds nacks' in if early then nacks' else rest

unfoldable pub get_pending_nacks : Receiver → List (ℕ × ℕ)
get_pending_nacks r = nack_frames r 0 32 []
