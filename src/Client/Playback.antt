-- ===== src/Client/Playback.antt =====
-- cpp/common/session_manager.cpp, SessionManager::runClient: what the main loop does between the
-- receiver and the jitter buffer. A frame moves from one to the other; its return to the receiver's
-- pool when it is destroyed is left out.
pub mod Recovered
mod Tests
use remote_play.Prelude.{
  ℕ, zero, suc, ◌+◌, Bool, true, false, not, ◌&&◌, Option, none, some, ltb, ◌==◌, if◌then◌else◌,
  u32,
}
use remote_play.Client.JitterBuffer.{JitterBuffer, Doubles}
use remote_play.Client.JitterBuffer
use remote_play.Client.Receiver.State.{Receiver}
use remote_play.Client.Receiver.Reading.{
  get_next_frame, find_latest_available_keyframe, force_advance_to,
}

-- The locals that decide whether a keyframe is asked for.
pub record GapDetector : Type 0 where
  pub request_keyframe : Bool
  pub last_reported_missing_frame_id : ℕ

-- A gap that persists is reported once for each frame that is missing.
unfoldable pub detect_gap : GapDetector → Receiver → ℕ → GapDetector
detect_gap g r last_frame_id =
    let next_expected = r.next_frame_id_to_read in
    if ltb (u32 (next_expected + 10)) last_frame_id
      && not (next_expected == g.last_reported_missing_frame_id)
    then record { request_keyframe = true; last_reported_missing_frame_id = next_expected }
    else g

module _ {double : Type 0} where
  -- A complete keyframe ahead of the frame that is waited for: both go on there. The receiver is the
  -- one under the scan's lock, the one at the read without a lock, and the one under
  -- ForceAdvanceTo's lock; in between the network thread may have changed it.
  unfoldable pub recover_keyframe :
      Receiver → Receiver → Receiver → JitterBuffer double → Receiver × JitterBuffer double
  recover_keyframe scanned read locked b =
      let latest_keyframe = find_latest_available_keyframe scanned in
      if ltb 0 latest_keyframe && ltb read.next_frame_id_to_read latest_keyframe
      then (force_advance_to locked latest_keyframe, JitterBuffer.reset b latest_keyframe)
      else (locked, b)

-- One round of the loop over GetNextFrame, with the receiver under its lock and the two readings of
-- the clock of PushFrame; none ends the loop.
module _ (R : Doubles) where
  unfoldable pub move_frame :
      Receiver → JitterBuffer R.Double → ℕ → ℕ → Option (Receiver × JitterBuffer R.Double)
  move_frame r b now now' = elim (get_next_frame r).0 [
    | none ↦ none
    | some p ↦ some ((get_next_frame r).1, JitterBuffer.push_frame R b (r.frames p) now now')
  ]
