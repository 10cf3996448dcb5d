-- ===== src/Client/Playback/Tests.antt =====
-- Runs and instances of the client's main loop.
use remote_play.Prelude.{
  ℕ, ◌+◌, ◌*◌, ◌/◌, ◌^◌, ◌-◌, ◌≤◌, ◌<◌, ◌≡◌, refl, true, false, none, some, arith, ltb, min, max,
  ◌==◌, if◌then◌else◌,
}
use remote_play.Client.Frame.{fresh}
use remote_play.Client.JitterBuffer.{Doubles, JitterBuffer}
use remote_play.Client.JitterBuffer
use remote_play.Client.Receiver.State.{Receiver}
use remote_play.Client.Receiver.State
use remote_play.Client.Receiver.Reading.{frame_at, is_keyframe_at}
use remote_play.Client.Playback.{GapDetector, detect_gap, recover_keyframe}
use remote_play.Client.Playback.Recovered.{IsKept, recover_keyframe-in_step}
use remote_play.Client.JitterBuffer.Emptied.{IsVacant}

abbrev thousandths : Doubles
thousandths = record {
  Double = ℕ;
  decimal = λ n k. n * 1000 / 10 ^ k;
  millis = λ n. n;
  plus = λ x y. x + y;
  times = λ x y. x * y / 1000;
  abs_diff = λ x y. max x y - min x y;
  clamp = λ x low high. max low (min x high);
  less = ltb;
}

-- The frame 5 is waited for and is not there; the keyframe 9 is.
abbrev blocked : Receiver
blocked = record (State.init 4) {
  next_frame_id_to_read = 5;
  first_frame_received = true;
  frame_ring = λ slot. if slot == 9 then some 1 else none;
  frames = λ p. record fresh { frame_id = 9; is_complete = true; is_keyframe = true };
}

abbrev shown : JitterBuffer ℕ
shown = JitterBuffer.init thousandths 3

abbrev ticks : ℕ → ℕ × ℕ
ticks i = (1000 + i, 1001 + i)

nine-is_keyframe_at : is_keyframe_at blocked (5 + 4) ≡ true
unfolding is_keyframe_at frame_at
nine-is_keyframe_at = refl

-- Before the advance, the network thread has put a frame into the slot 20.
abbrev arrived : Receiver
arrived = record blocked {
  frame_ring = λ slot. if slot == 20 then some 2 else blocked.frame_ring slot;
}

arrived-keyframe :
    (x : ℕ) → 5 ≤ x → x < 69 → is_keyframe_at blocked x ≡ true → is_keyframe_at arrived x ≡ true
unfolding is_keyframe_at frame_at
arrived-keyframe x le lt h = ground (arith, h)

arrived-IsKept : IsKept blocked arrived
arrived-IsKept = record { next = refl; keyframes = arrived-keyframe }

recover_keyframe-in_step_example :
    let (r', b') = recover_keyframe blocked arrived arrived shown in
    (9 ≤ r'.next_frame_id_to_read)
    × (is_keyframe_at r' r'.next_frame_id_to_read ≡ true)
    × (b'.next_pop_frame_id ≡ r'.next_frame_id_to_read)
    × (b'.count ≡ 0)
    × ((slot : ℕ) → slot < 32 → IsVacant b' slot)
recover_keyframe-in_step_example =
    recover_keyframe-in_step blocked arrived arrived shown 4 (omega arith) (omega arith)
      (omega arith) nine-is_keyframe_at refl arrived-IsKept

-- A gap is reported once.
abbrev quiet : GapDetector
quiet = record { request_keyframe = false; last_reported_missing_frame_id = 0 }

detect_gap-once :
    ((detect_gap quiet blocked 16).request_keyframe ≡ true)
    × ((detect_gap quiet blocked 15).request_keyframe ≡ false)
    × ((detect_gap
          (record quiet { last_reported_missing_frame_id = 5 })
          blocked
          16).request_keyframe
        ≡ false)
unfolding detect_gap
detect_gap-once = (refl, refl, refl)
