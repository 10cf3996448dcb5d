-- ===== src/Client/JitterBuffer/Tests.antt =====
-- Runs and instances of cpp/client/jitter_buffer.cpp, with hundredths of a millisecond as `double`.
use remote_play.Prelude.{ℕ, ◌<◌, ◌+◌, ◌-◌, ◌*◌, ◌/◌, ◌^◌, ◌≡◌, refl, arith, ltb, min, max}
use remote_play.Client.Frame.{FrameData, fresh}
use remote_play.Client.JitterBuffer.{
  Doubles, JitterBuffer, init, push_frame, pop_frame, shrink, Popped, find_oldest, estimate,
  start_at, insert_frame, holds, no_entry, waits, take_entry, frame, nothing, crash,
}
use remote_play.Client.JitterBuffer.Sound.{
  IsSound, IsShown, init-IsSound, push_frame-IsSound, pop_frame-in_order, occupied_count,
}
use remote_play.Client.Receiver.Fragment.Count.{count_set}

abbrev hundredths : Doubles
hundredths = record {
  Double = ℕ;
  decimal = λ n k. n * 100 / 10 ^ k;
  millis = λ n. n / 10;
  plus = λ x y. x + y;
  times = λ x y. x * y / 100;
  abs_diff = λ x y. max x y - min x y;
  clamp = λ x low high. max low (min x high);
  less = ltb;
}

abbrev numbered : ℕ → FrameData
numbered id = record fresh { frame_id = id }

abbrev empty : JitterBuffer ℕ
empty = init hundredths 3

abbrev one : JitterBuffer ℕ
one = push_frame hundredths empty (numbered 7) 1000 1001

room : empty.count + 1 < 2 ^ 64
unfolding init
room = omega arith

one-IsSound : IsSound one
one-IsSound =
    push_frame-IsSound hundredths empty (numbered 7) 1000 1001 room (init-IsSound hundredths 3)

pop_frame-in_order_example :
    IsShown one (pop_frame hundredths one 0 50000).0 (pop_frame hundredths one 0 50000).1
pop_frame-in_order_example = pop_frame-in_order hundredths one 0 50000 one-IsSound

-- Thirty frames that were counted, with one place occupied.
abbrev crowded : JitterBuffer ℕ
crowded = record one { count = 30 }

abbrev all_jitter : JitterBuffer ℕ
all_jitter =
    push_frame hundredths (push_frame hundredths one (numbered 8) 17000 17001) (numbered 40) 30000
      30001

-- Frame 40 takes the place of frame 8, and the counter covers one place too many.
overwritten : (all_jitter.count ≡ 3) × (occupied_count all_jitter.info ≡ 2)
unfolding init push_frame shrink find_oldest estimate start_at insert_frame holds no_entry
    occupied_count count_set
overwritten = (refl, refl)

abbrev shown_at : Popped → ℕ
shown_at crash = 1000
shown_at nothing = 2000
shown_at (frame f) = f.frame_id

-- The first frame comes out after the delay, not before.
popped :
    (shown_at (pop_frame hundredths one 0 2000).0 ≡ 2000)
    × (shown_at (pop_frame hundredths one 0 50000).0 ≡ 7)
unfolding init push_frame shrink find_oldest estimate start_at insert_frame holds no_entry pop_frame
    waits take_entry
popped = (refl, refl)
