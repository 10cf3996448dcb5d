-- ===== src/Client/JitterBuffer.antt =====
-- cpp/client/jitter_buffer.cpp and jitter_buffer.hpp: complete frames wait here until they are shown.
-- `now` is the monotone clock in microseconds. The arithmetic on `double` is a parameter, since the
-- type belongs to the platform; what is proved holds for every choice of it.
pub mod Sound
pub mod Emptied
pub mod Overflow
mod Tests
use remote_play.Prelude.{
  ℕ, zero, suc, ◌+◌, ◌-◌, ◌%◌, ◌^◌, Bool, true, false, not, ◌&&◌, ◌||◌, Option, none, some, ltb,
  ◌==◌, if◌then◌else◌, u32, u64,
}
use remote_play.Common.FixedRing
use remote_play.Client.Frame.{FrameData}

-- `decimal n k` is the constant n · 10⁻ᵏ; `millis` is the conversion of a count of microseconds.
pub record Doubles : Type 1 where
  pub Double : Type 0
  pub decimal : ℕ → ℕ → Double
  pub millis : ℕ → Double
  pub plus : Double → Double → Double
  pub times : Double → Double → Double
  pub abs_diff : Double → Double → Double
  pub clamp : Double → Double → Double → Double
  pub less : Double → Double → Bool

pub record EntryInfo : Type 0 where
  pub frame_id : ℕ
  pub push_time : ℕ
  pub occupied : Bool

pub record JitterBuffer (double : Type 0) : Type 0 where
  pub ring : ℕ → Option FrameData
  pub info : ℕ → EntryInfo
  pub next_pop_frame_id : ℕ  -- uint32_t
  pub initialized : Bool
  pub count : ℕ  -- size_t
  pub max_frames : ℕ
  pub avg_jitter_ms : double
  pub last_push_time : ℕ
  pub has_last_push_time : Bool

unfoldable pub no_entry : EntryInfo
no_entry = record { frame_id = 0; push_time = 0; occupied = false }

-- The loop over `i < 32` of PushFrame: the smallest id, and whether there is one.
unfoldable pub find_oldest : (ℕ → EntryInfo) → ℕ → ℕ → ℕ → ℕ → Bool → ℕ × Bool
find_oldest info next i zero oldest_id found = (oldest_id, found)
find_oldest info next i (suc rounds) oldest_id found =
    let inf = FixedRing.get 32 info (u32 (next + i)) in
    let smaller = inf.occupied && ltb inf.frame_id oldest_id in
    find_oldest info next (i + 1) rounds (if smaller then inf.frame_id else oldest_id)
      (if smaller then true else found)

-- m_info.get(id)->occupied = false
unfoldable pub vacate : (ℕ → EntryInfo) → ℕ → ℕ → EntryInfo
vacate info id =
    FixedRing.insert 32 info id (record (FixedRing.get 32 info id) { occupied = false })

-- What PopFrame does: `crash` is the read through a null entry.
pub data Popped : Type 0 where
  crash : Popped
  nothing : Popped
  frame : FrameData → Popped

unfoldable pub holds : Option FrameData → ℕ → Bool
holds none id = false
holds (some f) id = f.frame_id == id

module _ {double : Type 0} where
  -- The body of the overflow loop under `found`.
  unfoldable pub drop_frame : JitterBuffer double → ℕ → JitterBuffer double
  drop_frame b oldest_id = record b {
    ring = FixedRing.insert 32 b.ring oldest_id none;
    info = vacate b.info oldest_id;
    count = u64 (b.count + (2 ^ 64 - 1));
    next_pop_frame_id =
        if oldest_id == b.next_pop_frame_id
        then u32 (b.next_pop_frame_id + 1)
        else b.next_pop_frame_id;
  }

  -- The overflow loop. Each round lowers the count, so `count` rounds are enough.
  unfoldable pub shrink : JitterBuffer double → ℕ → JitterBuffer double
  shrink b zero = b
  shrink b (suc fuel) =
      let (oldest_id, found) = find_oldest b.info b.next_pop_frame_id 0 32 (2 ^ 32 - 1) false in
      let rest = shrink (drop_frame b oldest_id) fuel in
      if ltb (32 - 4) b.count then (if found then rest else b) else b

  -- The two inserts of PushFrame.
  unfoldable pub insert_frame : JitterBuffer double → FrameData → ℕ → JitterBuffer double
  insert_frame b f now = record b {
    ring = FixedRing.insert 32 b.ring f.frame_id (some f);
    info =
        FixedRing.insert 32 b.info f.frame_id
          (record { frame_id = f.frame_id; push_time = now; occupied = true });
    count = u64 (b.count + 1);
  }

  -- The first frame says which one is to be shown first.
  unfoldable pub start_at : JitterBuffer double → FrameData → JitterBuffer double
  start_at b f =
      if b.initialized then b else record b { next_pop_frame_id = f.frame_id; initialized = true }

  unfoldable pub reset_from : JitterBuffer double → ℕ → ℕ → JitterBuffer double
  reset_from b i zero = b
  reset_from b i (suc rounds) =
      let id = u32 (b.next_pop_frame_id + i) in
      reset_from (record b { ring = FixedRing.insert 32 b.ring id none; info = vacate b.info id })
        (i + 1) rounds

  unfoldable pub reset : JitterBuffer double → ℕ → JitterBuffer double
  reset b next_expected_id = record (reset_from b 0 32) {
    next_pop_frame_id = next_expected_id;
    count = 0;
    initialized = true;
  }

  -- The end of PopFrame, where the entry moves out.
  unfoldable pub take_entry :
      JitterBuffer double → ℕ → Option FrameData → Popped × JitterBuffer double
  take_entry b id entry = (
    elim entry [ none ↦ nothing | some f ↦ frame f ],
    record b {
      ring = FixedRing.insert 32 b.ring id none;
      info = vacate b.info id;
      count = u64 (b.count + (2 ^ 64 - 1));
      next_pop_frame_id = u32 (b.next_pop_frame_id + 1);
    },
  )

  -- The branch `currentSyncTimeUs > 0`.
  unfoldable pub pop_synced :
      JitterBuffer double → ℕ → Option FrameData → ℕ → Popped × JitterBuffer double
  pop_synced b id none sync_time = (crash, b)
  pop_synced b id (some f) sync_time =
      if ltb (u64 (sync_time + 5000)) f.capture_timestamp
      then (nothing, b)
      else take_entry b id (some f)

module _ (R : Doubles) where
  unfoldable pub init : ℕ → JitterBuffer R.Double
  init max_frames = record {
    ring = λ slot. none;
    info = λ slot. no_entry;
    next_pop_frame_id = 0;
    initialized = false;
    count = 0;
    max_frames = max_frames;
    avg_jitter_ms = R.decimal 50 1;
    last_push_time = 0;
    has_last_push_time = false;
  }

  unfoldable pub estimate : JitterBuffer R.Double → ℕ → JitterBuffer R.Double
  estimate b now = record b {
    avg_jitter_ms =
        if b.has_last_push_time
        then R.plus (R.times b.avg_jitter_ms (R.decimal 9 1)) (
            R.times (R.abs_diff (R.millis (now - b.last_push_time)) (R.decimal 1667 2))
              (R.decimal 1 1))
        else b.avg_jitter_ms;
    last_push_time = now;
    has_last_push_time = true;
  }

  -- PushFrame, with the two readings of the clock.
  unfoldable pub push_frame : JitterBuffer R.Double → FrameData → ℕ → ℕ → JitterBuffer R.Double
  push_frame b f now now' =
      let b' = estimate (start_at b f) now in
      let full = insert_frame b' f now' in
      if ltb f.frame_id (start_at b f).next_pop_frame_id
      then start_at b f
      else if holds (FixedRing.get 32 b'.ring f.frame_id) f.frame_id
      then b'
      else shrink full full.count

  -- The branch `currentSyncTimeUs == 0`: not yet late enough, and the buffer is not full.
  unfoldable pub waits : JitterBuffer R.Double → EntryInfo → ℕ → Bool
  waits b info now =
      R.less (R.millis (now - info.push_time))
        (R.clamp (R.times b.avg_jitter_ms (R.decimal 11 1)) (R.decimal 10 1) (R.decimal 200 1))
      && ltb b.count b.max_frames

  unfoldable pub pop_frame : JitterBuffer R.Double → ℕ → ℕ → Popped × JitterBuffer R.Double
  pop_frame b sync_time now =
      let id = b.next_pop_frame_id in
      let info = FixedRing.get 32 b.info id in
      let entry = FixedRing.get 32 b.ring id in
      if info.occupied && info.frame_id == id
      then if ltb 0 sync_time
        then pop_synced b id entry sync_time
        else if waits b info now
        then (nothing, b)
        else take_entry b id entry
      else (nothing, b)
