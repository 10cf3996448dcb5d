-- ===== src/Client/Receiver/Fragment.antt =====
-- cpp/client/receiver.cpp: what Receiver::ProcessPacket and Receiver::TryRecover do to one frame.
pub mod Count
pub mod Recovery
pub mod Rebuild
use remote_play.Prelude.{
  ℕ, zero, suc, ◌+◌, ◌-◌, ◌*◌, ◌/◌, ◌%◌, min, Bool, true, false, not, ◌&&◌, ◌||◌, ltb, leb, ◌==◌,
  if◌then◌else◌, u16,
}
use remote_play.Bits.{test_bit}
use remote_play.Bits.Xor.{xor}
use remote_play.Client.Frame.{FrameData, reset}
use remote_play.Common.Protocol.{VideoHeader, FecHeader, max_udp_payload}

-- memcpy(buffer + offset, bytes, size)
abbrev pub copy : (ℕ → ℕ) → ℕ → (ℕ → ℕ) → ℕ → ℕ → ℕ
copy buffer offset bytes size k =
    if leb offset k && ltb k (offset + size) then bytes (k - offset) else buffer k

abbrev pub put {ℓ} : {A : Type ℓ} → (ℕ → A) → ℕ → A → ℕ → A
put f i v j = if j == i then v else f j

-- The new frame of a header: Reset, then the header's fields. The vectors grow where they are too
-- small for the header's fragments.
unfoldable pub open_frame : VideoHeader → ℕ → FrameData → FrameData
unfolding reset
open_frame h now f = record (reset f) {
  frame_id = h.frame_id;
  total_fragments = h.total_fragments;
  capture_timestamp = h.capture_timestamp;
  encode_start_timestamp = h.encode_start_timestamp;
  encode_end_timestamp = h.encode_end_timestamp;
  is_keyframe = test_bit 0 h.flags;
  is_hevc = test_bit 1 h.flags;
  receive_timestamp = now;
  map_size = if ltb f.map_size h.total_fragments then h.total_fragments else f.map_size;
}

-- The fragment is new and its index is one of the frame's.
unfoldable pub wants : VideoHeader → FrameData → Bool
wants h f = ltb h.fragment_index f.total_fragments && not (f.fragment_map h.fragment_index)

-- The copy of a wanted fragment. The test for the last fragment is in `int`, so it fails where the
-- header has no fragments.
unfoldable pub store_fragment : VideoHeader → (ℕ → ℕ) → FrameData → FrameData
store_fragment h payload f =
    let offset = h.fragment_index * max_udp_payload in
    if leb (offset + h.data_size) f.buffer_size
    then record f {
      buffer = copy f.buffer offset payload h.data_size;
      fragment_map = put f.fragment_map h.fragment_index true;
      fragment_sizes = put f.fragment_sizes h.fragment_index h.data_size;
      fragments_received = u16 (f.fragments_received + 1);
      total_size =
          if h.fragment_index + 1 == h.total_fragments then offset + h.data_size else f.total_size;
    }
    else f

-- The first loop of TryRecover: how many fragments of the group are missing, and the last of them.
unfoldable pub find_missing : FrameData → ℕ → ℕ → ℕ → ℕ → ℕ → ℕ × ℕ
find_missing f start i zero count index = (count, index)
find_missing f start i (suc rounds) count index =
    let idx = u16 (start + i) in
    let rest =
      find_missing f start (i + 1) rounds (if f.fragment_map idx then count else u16 (count + 1))
        (if f.fragment_map idx then index else idx) in
    if leb f.total_fragments idx || leb f.map_size idx then (count, index) else rest

-- recovered[k] ^= other[k] for `k` of the next `rounds` values
unfoldable pub xor_bytes : (ℕ → ℕ) → ℕ → ℕ → ℕ → ℕ → ℕ → ℕ
xor_bytes buffer target other k zero = buffer
xor_bytes buffer target other k (suc rounds) =
    xor_bytes (put buffer (target + k) (xor 8 (buffer (target + k)) (buffer (other + k)))) target
      other (k + 1) rounds

-- The second loop of TryRecover, over the other fragments of the group.
unfoldable pub xor_others : FrameData → FecHeader → ℕ → ℕ → ℕ → ℕ → (ℕ → ℕ) → ℕ → ℕ
xor_others f h start missing i zero buffer = buffer
xor_others f h start missing i (suc rounds) buffer =
    let idx = u16 (start + i) in
    xor_others f h start missing (i + 1) rounds (
      if idx == missing || leb f.total_fragments idx
      then buffer
      else xor_bytes buffer (missing * max_udp_payload) (idx * max_udp_payload) 0
          (min h.data_size (f.fragment_sizes idx)))

-- fragmentsReceived == totalFragments, and the mark
unfoldable pub mark_complete : FrameData → FrameData
mark_complete f =
    if f.fragments_received == f.total_fragments then record f { is_complete = true } else f

-- The body of TryRecover under `missingCount == 1`.
unfoldable pub rebuild : FrameData → FecHeader → (ℕ → ℕ) → ℕ → ℕ → FrameData
rebuild f h parity start missing =
    let offset = missing * max_udp_payload in
    if ltb f.buffer_size (offset + h.data_size)
    then f
    else mark_complete (record f {
      buffer =
          xor_others f h start missing 0 h.fragment_count (copy f.buffer offset parity h.data_size);
      fragment_map = put f.fragment_map missing true;
      fragment_sizes = put f.fragment_sizes missing h.data_size;
      fragments_received = u16 (f.fragments_received + 1);
      total_size = if missing + 1 == f.total_fragments then offset + h.data_size else f.total_size;
    })

-- TryRecover on a frame that is not complete and a group that fits it.
unfoldable pub recover : FrameData → FecHeader → (ℕ → ℕ) → ℕ → FrameData
recover f h parity start =
    let (count, missing) = find_missing f start 0 h.fragment_count 0 0 in
    if count == 1 then rebuild f h parity start missing else f
