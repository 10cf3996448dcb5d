-- ===== src/Client/Frame.antt =====
-- cpp/client/receiver.hpp and receiver.cpp: `FrameData`, a frame that is being put together. The
-- vectors are the maps from an index to the element, beside their sizes where the code asks for them.
use remote_play.Prelude.{ℕ, ◌*◌, Bool, false}

pub record FrameData : Type 0 where
  pub frame_id : ℕ
  pub buffer : ℕ → ℕ
  pub buffer_size : ℕ
  pub total_size : ℕ
  pub fragments_received : ℕ  -- uint16_t
  pub total_fragments : ℕ  -- uint16_t
  pub capture_timestamp : ℕ
  pub encode_start_timestamp : ℕ
  pub encode_end_timestamp : ℕ
  pub receive_timestamp : ℕ
  pub is_complete : Bool
  pub is_keyframe : Bool
  pub is_hevc : Bool
  pub fragment_map : ℕ → Bool
  pub map_size : ℕ
  pub fragment_sizes : ℕ → ℕ

-- What the constructor and the emergency allocation make.
unfoldable pub fresh : FrameData
fresh = record {
  frame_id = 0;
  buffer = λ k. 0;
  buffer_size = 1024 * 1024;
  total_size = 0;
  fragments_received = 0;
  total_fragments = 0;
  capture_timestamp = 0;
  encode_start_timestamp = 0;
  encode_end_timestamp = 0;
  receive_timestamp = 0;
  is_complete = false;
  is_keyframe = false;
  is_hevc = false;
  fragment_map = λ i. false;
  map_size = 1024;
  fragment_sizes = λ i. 0;
}

-- FrameData::Reset
unfoldable pub reset : FrameData → FrameData
reset f = record f {
  frame_id = 0;
  total_size = 0;
  fragments_received = 0;
  total_fragments = 0;
  capture_timestamp = 0;
  encode_start_timestamp = 0;
  encode_end_timestamp = 0;
  receive_timestamp = 0;
  is_complete = false;
  is_keyframe = false;
  is_hevc = false;
  fragment_map = λ i. false;
  fragment_sizes = λ i. 0;
}
