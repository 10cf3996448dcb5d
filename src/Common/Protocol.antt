-- ===== src/Common/Protocol.antt =====
-- cpp/common/protocol.hpp: the packet types and the packed structs that go over the wire. Of each
-- struct `<name>_widths` are the sizes of its fields, `write_<name>` the bytes that a `memcpy` of it
-- sends, and `read_<name>` what a cast of received bytes to it reads. A `float` is its bit pattern.
pub mod Layout
pub mod Input
pub mod Handshake
pub mod Wire
use remote_play.Prelude.{
  ℕ, List, [], ◌∷◌, ◌≡◌, refl, Option, none, some, get_or, ◌==◌, if◌then◌else◌,
}
use Layout.{encode, decode}

pub data PacketType : Type 0 where
  video input discovery handshake fec feedback handshake_response handshake_secure
        handshake_secure_response secure audio time_sync candidate_discovery relay_data
        retransmit_request :
      PacketType

abbrev pub packet_code : PacketType → ℕ
packet_code video = 0x01
packet_code input = 0x02
packet_code discovery = 0x03
packet_code handshake = 0x04
packet_code fec = 0x05
packet_code feedback = 0x06
packet_code handshake_response = 0x07
packet_code handshake_secure = 0x08
packet_code handshake_secure_response = 0x09
packet_code secure = 0x0a
packet_code audio = 0x0b
packet_code time_sync = 0x0c
packet_code candidate_discovery = 0x0d
packet_code relay_data = 0x0e
packet_code retransmit_request = 0x0f

-- MAX_UDP_PAYLOAD
abbrev pub max_udp_payload : ℕ
max_udp_payload = 1300

pub record VideoHeader : Type 0 where
  pub type : ℕ
  pub frame_id : ℕ
  pub fragment_index : ℕ
  pub total_fragments : ℕ
  pub packet_sequence : ℕ
  pub capture_timestamp : ℕ
  pub encode_start_timestamp : ℕ
  pub encode_end_timestamp : ℕ
  pub flags : ℕ
  pub data_size : ℕ

abbrev pub video_header_widths : List ℕ
video_header_widths = 1 ∷ 4 ∷ 2 ∷ 2 ∷ 4 ∷ 8 ∷ 8 ∷ 8 ∷ 1 ∷ 2 ∷ []

abbrev pub video_header_fields : VideoHeader → List ℕ
video_header_fields h =
    h.type ∷ h.frame_id ∷ h.fragment_index ∷ h.total_fragments ∷ h.packet_sequence
    ∷ h.capture_timestamp ∷ h.encode_start_timestamp ∷ h.encode_end_timestamp ∷ h.flags
    ∷ h.data_size ∷ []

abbrev pub video_header_of : List ℕ → VideoHeader
video_header_of fs = record {
  type = get_or fs 0 0;
  frame_id = get_or fs 1 0;
  fragment_index = get_or fs 2 0;
  total_fragments = get_or fs 3 0;
  packet_sequence = get_or fs 4 0;
  capture_timestamp = get_or fs 5 0;
  encode_start_timestamp = get_or fs 6 0;
  encode_end_timestamp = get_or fs 7 0;
  flags = get_or fs 8 0;
  data_size = get_or fs 9 0;
}

unfoldable pub write_video_header : VideoHeader → List ℕ
write_video_header h = encode video_header_widths (video_header_fields h)

unfoldable pub read_video_header : List ℕ → VideoHeader
read_video_header bytes = video_header_of (decode video_header_widths bytes)

pub record AudioHeader : Type 0 where
  pub type : ℕ
  pub frame_id : ℕ
  pub timestamp : ℕ
  pub data_size : ℕ

abbrev pub audio_header_widths : List ℕ
audio_header_widths = 1 ∷ 4 ∷ 8 ∷ 2 ∷ []

abbrev pub audio_header_fields : AudioHeader → List ℕ
audio_header_fields h = h.type ∷ h.frame_id ∷ h.timestamp ∷ h.data_size ∷ []

abbrev pub audio_header_of : List ℕ → AudioHeader
audio_header_of fs = record {
  type = get_or fs 0 0;
  frame_id = get_or fs 1 0;
  timestamp = get_or fs 2 0;
  data_size = get_or fs 3 0;
}

unfoldable pub write_audio_header : AudioHeader → List ℕ
write_audio_header h = encode audio_header_widths (audio_header_fields h)

unfoldable pub read_audio_header : List ℕ → AudioHeader
read_audio_header bytes = audio_header_of (decode audio_header_widths bytes)

pub record FecHeader : Type 0 where
  pub type : ℕ
  pub frame_id : ℕ
  pub fragment_start : ℕ
  pub fragment_count : ℕ
  pub packet_sequence : ℕ
  pub data_size : ℕ

abbrev pub fec_header_widths : List ℕ
fec_header_widths = 1 ∷ 4 ∷ 2 ∷ 2 ∷ 4 ∷ 2 ∷ []

abbrev pub fec_header_fields : FecHeader → List ℕ
fec_header_fields h =
    h.type ∷ h.frame_id ∷ h.fragment_start ∷ h.fragment_count ∷ h.packet_sequence ∷ h.data_size ∷ []

abbrev pub fec_header_of : List ℕ → FecHeader
fec_header_of fs = record {
  type = get_or fs 0 0;
  frame_id = get_or fs 1 0;
  fragment_start = get_or fs 2 0;
  fragment_count = get_or fs 3 0;
  packet_sequence = get_or fs 4 0;
  data_size = get_or fs 5 0;
}

unfoldable pub write_fec_header : FecHeader → List ℕ
write_fec_header h = encode fec_header_widths (fec_header_fields h)

unfoldable pub read_fec_header : List ℕ → FecHeader
read_fec_header bytes = fec_header_of (decode fec_header_widths bytes)

pub record FeedbackHeader : Type 0 where
  pub type : ℕ
  pub last_received_frame_id : ℕ
  pub loss_rate : ℕ
  pub rtt_ms : ℕ
  pub avg_decode_time_ms : ℕ
  pub request_keyframe : ℕ
  pub target_bitrate_kbps : ℕ
  pub resolution_scale : ℕ

abbrev pub feedback_header_widths : List ℕ
feedback_header_widths = 1 ∷ 4 ∷ 4 ∷ 4 ∷ 4 ∷ 1 ∷ 2 ∷ 4 ∷ []

abbrev pub feedback_header_fields : FeedbackHeader → List ℕ
feedback_header_fields h =
    h.type ∷ h.last_received_frame_id ∷ h.loss_rate ∷ h.rtt_ms ∷ h.avg_decode_time_ms
    ∷ h.request_keyframe ∷ h.target_bitrate_kbps ∷ h.resolution_scale ∷ []

abbrev pub feedback_header_of : List ℕ → FeedbackHeader
feedback_header_of fs = record {
  type = get_or fs 0 0;
  last_received_frame_id = get_or fs 1 0;
  loss_rate = get_or fs 2 0;
  rtt_ms = get_or fs 3 0;
  avg_decode_time_ms = get_or fs 4 0;
  request_keyframe = get_or fs 5 0;
  target_bitrate_kbps = get_or fs 6 0;
  resolution_scale = get_or fs 7 0;
}

unfoldable pub write_feedback_header : FeedbackHeader → List ℕ
write_feedback_header h = encode feedback_header_widths (feedback_header_fields h)

unfoldable pub read_feedback_header : List ℕ → FeedbackHeader
read_feedback_header bytes = feedback_header_of (decode feedback_header_widths bytes)

pub record InputHeader : Type 0 where
  pub type : ℕ
  pub input_type : ℕ
  pub timestamp : ℕ

abbrev pub input_header_widths : List ℕ
input_header_widths = 1 ∷ 1 ∷ 8 ∷ []

abbrev pub input_header_fields : InputHeader → List ℕ
input_header_fields h = h.type ∷ h.input_type ∷ h.timestamp ∷ []

abbrev pub input_header_of : List ℕ → InputHeader
input_header_of fs = record {
  type = get_or fs 0 0;
  input_type = get_or fs 1 0;
  timestamp = get_or fs 2 0;
}

unfoldable pub write_input_header : InputHeader → List ℕ
write_input_header h = encode input_header_widths (input_header_fields h)

unfoldable pub read_input_header : List ℕ → InputHeader
read_input_header bytes = input_header_of (decode input_header_widths bytes)

pub record TimeSyncPacket : Type 0 where
  pub type : ℕ
  pub client_send_timestamp : ℕ

abbrev pub time_sync_packet_widths : List ℕ
time_sync_packet_widths = 1 ∷ 8 ∷ []

abbrev pub time_sync_packet_fields : TimeSyncPacket → List ℕ
time_sync_packet_fields h = h.type ∷ h.client_send_timestamp ∷ []

abbrev pub time_sync_packet_of : List ℕ → TimeSyncPacket
time_sync_packet_of fs = record { type = get_or fs 0 0; client_send_timestamp = get_or fs 1 0 }

unfoldable pub write_time_sync_packet : TimeSyncPacket → List ℕ
write_time_sync_packet h = encode time_sync_packet_widths (time_sync_packet_fields h)

unfoldable pub read_time_sync_packet : List ℕ → TimeSyncPacket
read_time_sync_packet bytes = time_sync_packet_of (decode time_sync_packet_widths bytes)

pub record TimeSyncResponsePacket : Type 0 where
  pub type : ℕ
  pub client_send_timestamp : ℕ
  pub host_receive_timestamp : ℕ
  pub host_send_timestamp : ℕ

abbrev pub time_sync_response_packet_widths : List ℕ
time_sync_response_packet_widths = 1 ∷ 8 ∷ 8 ∷ 8 ∷ []

abbrev pub time_sync_response_packet_fields : TimeSyncResponsePacket → List ℕ
time_sync_response_packet_fields h =
    h.type ∷ h.client_send_timestamp ∷ h.host_receive_timestamp ∷ h.host_send_timestamp ∷ []

abbrev pub time_sync_response_packet_of : List ℕ → TimeSyncResponsePacket
time_sync_response_packet_of fs = record {
  type = get_or fs 0 0;
  client_send_timestamp = get_or fs 1 0;
  host_receive_timestamp = get_or fs 2 0;
  host_send_timestamp = get_or fs 3 0;
}

unfoldable pub write_time_sync_response_packet : TimeSyncResponsePacket → List ℕ
write_time_sync_response_packet h =
    encode time_sync_response_packet_widths (time_sync_response_packet_fields h)

unfoldable pub read_time_sync_response_packet : List ℕ → TimeSyncResponsePacket
read_time_sync_response_packet bytes =
    time_sync_response_packet_of (decode time_sync_response_packet_widths bytes)

pub record RetransmitRequestPacket : Type 0 where
  pub type : ℕ
  pub frame_id : ℕ
  pub fragment_index : ℕ

abbrev pub retransmit_request_packet_widths : List ℕ
retransmit_request_packet_widths = 1 ∷ 4 ∷ 2 ∷ []

abbrev pub retransmit_request_packet_fields : RetransmitRequestPacket → List ℕ
retransmit_request_packet_fields h = h.type ∷ h.frame_id ∷ h.fragment_index ∷ []

abbrev pub retransmit_request_packet_of : List ℕ → RetransmitRequestPacket
retransmit_request_packet_of fs = record {
  type = get_or fs 0 0;
  frame_id = get_or fs 1 0;
  fragment_index = get_or fs 2 0;
}

unfoldable pub write_retransmit_request_packet : RetransmitRequestPacket → List ℕ
write_retransmit_request_packet h =
    encode retransmit_request_packet_widths (retransmit_request_packet_fields h)

unfoldable pub read_retransmit_request_packet : List ℕ → RetransmitRequestPacket
read_retransmit_request_packet bytes =
    retransmit_request_packet_of (decode retransmit_request_packet_widths bytes)
