-- ===== src/Common/Session/HostHandler.antt =====
-- SessionManager::runHost, the receiver thread: a secure datagram of a client that was found by its
-- address and session. The datagram's decryption is a parameter, and so is whether the packet pool
-- has a packet for a retransmission.
pub mod Founded
pub mod Increasing
mod Tests
use remote_play.Prelude.{
  ℕ, ◌+◌, ◌-◌, ◌*◌, ◌^◌, List, [], ◌∷◌, ◌++◌, Bool, true, false, not, ◌&&◌, Option, none, some, ltb,
  leb, ◌==◌, if◌then◌else◌, get_or, take, drop, u32, u64,
}
use remote_play.Bits.Xor.{xor}
use remote_play.Common.FixedRing
use remote_play.Common.Protocol.{
  PacketType, packet_code, input_header_widths, FeedbackHeader, feedback_header_widths,
  read_feedback_header, read_input_header, TimeSyncResponsePacket, time_sync_packet_widths,
  read_time_sync_packet, RetransmitRequestPacket, retransmit_request_packet_widths,
  read_retransmit_request_packet,
}
use remote_play.Common.Protocol.Layout.{size_of}
use remote_play.Common.Protocol.Input.{
  InputType, input_code, keyboard_event_widths, mouse_move_event_widths, mouse_button_event_widths,
  mouse_scroll_event_widths, gamepad_state_widths, gamepad_status_event_widths,
}
use remote_play.Common.Protocol.Handshake.{read_secure_header, secure_header_size, SecureHeader}

pub record CachedPacket : Type 0 where
  pub bytes : List ℕ
  pub frame_id : ℕ
  pub fragment_index : ℕ
  pub occupied : Bool

-- The client's state, with its entry of lastSeqs.
pub record Peer : Type 0 where
  pub rx_key : List ℕ
  pub last_activity : ℕ
  pub last_seq : ℕ
  pub send_sequence_number : ℕ
  pub packet_cache : ℕ → CachedPacket  -- 512 slots

-- What the handler makes other parts do.
pub data Effect : Type 0 where
  inject : InputType → List ℕ → Effect
  adapt : FeedbackHeader → Effect
  request_keyframe : Effect
  resend : List ℕ → Effect
  answer : ℕ → TimeSyncResponsePacket → Effect

-- sizeof the event
abbrev pub event_size : InputType → ℕ
event_size InputType.keyboard = size_of keyboard_event_widths
event_size InputType.mouse_move = size_of mouse_move_event_widths
event_size InputType.mouse_button = size_of mouse_button_event_widths
event_size InputType.mouse_scroll = size_of mouse_scroll_event_widths
event_size InputType.gamepad = size_of gamepad_state_widths
event_size InputType.gamepad_status = size_of gamepad_status_event_widths

-- The tests of `ih->inputType`, in the order of the source.
abbrev pub input_order : List InputType
input_order =
    InputType.keyboard ∷ InputType.mouse_move ∷ InputType.mouse_button ∷ InputType.mouse_scroll
    ∷ InputType.gamepad_status ∷ InputType.gamepad ∷ []

unfoldable pub inject_first : List InputType → ℕ → List ℕ → ℕ → List Effect
inject_first [] input_type payload payload_len = []
inject_first (t ∷ ts) input_type payload payload_len =
    let rest = inject_first ts input_type payload payload_len in
    if input_type == input_code t && leb (event_size t) payload_len
    then inject t payload ∷ []
    else rest

unfoldable pub cache_index : ℕ → ℕ → ℕ
cache_index frame_id fragment_index = xor 32 (u32 (frame_id * 2 ^ 6)) fragment_index

unfoldable pub retransmit : Peer → RetransmitRequestPacket → Bool → List Effect
retransmit p r has_packet =
    let cached = FixedRing.get 512 p.packet_cache (cache_index r.frame_id r.fragment_index) in
    if cached.occupied
      && (cached.frame_id == r.frame_id && cached.fragment_index == r.fragment_index)
      && has_packet
    then resend cached.bytes ∷ []
    else []

unfoldable pub synchronize : Peer → List ℕ → ℕ → Peer × List Effect
synchronize p decrypted now = (
  record p { send_sequence_number = u64 (p.send_sequence_number + 1) },
  answer p.send_sequence_number (record {
    type = packet_code PacketType.time_sync;
    client_send_timestamp = (read_time_sync_packet decrypted).client_send_timestamp;
    host_receive_timestamp = now;
    host_send_timestamp = now;
  })
      ∷ [],
)

-- The branches on `innerType`.
unfoldable pub dispatch : Peer → List ℕ → ℕ → Bool → ℕ → Peer × List Effect
dispatch p decrypted encrypted_size has_packet now =
    let inner_type = get_or decrypted 0 0 in
    let fh = read_feedback_header decrypted in
    if inner_type == packet_code PacketType.input
      && leb (size_of input_header_widths) encrypted_size
    then (
      p,
      inject_first input_order (read_input_header decrypted).input_type
          (drop (size_of input_header_widths) decrypted)
          (encrypted_size - size_of input_header_widths),
    )
    else if inner_type == packet_code PacketType.feedback
        && leb (size_of feedback_header_widths) encrypted_size
    then (p, adapt fh ∷ (if fh.request_keyframe == 0 then [] else request_keyframe ∷ []))
    else if inner_type == packet_code PacketType.retransmit_request
        && leb (size_of retransmit_request_packet_widths) encrypted_size
    then (p, retransmit p (read_retransmit_request_packet decrypted) has_packet)
    else if inner_type == packet_code PacketType.time_sync
        && leb (size_of time_sync_packet_widths) encrypted_size
    then synchronize p decrypted now
    else (p, [])

-- A datagram that decrypts: activity, and the test of its number.
unfoldable pub receive : Peer → ℕ → List ℕ → ℕ → Bool → ℕ → Peer × List Effect
receive p sequence_number decrypted encrypted_size has_packet now =
    let p' = record p { last_activity = now } in
    if leb p.last_seq sequence_number
    then dispatch (record p' { last_seq = u64 (sequence_number + 1) }) decrypted encrypted_size
        has_packet now
    else (p', [])

-- `spin`: `continue` in a loop that leaves `len` as it is.
pub data Turn : Type 0 where
  stop : Peer × List Effect → Turn
  spin : Turn

unfoldable pub receive_decrypted : Peer → SecureHeader → Option (List ℕ) → Bool → ℕ → Turn
receive_decrypted p sh none has_packet now = stop (p, [])
receive_decrypted p sh (some decrypted) has_packet now =
    stop (receive p sh.sequence_number decrypted sh.encrypted_size has_packet now)

module _ (decrypt : List ℕ → List ℕ → ℕ → List ℕ → Option (List ℕ)) where
  unfoldable pub open_secure : Peer → List ℕ → Bool → ℕ → Turn
  open_secure p buf has_packet now =
      let sh = read_secure_header buf in
      if ltb 2048 sh.encrypted_size
      then spin
      else receive_decrypted p sh
          (decrypt (take sh.encrypted_size (drop secure_header_size buf)) sh.auth_tag
            sh.sequence_number p.rx_key)
          has_packet now
