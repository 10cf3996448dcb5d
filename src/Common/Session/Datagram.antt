-- ===== src/Common/Session/Datagram.antt =====
-- SessionManager::runClient, the network thread: what a datagram does to the client. Decryption and
-- the derivation of keys are parameters, as a build with libsodium calls it for them.
pub mod Counted
pub mod Ending
pub mod Fresh
mod Tests
use remote_play.Prelude.{
  ℕ, zero, suc, ◌+◌, ◌-◌, ◌*◌, List, [], ◌∷◌, ◌++◌, Bool, true, false, not, ◌&&◌, ◌||◌, Option,
  none, some, ltb, leb, ◌==◌, if◌then◌else◌, get_or, take, drop, length, max,
}
use remote_play.Common.ClockSync.{ClockSync, process_response}
use remote_play.Common.Protocol.{
  PacketType, packet_code, read_video_header, video_header_widths, read_audio_header,
  audio_header_widths, read_time_sync_response_packet, time_sync_response_packet_widths,
}
use remote_play.Common.Protocol.Layout.{size_of}
use remote_play.Common.Protocol.Handshake.{
  read_secure_header, secure_header_size, read_relay_header, SecureHeader,
  read_handshake_secure_response_packet,
}
use remote_play.Client.Receiver.State.{Receiver}
use remote_play.Client.Receiver.Process.{process_packet}
use remote_play.Client.Receiver.Window.{validate_sequence}

-- sizeof(RelayHeader), sizeof(HandshakeSecureResponsePacket), sizeof(CandidatePacket) and the size
-- of the buffer `decrypted`
abbrev pub relay_header_size : ℕ
relay_header_size = 27

abbrev pub handshake_response_size : ℕ
handshake_response_size = 42

abbrev pub decrypted_size : ℕ
decrypted_size = 2048

-- The variables of runClient that the thread writes; `audio` are the payloads given to the decoder.
pub record Session : Type 0 where
  pub session_id : ℕ
  pub rx_key : List ℕ
  pub tx_key : List ℕ
  pub receiver : Receiver
  pub clock_sync : ClockSync
  pub last_frame_id : ℕ
  pub handshake_approved : Bool
  pub handshake_rejected : Bool
  pub current_host : ℕ × ℕ
  pub audio : List (ℕ × (ℕ → ℕ))

-- `stale` is what stands in the buffer where nothing was decrypted to.
abbrev pub byte_at : List ℕ → (ℕ → ℕ) → ℕ → ℕ
byte_at bytes stale k = if ltb k (length bytes) then get_or bytes k 0 else stale k

unfoldable pub with_receiver : Session → Option Receiver → ℕ → Option Session
with_receiver s none frame_id = none
with_receiver s (some r) frame_id =
    some (record s { receiver = r; last_frame_id = max s.last_frame_id frame_id })

-- The branches on `innerType`. `none` is a read outside of memory that belongs to the program: the
-- receiver's, or the decoder's of audio beyond the buffer.
unfoldable pub deliver : Session → List ℕ → (ℕ → ℕ) → ℕ → ℕ → Option Session
deliver s decrypted stale encrypted_size now =
    let inner_type = byte_at decrypted stale 0 in
    let vh = read_video_header decrypted in
    let ah = read_audio_header decrypted in
    let tsrp = read_time_sync_response_packet decrypted in
    if inner_type == packet_code PacketType.video
      && leb (size_of video_header_widths) encrypted_size
    then with_receiver s
        (process_packet s.receiver vh
          (λ k. byte_at decrypted stale (size_of video_header_widths + k)) now)
        vh.frame_id
    else if inner_type == packet_code PacketType.audio
        && leb (size_of audio_header_widths) encrypted_size
    then if ltb decrypted_size (size_of audio_header_widths + ah.data_size)
      then none
      else some (record s {
        audio =
            (ah.data_size, λ k. byte_at decrypted stale (size_of audio_header_widths + k))
            ∷ s.audio;
      })
    else if inner_type == packet_code PacketType.time_sync
        && leb (size_of time_sync_response_packet_widths) encrypted_size
    then some (record s {
      clock_sync =
          process_response s.clock_sync tsrp.client_send_timestamp tsrp.host_receive_timestamp
            tsrp.host_send_timestamp now;
    })
    else some s

-- What one round of the loop does: it stops, goes round again with the rest of the datagram, or
-- again with the same, or the program reads where it may not.
pub data Turn : Type 0 where
  stop : Session → Turn
  again : List ℕ → ℕ → Turn
  spin : Turn
  crash : Turn

unfoldable pub stop_or_crash : Option Session → Turn
stop_or_crash none = crash
stop_or_crash (some s) = stop s

-- The test of the sequence number and what follows it.
unfoldable pub receive : Session → ℕ → List ℕ → (ℕ → ℕ) → ℕ → ℕ → Turn
receive s sequence_number decrypted stale encrypted_size now =
    let (ok, w) = validate_sequence s.receiver.window sequence_number in
    let s' = record s { receiver = record s.receiver { window = w } } in
    if ok then stop_or_crash (deliver s' decrypted stale encrypted_size now) else stop s'

-- The branch of relayed data; `memmove` leaves the bytes behind the moved ones.
unfoldable pub unwrap : Session → List ℕ → ℕ → Turn
unwrap s buf len =
    let inner = drop relay_header_size buf in
    let inner_len = len - relay_header_size in
    if ltb relay_header_size len
      && (read_relay_header buf).session_id == s.session_id
      && get_or inner 0 0 == packet_code PacketType.secure
    then again (take inner_len inner ++ drop inner_len buf) inner_len
    else stop s

-- What the loop does with a datagram; `unfinished` is for rounds that are too few.
pub data Outcome : Type 0 where
  finished : Session → Outcome
  crashed : Outcome
  spinning : Outcome
  unfinished : Outcome

unfoldable pub receive_decrypted : Session → SecureHeader → Option (List ℕ) → (ℕ → ℕ) → ℕ → Turn
receive_decrypted s sh none stale now = stop s
receive_decrypted s sh (some decrypted) stale now =
    receive s sh.sequence_number decrypted stale sh.encrypted_size now

-- The handshake's end under `hrp->approved`.
unfoldable pub approve : Session → ℕ → ℕ × ℕ → Option (List ℕ × List ℕ) → Session
approve s session_id sender none = s
approve s session_id sender (some (rx, tx)) = record s {
  rx_key = rx;
  tx_key = tx;
  session_id = session_id;
  current_host = sender;
  handshake_approved = true;
}

unfoldable pub follow : (List ℕ → ℕ → Outcome) → Turn → Outcome
follow rest (stop s) = finished s
follow rest (again buf len) = rest buf len
follow rest spin = spinning
follow rest crash = crashed

module _ (decrypt : List ℕ → List ℕ → ℕ → List ℕ → Option (List ℕ))
    (derive : List ℕ → Option (List ℕ × List ℕ)) where
  -- The branch of secure datagrams. `continue` goes on with `while (len > 0)` and the same `len`.
  unfoldable pub open_secure : Session → List ℕ → (ℕ → ℕ) → ℕ → Turn
  open_secure s buf stale now =
      let sh = read_secure_header buf in
      if not (sh.session_id == s.session_id) || s.session_id == 0
      then stop s
      else if ltb decrypted_size sh.encrypted_size
      then spin
      else receive_decrypted s sh
          (decrypt (take sh.encrypted_size (drop secure_header_size buf)) sh.auth_tag
            sh.sequence_number s.rx_key)
          stale now

  unfoldable pub answer : Session → List ℕ → ℕ × ℕ → Session
  answer s buf sender =
      let hrp = read_handshake_secure_response_packet buf in
      if hrp.approved == 0
      then record s { handshake_rejected = true }
      else approve s hrp.session_id sender (derive hrp.host_public_key)

  -- One round of `while (len > 0)`. A candidate is only logged.
  unfoldable pub turn : Session → List ℕ → ℕ → (ℕ → ℕ) → ℕ × ℕ → ℕ → Turn
  turn s buf len stale sender now =
      let type = get_or buf 0 0 in
      if type == packet_code PacketType.relay_data && leb relay_header_size len
      then unwrap s buf len
      else if type == packet_code PacketType.secure && leb secure_header_size len
      then open_secure s buf stale now
      else if type == packet_code PacketType.handshake_secure_response
          && leb handshake_response_size len
      then stop (answer s buf sender)
      else stop s

  unfoldable pub run : ℕ → Session → List ℕ → ℕ → (ℕ → ℕ) → ℕ × ℕ → ℕ → Outcome
  run zero s buf len stale sender now = unfinished
  run (suc fuel) s buf len stale sender now =
      let rest : List ℕ → ℕ → Outcome = λ buf' len'. run fuel s buf' len' stale sender now in
      if len == 0 then finished s else follow rest (turn s buf len stale sender now)
