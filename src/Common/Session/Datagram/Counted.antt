-- ===== src/Common/Session/Datagram/Counted.antt =====
-- A round of the client's loop over a datagram keeps the count of fragments of every frame.
use remote_play.Prelude.{
  ℕ, ◌+◌, ◌<◌, List, not, ◌&&◌, ◌||◌, Option, none, some, arith, ltb, leb, ◌==◌, get_or, drop,
  Bool-cases, inl, inr,
}
use remote_play.Common.Protocol.{
  PacketType, packet_code, read_video_header, video_header_widths, read_audio_header,
  audio_header_widths, time_sync_response_packet_widths,
}
use remote_play.Common.Protocol.Layout.{size_of}
use remote_play.Common.Protocol.Handshake.{
  read_secure_header, secure_header_size, read_relay_header, SecureHeader,
  read_handshake_secure_response_packet,
}
use remote_play.Client.Receiver.State.{Receiver}
use remote_play.Client.Receiver.Counting.{AllCounted, Ensures, process_packet-AllCounted}
use remote_play.Client.Receiver.Window.{validate_sequence}
use remote_play.Common.Session.Datagram.{
  Session, with_receiver, deliver, Turn, stop, again, spin, crash, stop_or_crash, receive, unwrap,
  receive_decrypted, approve, open_secure, answer, turn, relay_header_size, handshake_response_size,
  decrypted_size, byte_at,
}

-- What a round promises to the next: a shorter datagram, or a session that satisfies `P`.
abbrev pub Promises : (Session → Type 0) → ℕ → Turn → Type 0
Promises P len (stop s) = P s
Promises P len (again buf' len') = len' < len
Promises P len spin = Unit {0}
Promises P len crash = Unit {0}

abbrev pub IsCountedSession : Session → Type 0
IsCountedSession s = AllCounted s.receiver

abbrev EnsuresSession : Option Session → Type 0
EnsuresSession none = Unit {0}
EnsuresSession (some s) = IsCountedSession s

with_receiver-counted :
    (s : Session) (r : Option Receiver) (frame_id : ℕ)
    → Ensures AllCounted r
    → EnsuresSession (with_receiver s r frame_id)
unfolding with_receiver
with_receiver-counted s none frame_id all = tt
with_receiver-counted s (some r) frame_id all = all

deliver-counted :
    (s : Session) (decrypted : List ℕ) (stale : ℕ → ℕ) (encrypted_size now : ℕ)
    → IsCountedSession s
    → EnsuresSession (deliver s decrypted stale encrypted_size now)
unfolding deliver
deliver-counted s decrypted stale encrypted_size now all =
    let type = byte_at decrypted stale 0 in
    let vh = read_video_header decrypted in
    let ah = read_audio_header decrypted in
    elim (Bool-cases
      (type == packet_code PacketType.video && leb (size_of video_header_widths) encrypted_size)) [
        | inl video ↦ rw video (
            with_receiver-counted s _ vh.frame_id
              (process_packet-AllCounted s.receiver vh _ now all))
        | inr not_video ↦
            rw not_video
              (elim (Bool-cases (
                type == packet_code PacketType.audio
                && leb (size_of audio_header_widths) encrypted_size)) [
                  | inl audio ↦
                      rw audio
                        (elim (Bool-cases
                          (ltb decrypted_size (size_of audio_header_widths + ah.data_size))) [
                            | inl beyond ↦ rw beyond tt
                            | inr within ↦ rw within all
                          ])
                  | inr not_audio ↦
                      rw not_audio
                        (elim (Bool-cases (
                          type == packet_code PacketType.time_sync
                          && leb (size_of time_sync_response_packet_widths) encrypted_size)) [
                            | inl sync ↦ rw sync all
                            | inr other ↦ rw other all
                          ])
                ])
      ]

stop_or_crash-counted :
    (o : Option Session) (len : ℕ)
    → EnsuresSession o
    → Promises IsCountedSession len (stop_or_crash o)
unfolding stop_or_crash
stop_or_crash-counted none len all = tt
stop_or_crash-counted (some s) len all = all

receive-counted :
    (s : Session) (sequence_number : ℕ) (decrypted : List ℕ) (stale : ℕ → ℕ)
    (encrypted_size now len : ℕ)
    → IsCountedSession s
    → Promises IsCountedSession len (receive s sequence_number decrypted stale encrypted_size now)
unfolding receive
receive-counted s sequence_number decrypted stale encrypted_size now len all =
    let (ok, w) = validate_sequence s.receiver.window sequence_number in
    elim (Bool-cases ok) [
      | inl fresh ↦ rw fresh (
          stop_or_crash-counted _ len (
            deliver-counted (record s { receiver = record s.receiver { window = w } }) decrypted
              stale encrypted_size now all))
      | inr old ↦ rw old all
    ]

unwrap-shorter :
    (s : Session) (buf : List ℕ) (len : ℕ)
    → IsCountedSession s
    → Promises IsCountedSession len (unwrap s buf len)
unfolding unwrap
unwrap-shorter s buf len all =
    let inner = drop relay_header_size buf in
    elim (Bool-cases (
      ltb relay_header_size len
      && (read_relay_header buf).session_id == s.session_id
      && get_or inner 0 0 == packet_code PacketType.secure)) [
        | inl relayed ↦ rw relayed (ground (arith, relayed))
        | inr other ↦ rw other all
      ]

approve-counted :
    (s : Session) (session_id : ℕ) (sender : ℕ × ℕ) (keys : Option (List ℕ × List ℕ))
    → IsCountedSession s
    → IsCountedSession (approve s session_id sender keys)
unfolding approve
approve-counted s session_id sender none all = all
approve-counted s session_id sender (some (rx, tx)) all = all

receive_decrypted-counted :
    (s : Session) (sh : SecureHeader) (decrypted : Option (List ℕ)) (stale : ℕ → ℕ) (now len : ℕ)
    → IsCountedSession s
    → Promises IsCountedSession len (receive_decrypted s sh decrypted stale now)
unfolding receive_decrypted
receive_decrypted-counted s sh none stale now len all = all
receive_decrypted-counted s sh (some d) stale now len all =
    receive-counted s sh.sequence_number d stale sh.encrypted_size now len all

module _ (decrypt : List ℕ → List ℕ → ℕ → List ℕ → Option (List ℕ))
    (derive : List ℕ → Option (List ℕ × List ℕ)) where
  open_secure-counted :
      (s : Session) (buf : List ℕ) (stale : ℕ → ℕ) (now len : ℕ)
      → IsCountedSession s
      → Promises IsCountedSession len (open_secure decrypt derive s buf stale now)
  unfolding open_secure
  open_secure-counted s buf stale now len all =
      let sh = read_secure_header buf in
      elim (Bool-cases (not (sh.session_id == s.session_id) || s.session_id == 0)) [
        | inl strange ↦ rw strange all
        | inr ours ↦ rw ours (elim (Bool-cases (ltb decrypted_size sh.encrypted_size)) [
          | inl large ↦ rw large tt
          | inr fits ↦ rw fits (receive_decrypted-counted s sh _ stale now len all)
        ])
      ]

  answer-counted :
      (s : Session) (buf : List ℕ) (sender : ℕ × ℕ)
      → IsCountedSession s
      → IsCountedSession (answer decrypt derive s buf sender)
  unfolding answer
  answer-counted s buf sender all =
      let hrp = read_handshake_secure_response_packet buf in
      elim (Bool-cases (hrp.approved == 0)) [
        | inl refused ↦ rw refused all
        | inr approved ↦
            rw approved (approve-counted s hrp.session_id sender (derive hrp.host_public_key) all)
      ]

  pub turn-counted :
      (s : Session) (buf : List ℕ) (len : ℕ) (stale : ℕ → ℕ) (sender : ℕ × ℕ) (now : ℕ)
      → IsCountedSession s
      → Promises IsCountedSession len (turn decrypt derive s buf len stale sender now)
  unfolding turn
  turn-counted s buf len stale sender now all =
      let type = get_or buf 0 0 in
      elim (Bool-cases (type == packet_code PacketType.relay_data && leb relay_header_size len)) [
        | inl relay ↦ rw relay (unwrap-shorter s buf len all)
        | inr e ↦
            rw e
              (elim (Bool-cases
                (type == packet_code PacketType.secure && leb secure_header_size len)) [
                  | inl secure ↦ rw secure (open_secure-counted s buf stale now len all)
                  | inr e' ↦
                      rw e'
                        (elim (Bool-cases (
                          type == packet_code PacketType.handshake_secure_response
                          && leb handshake_response_size len)) [
                            | inl response ↦ rw response (answer-counted s buf sender all)
                            | inr other ↦ rw other all
                          ])
                ])
      ]
