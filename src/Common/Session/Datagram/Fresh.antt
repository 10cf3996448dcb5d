-- ===== src/Common/Session/Datagram/Fresh.antt =====
-- A datagram that the client opened before does nothing.
use remote_play.Client.Receiver.Untouched.{Keeps, process_packet-window}
use remote_play.Prelude.{
  ℕ, ◌+◌, ◌≡◌, refl, sym, ap, ◌∙◌, List, Bool, true, false, not, ◌&&◌, ◌||◌, Option, none, some,
  ltb, leb, ◌==◌, if◌then◌else◌, take, drop, Bool-cases, Option-cases, inl, inr,
}
use mathlib.Core.Path.{subst}
use remote_play.Common.Protocol.{
  PacketType, packet_code, read_video_header, video_header_widths, read_audio_header,
  audio_header_widths, time_sync_response_packet_widths,
}
use remote_play.Common.Protocol.Layout.{size_of}
use remote_play.Common.Protocol.Handshake.{read_secure_header, secure_header_size, SecureHeader}
use remote_play.Client.Receiver.State.{Receiver}
use remote_play.Client.Receiver.Counting.{Ensures}
use remote_play.Client.Receiver.Window.{Window, validate_sequence}
use remote_play.Client.Receiver.Window.Replay.{Seen, Refines, validate_sequence-twice}
use remote_play.Common.Session.Datagram.{
  Session, with_receiver, deliver, Turn, stop, again, spin, crash, stop_or_crash, receive,
  receive_decrypted, open_secure, decrypted_size, byte_at,
}

-- What a datagram's content leaves alone.
abbrev IsSame : Session → Session → Type 0
IsSame s s' =
    (s'.session_id ≡ s.session_id)
    × (s'.rx_key ≡ s.rx_key)
    × (s'.receiver.window ≡ s.receiver.window)

abbrev EnsuresSame : Session → Option Session → Type 0
EnsuresSame s none = Unit {0}
EnsuresSame s (some s') = IsSame s s'

with_receiver-same :
    (s : Session) (r : Option Receiver) (frame_id : ℕ)
    → Ensures (Keeps s.receiver.window) r
    → EnsuresSame s (with_receiver s r frame_id)
unfolding with_receiver
with_receiver-same s none frame_id e = tt
with_receiver-same s (some r) frame_id e = (refl, refl, e)

deliver-same :
    (s : Session) (decrypted : List ℕ) (stale : ℕ → ℕ) (encrypted_size now : ℕ)
    → EnsuresSame s (deliver s decrypted stale encrypted_size now)
unfolding deliver
deliver-same s decrypted stale encrypted_size now =
    let type = byte_at decrypted stale 0 in
    let vh = read_video_header decrypted in
    let ah = read_audio_header decrypted in
    elim (Bool-cases
      (type == packet_code PacketType.video && leb (size_of video_header_widths) encrypted_size)) [
        | inl video ↦
            rw video
              (with_receiver-same s _ vh.frame_id (process_packet-window s.receiver vh _ now))
        | inr not_video ↦
            rw not_video
              (elim (Bool-cases (
                type == packet_code PacketType.audio
                && leb (size_of audio_header_widths) encrypted_size)) [
                  | inl audio ↦
                      rw audio
                        (elim (Bool-cases
                          (ltb decrypted_size (size_of audio_header_widths + ah.data_size))) [
                            | inl beyond ↦ rw beyond tt
                            | inr within ↦ rw within (refl, refl, refl)
                          ])
                  | inr not_audio ↦
                      rw not_audio
                        (elim (Bool-cases (
                          type == packet_code PacketType.time_sync
                          && leb (size_of time_sync_response_packet_widths) encrypted_size)) [
                            | inl sync ↦ rw sync (refl, refl, refl)
                            | inr other ↦ rw other (refl, refl, refl)
                          ])
                ])
      ]

module _ (decrypt : List ℕ → List ℕ → ℕ → List ℕ → Option (List ℕ))
    (derive : List ℕ → Option (List ℕ × List ℕ)) (buf : List ℕ) (stale' : ℕ → ℕ) (now' : ℕ) where
  abbrev sh : SecureHeader
  sh = read_secure_header buf

  abbrev is_strange : ℕ → Bool
  is_strange session_id = not (sh.session_id == session_id) || session_id == 0

  abbrev opened : List ℕ → Option (List ℕ)
  opened key =
      decrypt (take sh.encrypted_size (drop secure_header_size buf)) sh.auth_tag sh.sequence_number
        key

  -- The datagram changes nothing any more.
  abbrev IsIdle : Session → Type 0
  IsIdle s = open_secure decrypt derive s buf stale' now' ≡ stop s

  abbrev Settles : Turn → Type 0
  Settles (stop s) = IsIdle s
  Settles (again buf' len') = Unit {0}
  Settles spin = Unit {0}
  Settles crash = Unit {0}

  strange-stop :
      (s : Session) (stale : ℕ → ℕ) (now : ℕ)
      → is_strange s.session_id ≡ true
      → open_secure decrypt derive s buf stale now ≡ stop s
  unfolding open_secure
  strange-stop s stale now strange = rw strange refl

  large-spin :
      (s : Session) (stale : ℕ → ℕ) (now : ℕ)
      → is_strange s.session_id ≡ false
      → ltb decrypted_size sh.encrypted_size ≡ true
      → open_secure decrypt derive s buf stale now ≡ spin
  unfolding open_secure
  large-spin s stale now ours large = rw (ours, large) refl

  bad-stop :
      (s : Session) (stale : ℕ → ℕ) (now : ℕ)
      → is_strange s.session_id ≡ false
      → ltb decrypted_size sh.encrypted_size ≡ false
      → opened s.rx_key ≡ none
      → open_secure decrypt derive s buf stale now ≡ stop s
  unfolding open_secure receive_decrypted
  bad-stop s stale now ours fits bad =
      rw (ours, fits) (ap (λ o. receive_decrypted s sh o stale now) bad)

  good-receive :
      (s : Session) (d : List ℕ) (stale : ℕ → ℕ) (now : ℕ)
      → is_strange s.session_id ≡ false
      → ltb decrypted_size sh.encrypted_size ≡ false
      → opened s.rx_key ≡ some d
      → open_secure decrypt derive s buf stale now
        ≡ receive s sh.sequence_number d stale sh.encrypted_size now
  unfolding open_secure receive_decrypted
  good-receive s d stale now ours fits good =
      rw (ours, fits) (ap (λ o. receive_decrypted s sh o stale now) good)

  refused-IsIdle :
      (s : Session) (d : List ℕ)
      → is_strange s.session_id ≡ false
      → ltb decrypted_size sh.encrypted_size ≡ false
      → opened s.rx_key ≡ some d
      → validate_sequence s.receiver.window sh.sequence_number ≡ (false, s.receiver.window)
      → IsIdle s
  unfolding receive
  refused-IsIdle s d ours fits good old =
      good-receive s d stale' now' ours fits good
      ∙ ap
          (λ (o : Bool × Window).
            let s' = record s { receiver = record s.receiver { window = o.1 } } in
            if o.0 then stop_or_crash (deliver s' d stale' sh.encrypted_size now') else stop s')
          old

  module _ (s : Session) (d : List ℕ) (a : Seen) (ours : is_strange s.session_id ≡ false)
      (fits : ltb decrypted_size sh.encrypted_size ≡ false) (good : opened s.rx_key ≡ some d)
      (r : Refines s.receiver.window a) where
    abbrev offered : Window
    offered = (validate_sequence s.receiver.window sh.sequence_number).1

    same-IsIdle :
        (s' : Session)
        → IsSame (record s { receiver = record s.receiver { window = offered } }) s'
        → IsIdle s'
    same-IsIdle s' (id, key, window) =
        refused-IsIdle s' d (ap is_strange id ∙ ours) fits (ap opened key ∙ good) (
          ap (λ w. validate_sequence w sh.sequence_number) window
          ∙ validate_sequence-twice s.receiver.window a sh.sequence_number r
          ∙ ap (λ w. (false, w)) (sym window))

    ensured-Settles :
        (o : Option Session)
        → EnsuresSame (record s { receiver = record s.receiver { window = offered } }) o
        → Settles (stop_or_crash o)
    unfolding stop_or_crash
    ensured-Settles none e = tt
    ensured-Settles (some s') e = same-IsIdle s' e

    receive-Settles :
        (stale : ℕ → ℕ) (now : ℕ)
        → Settles (receive s sh.sequence_number d stale sh.encrypted_size now)
    unfolding receive
    receive-Settles stale now =
        let s' = record s { receiver = record s.receiver { window = offered } } in
        elim (Bool-cases (validate_sequence s.receiver.window sh.sequence_number).0) [
          | inl fresh ↦ rw fresh (ensured-Settles _ (deliver-same s' d stale sh.encrypted_size now))
          | inr old ↦ rw old (same-IsIdle s' (refl, refl, refl))
        ]

  open_secure-Settles :
      (s : Session) (a : Seen) (stale : ℕ → ℕ) (now : ℕ)
      → Refines s.receiver.window a
      → Settles (open_secure decrypt derive s buf stale now)
  open_secure-Settles s a stale now r = elim (Bool-cases (is_strange s.session_id)) [
    | inl strange ↦
        subst (λ t. Settles t) (sym (strange-stop s stale now strange))
          (strange-stop s stale' now' strange)
    | inr ours ↦ elim (Bool-cases (ltb decrypted_size sh.encrypted_size)) [
      | inl large ↦ subst (λ t. Settles t) (sym (large-spin s stale now ours large)) tt
      | inr fits ↦ elim (Option-cases (opened s.rx_key)) [
        | inl bad ↦
            subst (λ t. Settles t) (sym (bad-stop s stale now ours fits bad))
              (bad-stop s stale' now' ours fits bad)
        | inr (d, good) ↦
            subst (λ t. Settles t) (sym (good-receive s d stale now ours fits good))
              (receive-Settles s d a ours fits good r stale now)
      ]
    ]
  ]

-- A secure datagram that the client has opened, at a session whose replay window stands for what
-- was taken, does nothing when it comes again: whether it was for another session, did not decrypt,
-- was refused or was delivered, the same bytes then leave the whole session as it is.
pub open_secure-twice :
    (decrypt : List ℕ → List ℕ → ℕ → List ℕ → Option (List ℕ))
    (derive : List ℕ → Option (List ℕ × List ℕ)) (s s' : Session) (a : Seen) (buf : List ℕ)
    (stale stale' : ℕ → ℕ) (now now' : ℕ)
    → Refines s.receiver.window a
    → open_secure decrypt derive s buf stale now ≡ stop s'
    → open_secure decrypt derive s' buf stale' now' ≡ stop s'
open_secure-twice decrypt derive s s' a buf stale stale' now now' r e =
    subst (λ t. Settles decrypt derive buf stale' now' t) e
      (open_secure-Settles decrypt derive buf stale' now' s a stale now r)
