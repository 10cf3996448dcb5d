-- ===== src/Common/Session/Packetizer/Sealed.antt =====
-- A sealed fragment at the client.
use remote_play.Prelude.{
  ℕ, ◌+◌, ◌*◌, ◌≤◌, ◌<◌, ◌^◌, ◌≡◌, ◌≢◌, refl, sym, ap, ◌∙◌, List, ◌++◌, Option, true, arith, length,
  drop, get_or, leb, lt→ltb, length-append, length-take, length-drop, get_or-append_right,
  get_or-take, get_or-drop, ==_refl, ==_of_ne,
}
use remote_play.Common.Crypto.{encrypt, decrypt}
use remote_play.Common.Protocol.{
  video_header_widths, video_header_fields, write_video_header, read_video_header, max_udp_payload,
}
use remote_play.Common.Protocol.Layout.{Fits}
use remote_play.Common.Protocol.Wire.{read-write_video_header}
use remote_play.Client.Receiver.Process.{process_packet}
use remote_play.Client.Receiver.Window.{Window, validate_sequence}
use remote_play.Common.Session.Datagram.{
  Session, byte_at, with_receiver, deliver, stop_or_crash, receive, receive_decrypted, open_secure,
}
use remote_play.Common.Session.Packetizer.Envelope.{
  read_secured, opened, decrypted, within, secured-size,
}
use remote_play.Common.Session.Packetizer.{
  EncodedPacket, fragment_header, slice_size, slice, plain_fragment, envelope, sealed,
}

module _ (e : EncodedPacket) (frame_id i packet_sequence : ℕ)
    (fits : Fits video_header_widths
      (video_header_fields (fragment_header e frame_id i packet_sequence))) where
  length-plain_fragment : length (plain_fragment e frame_id i packet_sequence) ≡ 40 + slice_size e i
  unfolding plain_fragment slice
  length-plain_fragment =
      let h = fragment_header e frame_id i packet_sequence in
      let p = slice e i in
      omega (
        arith,
        length-append (write_video_header h) p,
        (read-write_video_header h p fits).1,
        length-take (slice_size e i) (drop (i * max_udp_payload) e.bytes),
        length-drop (i * max_udp_payload) e.bytes,
      )

  -- The payload behind the header is the frame's, from the fragment's offset on.
  byte_at-plain_fragment :
      (stale : ℕ → ℕ) (k : ℕ)
      → k < slice_size e i
      → byte_at (plain_fragment e frame_id i packet_sequence) stale (40 + k)
        ≡ get_or e.bytes (i * max_udp_payload + k) 0
  unfolding plain_fragment slice
  byte_at-plain_fragment stale k hk =
      let h = fragment_header e frame_id i packet_sequence in
      let p = slice e i in
      rw
        (lt→ltb (40 + k) (length (plain_fragment e frame_id i packet_sequence))
          (omega (arith, length-plain_fragment)))
        (ap (λ n. get_or (write_video_header h ++ p) (n + k) 0)
            (sym (read-write_video_header h p fits).1)
          ∙ get_or-append_right (write_video_header h) p k 0
          ∙ get_or-take (slice_size e i) (drop (i * max_udp_payload) e.bytes) k 0 hk
          ∙ get_or-drop (i * max_udp_payload) e.bytes k 0)

  typed : (stale : ℕ → ℕ) → byte_at (plain_fragment e frame_id i packet_sequence) stale 0 ≡ 1
  unfolding plain_fragment write_video_header fragment_header
  typed stale =
      rw
        (lt→ltb 0 (length (plain_fragment e frame_id i packet_sequence))
          (omega (arith, length-plain_fragment)))
        refl

  read :
      read_video_header (plain_fragment e frame_id i packet_sequence)
      ≡ fragment_header e frame_id i packet_sequence
  unfolding plain_fragment
  read = (read-write_video_header (fragment_header e frame_id i packet_sequence) (slice e i) fits).0

  delivered :
      (s : Session) (stale : ℕ → ℕ) (size now : ℕ)
      → leb 40 size ≡ true
      → deliver s (plain_fragment e frame_id i packet_sequence) stale size now
        ≡ with_receiver s
            (process_packet s.receiver
              (fragment_header e frame_id i packet_sequence)
              (λ k. byte_at (plain_fragment e frame_id i packet_sequence) stale (40 + k))
              now)
            (fragment_header e frame_id i packet_sequence).frame_id
  unfolding deliver
  delivered s stale size now h = rw (typed stale) (rw h (rw read refl))

-- A sealed packet of the running session is opened: what was encrypted comes to the test of its number.
sealed-opens :
    (c : Session) (number : ℕ) (plain : List ℕ)
    → length plain ≤ 2048
    → (c.session_id < 2 ^ 64) × (number < 2 ^ 64)
    → (derive : List ℕ → Option (List ℕ × List ℕ)) (stale : ℕ → ℕ) (now : ℕ) → c.session_id ≢ 0
    → open_secure decrypt derive c
        (sealed c.session_id number (length plain) (encrypt plain number c.rx_key))
        stale
        now
      ≡ receive c number plain stale (length plain) now
unfolding open_secure receive_decrypted envelope
sealed-opens c number plain size fits derive stale now running =
    rw (read_secured c.session_id number c.rx_key plain size fits).0 (
      rw (==_refl c.session_id) (
        rw (==_of_ne c.session_id 0 running) (
          rw (within c.session_id number c.rx_key plain size fits) (
            rw (opened c.session_id number c.rx_key plain size fits) (
              rw (decrypted c.session_id number c.rx_key plain size fits)
                (rw (secured-size c.session_id number c.rx_key plain size fits) refl))))))

-- A fragment that the packetizer seals for a running session, under a number that the client's
-- window takes, is opened by the client: the receiver gets the fragment's header, and behind it the
-- bytes of the frame from the fragment's offset on. The cipher is the one of a build without libsodium.
pub open_secure-sealed :
    (derive : List ℕ → Option (List ℕ × List ℕ)) (c : Session) (e : EncodedPacket)
    (frame_id i packet_sequence number : ℕ) (stale : ℕ → ℕ) (now : ℕ) (w : Window) (k : ℕ)
    → Fits video_header_widths (video_header_fields (fragment_header e frame_id i packet_sequence))
    → c.session_id ≢ 0
    → c.session_id < 2 ^ 64
    → number < 2 ^ 64
    → validate_sequence c.receiver.window number ≡ (true, w)
    → k < slice_size e i
    → let plain = plain_fragment e frame_id i packet_sequence in
      let h = fragment_header e frame_id i packet_sequence in
      let c' = record c { receiver = record c.receiver { window = w } } in
      let payload : ℕ → ℕ = λ j. byte_at plain stale (40 + j) in
      (open_secure decrypt derive c
          (sealed c.session_id number (length plain) (encrypt plain number c.rx_key))
          stale
          now
        ≡ stop_or_crash (with_receiver c' (process_packet c'.receiver h payload now) h.frame_id))
      × (payload k ≡ get_or e.bytes (i * max_udp_payload + k) 0)
unfolding receive
open_secure-sealed derive c e frame_id i packet_sequence number stale now w k fits running hs hn
      taken hk =
    let plain = plain_fragment e frame_id i packet_sequence in
    let size = length-plain_fragment e frame_id i packet_sequence fits in
    let whole : leb 40 (length plain) ≡ true = ground (arith, size) in
    (
      sealed-opens c number plain (omega (arith, size)) (hs, hn) derive stale now running
          ∙ rw taken (
              ap stop_or_crash
                (delivered e frame_id i packet_sequence fits _ stale (length plain) now whole)),
      byte_at-plain_fragment e frame_id i packet_sequence fits stale k hk,
    )
