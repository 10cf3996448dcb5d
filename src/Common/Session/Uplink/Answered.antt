-- ===== src/Common/Session/Uplink/Answered.antt =====
-- A request for a fragment at the host.
use mathlib.Core.List.{append-nil}
use remote_play.Prelude.{
  ℕ, ◌+◌, ◌^◌, ◌≤◌, ◌<◌, ◌≡◌, refl, sym, ap, ◌∙◌, List, [], ◌∷◌, ◌++◌, Bool, true, ◌&&◌, Option,
  some, arith, length, leb, ◌==◌, if◌then◌else◌, u64,
}
use remote_play.Common.FixedRing
use remote_play.Common.Crypto.{encrypt, decrypt}
use remote_play.Common.Protocol.{
  write_retransmit_request_packet, read_retransmit_request_packet, retransmit_request_packet_widths,
  retransmit_request_packet_fields, retransmit_request_packet_of,
}
use remote_play.Common.Protocol.Layout.{decode-encode, length-encode}
use remote_play.Common.Session.Packetizer.{envelope, sealed}
use remote_play.Common.Session.Packetizer.Envelope.{
  read_secured, opened, decrypted, within, secured-size,
}
use remote_play.Common.Session.HostHandler.{
  Peer, Effect, resend, cache_index, retransmit, dispatch, receive, stop, receive_decrypted,
  open_secure,
}
use remote_play.Common.Session.Uplink.{
  Uplink, request_of, send_sealed, send_secure, request_fragment,
}

abbrev pub stand_in : List ℕ → ℕ → List ℕ → Option (List ℕ × List ℕ)
stand_in plaintext nonce key = some (encrypt plaintext nonce key)

abbrev pub request : ℕ → ℕ → List ℕ
request frame_id fragment_index =
    write_retransmit_request_packet (request_of (frame_id, fragment_index))

module _ (frame_id fragment_index : ℕ)
    (fits : (frame_id < 2 ^ 32) × (fragment_index < 2 ^ 16)) where
  length-request : length (request frame_id fragment_index) ≡ 7
  unfolding write_retransmit_request_packet
  length-request =
      length-encode retransmit_request_packet_widths
        (retransmit_request_packet_fields (request_of (frame_id, fragment_index)))
        (omega (arith, fits.0, fits.1))

  read-request :
      read_retransmit_request_packet (request frame_id fragment_index)
      ≡ request_of (frame_id, fragment_index)
  unfolding read_retransmit_request_packet write_retransmit_request_packet
  read-request =
      ap read_retransmit_request_packet (sym (append-nil (request frame_id fragment_index)))
      ∙ ap retransmit_request_packet_of (
          decode-encode retransmit_request_packet_widths
            (retransmit_request_packet_fields (request_of (frame_id, fragment_index))) []
            (omega (arith, fits.0, fits.1)))

  dispatch-request :
      (p : Peer) (now : ℕ)
      → dispatch p (request frame_id fragment_index) 7 true now
        ≡ (p, retransmit p (request_of (frame_id, fragment_index)) true)
  unfolding dispatch write_retransmit_request_packet
  dispatch-request p now = ap (λ q. (p, retransmit p q true)) read-request

  retransmit-looked_up :
      (p : Peer)
      → let cached = FixedRing.get 512 p.packet_cache (cache_index frame_id fragment_index) in
        retransmit p (request_of (frame_id, fragment_index)) true ≡ (
          if cached.occupied
            && (cached.frame_id == frame_id && cached.fragment_index == fragment_index)
          then resend cached.bytes ∷ []
          else [])
  unfolding retransmit
  retransmit-looked_up p = ground arith

-- The host's end of a datagram under the shared key: what was encrypted is received.
open_secure-sealed_plain :
    (p : Peer) (session_id number : ℕ) (key plain : List ℕ) (has_packet : Bool) (now : ℕ)
    → p.rx_key ≡ key
    → length plain ≤ 2048
    → (session_id < 2 ^ 64) × (number < 2 ^ 64)
    → open_secure decrypt p
        (sealed session_id number (length plain) (encrypt plain number key))
        has_packet
        now
      ≡ stop (receive p number plain (length plain) has_packet now)
unfolding open_secure receive_decrypted envelope
open_secure-sealed_plain p session_id number key plain has_packet now same size fits =
    rw (read_secured session_id number key plain size fits).0 (
      rw (within session_id number key plain size fits) (
        rw (opened session_id number key plain size fits) (
          rw same (
            rw (decrypted session_id number key plain size fits)
              (rw (secured-size session_id number key plain size fits) refl)))))

-- What the host sends again for a fragment.
abbrev looked_up : Peer → ℕ → ℕ → List Effect
looked_up p frame_id fragment_index =
    let cached = FixedRing.get 512 p.packet_cache (cache_index frame_id fragment_index) in
    if cached.occupied && (cached.frame_id == frame_id && cached.fragment_index == fragment_index)
    then resend cached.bytes ∷ []
    else []

-- A request for a fragment that the client sends is one datagram. A host with the matching key, which
-- has seen no number as high and has a packet, looks that very fragment up in its cache: where the
-- entry is occupied and has the fragment's two numbers, the host sends the entry's bytes again, and
-- else it sends nothing. It expects the next number. The cipher is the one of a build without
-- libsodium.
pub request_fragment-looked_up :
    (u : Uplink) (p : Peer) (frame_id fragment_index now : ℕ)
    → p.rx_key ≡ u.tx_key
    → u.session_id < 2 ^ 64
    → u.send_sequence_number + 1 < 2 ^ 64
    → p.last_seq ≤ u.send_sequence_number
    → frame_id < 2 ^ 32
    → fragment_index < 2 ^ 16
    → let plain = request frame_id fragment_index in
      let number = u.send_sequence_number in
      let datagram = sealed u.session_id number (length plain) (encrypt plain number u.tx_key) in
      let cached = FixedRing.get 512 p.packet_cache (cache_index frame_id fragment_index) in
      ((request_fragment stand_in u (frame_id, fragment_index)).sent ≡ u.sent ++ datagram ∷ [])
      × (open_secure decrypt p datagram true now
          ≡ stop (
            record p { last_activity = now; last_seq = number + 1 },
            if cached.occupied
                  && (cached.frame_id == frame_id && cached.fragment_index == fragment_index)
                then resend cached.bytes ∷ []
                else [],
          ))
unfolding request_fragment send_secure send_sealed receive
request_fragment-looked_up u p frame_id fragment_index now same hs hn newer hf hi =
    let plain = request frame_id fragment_index in
    let number = u.send_sequence_number in
    let size = length-request frame_id fragment_index (hf, hi) in
    let p' = record p { last_activity = now; last_seq = u64 (number + 1) } in
    let taken : leb p.last_seq number ≡ true = ground (arith, newer) in
    let counted : u64 (number + 1) ≡ number + 1 = omega (arith, hn) in
    (
      refl,
      open_secure-sealed_plain p u.session_id number u.tx_key plain true now same
            (omega (arith, size)) (hs, omega (arith, hn))
          ∙ rw taken (
              ap (λ n. stop (dispatch p' plain n true now)) size
              ∙ ap stop (dispatch-request frame_id fragment_index (hf, hi) p' now)
              ∙ ap (λ fx. stop (p', fx)) (retransmit-looked_up frame_id fragment_index (hf, hi) p')
              ∙ ap
                  (λ n. stop (
                    record p { last_activity = now; last_seq = n },
                    looked_up p frame_id fragment_index,
                  ))
                  counted),
    )
