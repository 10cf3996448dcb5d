-- ===== src/Common/Session/HostHandler/Founded.antt =====
-- What the host does on a datagram is founded in its bytes and the client's state.
use remote_play.Prelude.{
  ℕ, ◌+◌, ◌-◌, ◌≤◌, ◌≡◌, refl, List, [], ◌∷◌, Bool, true, false, ◌&&◌, arith, leb, ◌==◌, get_or,
  drop, Bool-cases, inl, inr,
}
use remote_play.Common.FixedRing
use remote_play.Common.Protocol.{
  PacketType, packet_code, input_header_widths, feedback_header_widths, read_feedback_header,
  read_input_header, time_sync_packet_widths, read_time_sync_packet,
  retransmit_request_packet_widths, read_retransmit_request_packet,
}
use remote_play.Common.Protocol.Layout.{size_of}
use remote_play.Common.Protocol.Input.{InputType, input_code}
use remote_play.Common.Session.HostHandler.{
  Peer, Effect, inject, adapt, request_keyframe, resend, answer, event_size, input_order,
  inject_first, cache_index, retransmit, synchronize, dispatch,
}

-- Each effect has a datagram of its type that is as long as the structure that is read. An event lies
-- within the decrypted bytes behind the input's header, a feedback is the one that the datagram has, a
-- packet that is sent again is the cached one of the frame and fragment asked for, and a time is
-- answered with the client's own and under the next number.
abbrev pub IsFounded : Peer → List ℕ → ℕ → Effect → Type 0
IsFounded p decrypted size (inject t payload) =
    (get_or decrypted 0 0 ≡ packet_code PacketType.input)
    × (size_of input_header_widths + event_size t ≤ size)
    × (payload ≡ drop (size_of input_header_widths) decrypted)
    × ((read_input_header decrypted).input_type ≡ input_code t)
IsFounded p decrypted size (adapt fh) =
    (get_or decrypted 0 0 ≡ packet_code PacketType.feedback)
    × (size_of feedback_header_widths ≤ size)
    × (fh ≡ read_feedback_header decrypted)
IsFounded p decrypted size request_keyframe =
    (get_or decrypted 0 0 ≡ packet_code PacketType.feedback)
    × (size_of feedback_header_widths ≤ size)
    × (((read_feedback_header decrypted).request_keyframe == 0) ≡ false)
IsFounded p decrypted size (resend bytes) =
    let r = read_retransmit_request_packet decrypted in
    let cached = FixedRing.get 512 p.packet_cache (cache_index r.frame_id r.fragment_index) in
    (get_or decrypted 0 0 ≡ packet_code PacketType.retransmit_request)
    × (size_of retransmit_request_packet_widths ≤ size)
    × (cached.occupied ≡ true)
    × (cached.frame_id ≡ r.frame_id)
    × (cached.fragment_index ≡ r.fragment_index)
    × (bytes ≡ cached.bytes)
IsFounded p decrypted size (answer number packet) =
    (get_or decrypted 0 0 ≡ packet_code PacketType.time_sync)
    × (size_of time_sync_packet_widths ≤ size)
    × (number ≡ p.send_sequence_number)
    × (packet.client_send_timestamp ≡ (read_time_sync_packet decrypted).client_send_timestamp)

abbrev pub AllFounded : Peer → List ℕ → ℕ → List Effect → Type 0
AllFounded p decrypted size [] = Unit {0}
AllFounded p decrypted size (e ∷ es) = IsFounded p decrypted size e × AllFounded p decrypted size es

inject_first-AllFounded :
    (p : Peer) (decrypted : List ℕ) (size : ℕ) (ts : List InputType)
    → get_or decrypted 0 0 ≡ packet_code PacketType.input
    → size_of input_header_widths ≤ size
    → AllFounded p decrypted size (
        inject_first ts
          (read_input_header decrypted).input_type
          (drop (size_of input_header_widths) decrypted)
          (size - size_of input_header_widths))
unfolding inject_first
inject_first-AllFounded p decrypted size [] typed le = tt
inject_first-AllFounded p decrypted size (t ∷ ts) typed le =
    let type = (read_input_header decrypted).input_type in
    let len = size - size_of input_header_widths in
    elim (Bool-cases (type == input_code t && leb (event_size t) len)) [
      | inl this ↦ rw this ((typed, ground (arith, this, le), refl, ground (arith, this)), tt)
      | inr other ↦ rw other (inject_first-AllFounded p decrypted size ts typed le)
    ]

retransmit-AllFounded :
    (p : Peer) (decrypted : List ℕ) (size : ℕ) (has_packet : Bool)
    → get_or decrypted 0 0 ≡ packet_code PacketType.retransmit_request
    → size_of retransmit_request_packet_widths ≤ size
    → AllFounded p decrypted size
        (retransmit p (read_retransmit_request_packet decrypted) has_packet)
unfolding retransmit
retransmit-AllFounded p decrypted size has_packet typed le =
    let r = read_retransmit_request_packet decrypted in
    let cached = FixedRing.get 512 p.packet_cache (cache_index r.frame_id r.fragment_index) in
    elim (Bool-cases (
      cached.occupied
      && (cached.frame_id == r.frame_id && cached.fragment_index == r.fragment_index)
      && has_packet)) [
        | inl there ↦ rw there (
          (typed, le, ground (arith, there), ground (arith, there), ground (arith, there), refl),
          tt,
        )
        | inr missing ↦ rw missing tt
      ]

-- Everything that a datagram makes the host do is founded: for any decrypted bytes, each effect of
-- the dispatch comes from a datagram of the effect's type that is long enough for the structure that
-- is read, and has the structure's own contents: the event behind the input's header, the feedback,
-- the cached packet that the request names, or the client's own time.
pub dispatch-AllFounded :
    (p : Peer) (decrypted : List ℕ) (size : ℕ) (has_packet : Bool) (now : ℕ)
    → AllFounded p decrypted size (dispatch p decrypted size has_packet now).1
unfolding dispatch synchronize
dispatch-AllFounded p decrypted size has_packet now =
    let type = get_or decrypted 0 0 in
    let fh = read_feedback_header decrypted in
    elim (Bool-cases
      (type == packet_code PacketType.input && leb (size_of input_header_widths) size)) [
        | inl input ↦ rw input (
            inject_first-AllFounded p decrypted size input_order (ground (arith, input))
              (ground (arith, input)))
        | inr e ↦
            rw e
              (elim (Bool-cases (
                type == packet_code PacketType.feedback
                && leb (size_of feedback_header_widths) size)) [
                  | inl feedback ↦ rw feedback (
                    (ground (arith, feedback), ground (arith, feedback), refl),
                    elim (Bool-cases (fh.request_keyframe == 0)) [
                      | inl quiet ↦ rw quiet tt
                      | inr asked ↦
                          rw asked ((ground (arith, feedback), ground (arith, feedback), asked), tt)
                    ],
                  )
                  | inr e' ↦
                      rw e'
                        (elim (Bool-cases (
                          type == packet_code PacketType.retransmit_request
                          && leb (size_of retransmit_request_packet_widths) size)) [
                            | inl again ↦ rw again (
                                retransmit-AllFounded p decrypted size has_packet
                                  (ground (arith, again)) (ground (arith, again)))
                            | inr e'' ↦
                                rw e''
                                  (elim (Bool-cases (
                                    type == packet_code PacketType.time_sync
                                    && leb (size_of time_sync_packet_widths) size)) [
                                      | inl sync ↦ rw sync (
                                        (ground (arith, sync), ground (arith, sync), refl, refl),
                                        tt,
                                      )
                                      | inr other ↦ rw other tt
                                    ])
                          ])
                ])
      ]
