-- ===== src/Common/Session/HostHandler/Increasing.antt =====
-- The host handles the datagrams of a session in increasing order of their numbers.
use remote_play.Prelude.{
  ℕ, ◌+◌, ◌^◌, ◌≤◌, ◌<◌, ◌≡◌, refl, ap, ◌∙◌, List, [], ◌∷◌, Bool, true, false, ◌&&◌, arith, leb,
  ◌==◌, if◌then◌else◌, get_or, u64, Bool-cases, inl, inr,
}
use mathlib.Core.Path.{subst}
use remote_play.Common.Protocol.{
  PacketType, packet_code, input_header_widths, feedback_header_widths, time_sync_packet_widths,
  retransmit_request_packet_widths,
}
use remote_play.Common.Protocol.Layout.{size_of}
use remote_play.Common.Session.HostHandler.{Peer, Effect, dispatch, synchronize, receive}

-- A datagram that decrypts: its number, its content and its size.
abbrev pub Opened : Type 0
Opened = ℕ × List ℕ × ℕ

-- A number whose datagram made the host do something.
abbrev pub noted : List Effect → ℕ → List ℕ → List ℕ
noted [] number rest = rest
noted (e ∷ es) number rest = number ∷ rest

-- The numbers of the datagrams that had an effect, in the order in which they came.
unfoldable pub handled : Peer → List Opened → Bool → ℕ → List ℕ
handled p [] has_packet now = []
handled p ((number, decrypted, size) ∷ ds) has_packet now =
    let (p', effects) = receive p number decrypted size has_packet now in
    noted effects number (handled p' ds has_packet now)

abbrev pub IsIncreasing : ℕ → List ℕ → Type 0
IsIncreasing low [] = Unit {0}
IsIncreasing low (x ∷ xs) = (low ≤ x) × IsIncreasing (x + 1) xs

abbrev pub AllSmall : List Opened → Type 0
AllSmall [] = Unit {0}
AllSmall (d ∷ ds) = (d.0 + 1 < 2 ^ 64) × AllSmall ds

dispatch-last_seq :
    (p : Peer) (decrypted : List ℕ) (size : ℕ) (has_packet : Bool) (now : ℕ)
    → (dispatch p decrypted size has_packet now).0.last_seq ≡ p.last_seq
unfolding dispatch synchronize
dispatch-last_seq p decrypted size has_packet now =
    let type = get_or decrypted 0 0 in
    elim (Bool-cases
      (type == packet_code PacketType.input && leb (size_of input_header_widths) size)) [
        | inl input ↦ rw input refl
        | inr e ↦
            rw e
              (elim (Bool-cases (
                type == packet_code PacketType.feedback
                && leb (size_of feedback_header_widths) size)) [
                  | inl feedback ↦ rw feedback refl
                  | inr e' ↦
                      rw e'
                        (elim (Bool-cases (
                          type == packet_code PacketType.retransmit_request
                          && leb (size_of retransmit_request_packet_widths) size)) [
                            | inl again ↦ rw again refl
                            | inr e'' ↦
                                rw e''
                                  (elim (Bool-cases (
                                    type == packet_code PacketType.time_sync
                                    && leb (size_of time_sync_packet_widths) size)) [
                                      | inl sync ↦ rw sync refl
                                      | inr other ↦ rw other refl
                                    ])
                          ])
                ])
      ]

receive-last_seq :
    (p : Peer) (number : ℕ) (decrypted : List ℕ) (size : ℕ) (has_packet : Bool) (now : ℕ)
    → number + 1 < 2 ^ 64
    → (receive p number decrypted size has_packet now).0.last_seq
      ≡ (if leb p.last_seq number then number + 1 else p.last_seq)
unfolding receive
receive-last_seq p number decrypted size has_packet now small =
    let p' = record p { last_activity = now; last_seq = u64 (number + 1) } in
    let taken = dispatch p' decrypted size has_packet now in
    let wraps_not : u64 (number + 1) ≡ number + 1 = omega (arith, small) in
    elim (leb p.last_seq number)
      as (λ q.
        (if q then taken else (record p { last_activity = now }, [])).0.last_seq
        ≡ (if q then number + 1 else p.last_seq)) [
          | true ↦ dispatch-last_seq p' decrypted size has_packet now ∙ wraps_not
          | false ↦ refl
        ]

-- A datagram below the expected number only counts as activity.
receive-older :
    (p : Peer) (number : ℕ) (decrypted : List ℕ) (size : ℕ) (has_packet : Bool) (now : ℕ)
    → leb p.last_seq number ≡ false
    → receive p number decrypted size has_packet now ≡ (record p { last_activity = now }, [])
unfolding receive
receive-older p number decrypted size has_packet now older = rw older refl

IsIncreasing-lower :
    (low low' : ℕ) (xs : List ℕ) → low ≤ low' → IsIncreasing low' xs → IsIncreasing low xs
IsIncreasing-lower low low' [] le h = tt
IsIncreasing-lower low low' (x ∷ xs) le (at, rest) = (omega (arith, le, at), rest)

noted-IsIncreasing :
    (effects : List Effect) (low number : ℕ) (rest : List ℕ)
    → low ≤ number
    → IsIncreasing (number + 1) rest
    → IsIncreasing low (noted effects number rest)
noted-IsIncreasing [] low number rest le h =
    IsIncreasing-lower low (number + 1) rest (omega (arith, le)) h
noted-IsIncreasing (e ∷ es) low number rest le h = (le, h)

-- The datagrams of a client that make the host do anything have strictly increasing sequence numbers,
-- none of which is below the number that it expects, whatever arrives in whatever order, as long as
-- the numbers stay below 2⁶⁴ - 1: so none has an effect twice.
pub handled-IsIncreasing :
    (p : Peer) (ds : List Opened) (has_packet : Bool) (now : ℕ)
    → AllSmall ds
    → IsIncreasing p.last_seq (handled p ds has_packet now)
unfolding handled
handled-IsIncreasing p [] has_packet now small = tt
handled-IsIncreasing p ((number, decrypted, size) ∷ ds) has_packet now (small, rest) =
    let (p', effects) = receive p number decrypted size has_packet now in
    let next = receive-last_seq p number decrypted size has_packet now small in
    let after = handled-IsIncreasing p' ds has_packet now rest in
    elim (Bool-cases (leb p.last_seq number)) [
      | inl newer ↦
          let at : p'.last_seq ≡ number + 1 =
            next ∙ ap (λ q. if q then number + 1 else p.last_seq) newer in
          noted-IsIncreasing effects p.last_seq number (handled p' ds has_packet now)
            (ground (arith, newer))
            (subst (λ low. IsIncreasing low (handled p' ds has_packet now)) at after)
      | inr older ↦
          rw (receive-older p number decrypted size has_packet now older)
            (handled-IsIncreasing (record p { last_activity = now }) ds has_packet now rest)
    ]
