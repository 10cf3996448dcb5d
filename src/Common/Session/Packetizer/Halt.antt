-- ===== src/Common/Session/Packetizer/Halt.antt =====
-- What the packetizer thread sends.
use mathlib.Core.Path.{subst}
use remote_play.Prelude.{ℕ, zero, suc, ◌≡◌, refl, List, [], ◌∷◌, Option, none, some}
use remote_play.Common.Protocol.{VideoHeader}
use remote_play.Common.Session.Packetizer.{
  EncodedPacket, Sender, Fate, continues, breaks, crashes, cache_fragment, queue_fragment,
  finish_fragment, send_fragment, send_fragments, send_packets, fate_then, total_fragments,
  release_packet,
}

-- The send queue is as it was, or the thread has crashed.
abbrev pub IsSilent : List (ℕ × List ℕ) → Fate → Type 0
IsSilent queue (continues s) = ⊥
IsSilent queue (breaks s) = s.send_queue ≡ queue
IsSilent queue crashes = Unit {0}

finish_fragment-IsSilent :
    (s : Sender) (h : VideoHeader) (k k' : ℕ) (pool : List ℕ) (number : ℕ) (plain : List ℕ)
    (secured : Option (List ℕ × List ℕ))
    → IsSilent s.send_queue (finish_fragment s h k k' pool number plain secured)
unfolding finish_fragment cache_fragment queue_fragment
finish_fragment-IsSilent s h k k' pool number plain none = refl
finish_fragment-IsSilent s h k k' pool number plain (some secured) = tt

fate_then-IsSilent :
    (queue : List (ℕ × List ℕ)) (f : Fate) (go_on stop : Sender → Fate)
    → IsSilent queue f
    → ((s : Sender) → s.send_queue ≡ queue → IsSilent queue (stop s))
    → IsSilent queue (fate_then f go_on stop)
fate_then-IsSilent queue (continues s) go_on stop h kept = elim h [ ]
fate_then-IsSilent queue (breaks s) go_on stop h kept = kept s h
fate_then-IsSilent queue crashes go_on stop h kept = tt

module _ (encrypt : List ℕ → ℕ → List ℕ → Option (List ℕ × List ℕ)) where
  send_fragment-IsSilent :
      (s : Sender) (e : EncodedPacket) (i : ℕ) (pool : List ℕ)
      → IsSilent s.send_queue (send_fragment encrypt s e i pool)
  unfolding send_fragment
  send_fragment-IsSilent s e i [] = refl
  send_fragment-IsSilent s e i (k ∷ []) = refl
  send_fragment-IsSilent s e i (k ∷ k' ∷ pool) = finish_fragment-IsSilent _ _ k k' pool _ _ _

  send_fragments-IsSilent :
      (s : Sender) (e : EncodedPacket) (i rounds : ℕ)
      → IsSilent s.send_queue (send_fragments encrypt s e i rounds)
  unfolding send_fragments
  send_fragments-IsSilent s e i zero = refl
  send_fragments-IsSilent s e i (suc rounds) =
      fate_then-IsSilent s.send_queue (send_fragment encrypt s e i s.udp_pool) _ breaks
        (send_fragment-IsSilent s e i s.udp_pool) (λ s' h. h)

  -- Whatever was encoded, the packetizer puts nothing into the send queue: it ends with the queue as
  -- it was, or reads through the null pointer that the moved packet left.
  pub send_packets-IsSilent :
      (s : Sender) (es : List EncodedPacket) → IsSilent s.send_queue (send_packets encrypt s es)
  unfolding send_packets
  send_packets-IsSilent s [] = refl
  send_packets-IsSilent s (e ∷ es) =
      fate_then-IsSilent s.send_queue (send_fragments encrypt s e 0 (total_fragments e)) _
        (λ s'. send_packets encrypt (release_packet s' e) es)
        (send_fragments-IsSilent s e 0 (total_fragments e))
        (λ s' same.
          subst (λ q. IsSilent q (send_packets encrypt (release_packet s' e) es)) same
            (send_packets-IsSilent (release_packet s' e) es))
