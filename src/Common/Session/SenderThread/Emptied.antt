-- ===== src/Common/Session/SenderThread/Emptied.antt =====
-- Every packet of the send queue is sent once, in order, and goes back to the pool.
use mathlib.Core.List.{Perm, append-nil, append_assoc, perm_middle}
use mathlib.Core.List.Perm
use remote_play.Prelude.{
  ℕ, zero, suc, ◌+◌, ◌≤◌, ◌<◌, ◌≡◌, ◌⊎◌, inl, inr, refl, sym, ap, ◌∙◌, List, [], ◌∷◌, ◌++◌, Option,
  none, some, arith, length, length-append, map,
}
use remote_play.Common.Session.SenderThread.{
  OutgoingPacket, Sending, fill_batch, release_all, send_batch, max_batch, send_round, send_rest,
  is_queue_empty,
}

fill_batch-append :
    (room : ℕ) (queue : List OutgoingPacket)
    → let (batch, rest) = fill_batch room queue in batch ++ rest ≡ queue
unfolding fill_batch
fill_batch-append zero queue = refl
fill_batch-append (suc room) [] = refl
fill_batch-append (suc room) (op ∷ queue) = ap (◌∷◌ op) (fill_batch-append room queue)

release_all-append :
    (pool : List ℕ) (xs ys : List OutgoingPacket)
    → release_all pool (xs ++ ys) ≡ release_all (release_all pool xs) ys
unfolding release_all
release_all-append pool [] ys = refl
release_all-append pool (x ∷ xs) ys = release_all-append (x.packet ∷ pool) xs ys

-- What is released is in the pool.
release_all-perm :
    (pool : List ℕ) (ops : List OutgoingPacket)
    → Perm (release_all pool ops) (map (λ (op : OutgoingPacket). op.packet) ops ++ pool)
unfolding release_all
release_all-perm pool [] = Perm.refl pool
release_all-perm pool (op ∷ ops) =
    Perm.trans (release_all-perm (op.packet ∷ pool) ops)
      (perm_middle (map (λ (op : OutgoingPacket). op.packet) ops) pool)

-- The batches one behind the other.
pub packets_of : List (List OutgoingPacket) → List OutgoingPacket
packets_of [] = []
packets_of (b ∷ bs) = b ++ packets_of bs

packets_of-append :
    (bs : List (List OutgoingPacket)) (b : List OutgoingPacket)
    → packets_of (bs ++ b ∷ []) ≡ packets_of bs ++ b
unfolding packets_of
packets_of-append [] b = append-nil b
packets_of-append (c ∷ bs) b =
    ap (λ x. c ++ x) (packets_of-append bs b) ∙ sym (append_assoc c (packets_of bs) b)

-- What is sent or waits, and the pool once what waits is sent.
pub all_packets : Sending → List OutgoingPacket
all_packets s = packets_of s.sent ++ s.send_queue

pub final_pool : Sending → List ℕ
final_pool s = release_all s.udp_pool s.send_queue

send_batch-kept :
    (s : Sending) (batch rest : List OutgoingPacket)
    → batch ++ rest ≡ s.send_queue
    → (all_packets (send_batch s batch rest) ≡ all_packets s)
      × (final_pool (send_batch s batch rest) ≡ final_pool s)
unfolding send_batch all_packets final_pool
send_batch-kept s [] rest e = (ap (λ q. packets_of s.sent ++ q) e, ap (release_all s.udp_pool) e)
send_batch-kept s (op ∷ ops) rest e = (
  ap (λ x. x ++ rest) (packets_of-append s.sent (op ∷ ops))
      ∙ append_assoc (packets_of s.sent) (op ∷ ops) rest
      ∙ ap (λ q. packets_of s.sent ++ q) e,
  sym (release_all-append s.udp_pool (op ∷ ops) rest) ∙ ap (release_all s.udp_pool) e,
)

send_round-kept :
    (s : Sending)
    → (all_packets (send_round s) ≡ all_packets s) × (final_pool (send_round s) ≡ final_pool s)
unfolding send_round
send_round-kept s =
    send_batch-kept s (fill_batch max_batch s.send_queue).0 (fill_batch max_batch s.send_queue).1
      (fill_batch-append max_batch s.send_queue)

send_batch-queue :
    (s : Sending) (batch rest : List OutgoingPacket) → (send_batch s batch rest).send_queue ≡ rest
unfolding send_batch
send_batch-queue s [] rest = refl
send_batch-queue s (op ∷ ops) rest = refl

fill_batch-shorter :
    (room : ℕ) (op : OutgoingPacket) (ops : List OutgoingPacket)
    → length (fill_batch (suc room) (op ∷ ops)).1 ≤ length ops
unfolding fill_batch
fill_batch-shorter room op ops =
    let (batch, rest) = fill_batch room ops in
    omega (arith, length-append batch rest, ap length (fill_batch-append room ops))

send_round-shorter :
    (s : Sending) (op : OutgoingPacket) (ops : List OutgoingPacket)
    → s.send_queue ≡ op ∷ ops
    → length (send_round s).send_queue ≤ length ops
unfolding send_round
send_round-shorter s op ops e =
    let taken : List OutgoingPacket → List OutgoingPacket × List OutgoingPacket =
      fill_batch max_batch in
    omega (
      arith,
      ap length (send_batch-queue s (taken s.send_queue).0 (taken s.send_queue).1),
      ap (λ q. length (taken q).1) e,
      fill_batch-shorter 63 op ops,
    )

-- All has been sent, and the pool has what it had and the packets that waited.
abbrev pub IsEmptied : Sending → Option Sending → Type 0
IsEmptied s none = ⊥
IsEmptied s (some s') =
    (s'.send_queue ≡ [])
    × (packets_of s'.sent ≡ packets_of s.sent ++ s.send_queue)
    × Perm s'.udp_pool (map (λ (op : OutgoingPacket). op.packet) s.send_queue ++ s.udp_pool)

-- The same, with the order in which the packets go back.
abbrev IsReleased : Sending → Option Sending → Type 0
IsReleased s none = ⊥
IsReleased s (some s') =
    (s'.send_queue ≡ [])
    × (packets_of s'.sent ≡ packets_of s.sent ++ s.send_queue)
    × (s'.udp_pool ≡ release_all s.udp_pool s.send_queue)

IsReleased-IsEmptied : (s : Sending) (o : Option Sending) → IsReleased s o → IsEmptied s o
IsReleased-IsEmptied s none d = d
IsReleased-IsEmptied s (some s') (none_left, sent, free) =
    (none_left, sent, rw free (release_all-perm s.udp_pool s.send_queue))

IsReleased-earlier :
    (s s1 : Sending) (o : Option Sending)
    → all_packets s1 ≡ all_packets s
    → final_pool s1 ≡ final_pool s
    → IsReleased s1 o
    → IsReleased s o
unfolding all_packets final_pool
IsReleased-earlier s s1 none packets pool d = d
IsReleased-earlier s s1 (some s') packets pool (none_left, sent, free) =
    (none_left, sent ∙ packets, free ∙ pool)

queue-cases :
    (q : List OutgoingPacket)
    → (q ≡ []) ⊎ ((op : OutgoingPacket) × (ops : List OutgoingPacket) × (q ≡ op ∷ ops))
queue-cases [] = inl refl
queue-cases (op ∷ ops) = inr (op, ops, refl)

send_rest-within :
    (fuel : ℕ) (s : Sending) → length s.send_queue < fuel → IsReleased s (send_rest fuel s)
unfolding send_rest release_all
send_rest-within zero s h = absurd (omega (arith, h))
send_rest-within (suc fuel) s h = elim (queue-cases s.send_queue) [
  | inl e ↦ rw (ap is_queue_empty e) (
    e,
    sym (append-nil (packets_of s.sent)) ∙ sym (ap (λ q. packets_of s.sent ++ q) e),
    sym (ap (release_all s.udp_pool) e),
  )
  | inr (op, ops, e) ↦
      let kept = send_round-kept s in
      rw (ap is_queue_empty e) (
        IsReleased-earlier s (send_round s) (send_rest fuel (send_round s)) kept.0 kept.1 (
          send_rest-within fuel (send_round s)
            (omega (arith, send_round-shorter s op ops e, ap length e, h))))
]

-- Once the host stops and nothing more is queued, the sender thread ends within one round more than
-- packets wait. Then the queue is empty, every packet that waited was sent once, in order and behind
-- those sent before, and the pool holds what it held before and each of them once more, in some order.
pub send_rest-empties : (s : Sending) → IsEmptied s (send_rest (length s.send_queue + 1) s)
send_rest-empties s =
    IsReleased-IsEmptied s _ (send_rest-within (length s.send_queue + 1) s (omega arith))
