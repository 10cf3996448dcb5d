-- ===== src/Client/Receiver/Owners/Calls.antt =====
-- cpp/client/receiver.cpp: each frame has one owner, whatever packets come.
use remote_play.Prelude.{
  ℕ, ◌≡◌, refl, ap, List, not, ◌&&◌, ◌||◌, Option, none, some, arith, ltb, Bool-cases, Option-cases,
  inl, inr,
}
use remote_play.Bits.{test_bit}
use remote_play.Common.PacketPool
use remote_play.Common.Protocol.{VideoHeader, FecHeader, max_udp_payload}
use remote_play.Client.Receiver.State.{Receiver, fec_slot}
use remote_play.Client.Receiver.Process.{
  find_frame, begin, process_packet, process_fec, set_group, released, is_group,
}
use remote_play.Client.Receiver.Counting.{Ensures}
use remote_play.Client.Receiver.Untouched.{IsSame, try_recover-IsSame, add_fragment-IsSame}
use remote_play.Client.Receiver.Owners.{places, IsOwned}
use remote_play.Client.Receiver.Owners.Balance.{one_if, IsBalanced, find_frame-IsBalanced}

IsOwned-balanced :
    (held : List ℕ) (r r' : Receiver) → IsOwned held r → IsBalanced r r' → IsOwned held r'
IsOwned-balanced held r r' own b x = omega (arith, own x, b x)

IsSame-places : (r r' : Receiver) (x : ℕ) → IsSame r r' → places r' x ≡ places r x
unfolding places
IsSame-places r r' x s = rw (s.frame_pool, s.frame_ring) refl

pub IsSame-IsOwned :
    (held : List ℕ) (r : Receiver) (o : Option Receiver)
    → IsOwned held r
    → Ensures (IsSame r) o
    → Ensures (IsOwned held) o
IsSame-IsOwned held r none own s = tt
IsSame-IsOwned held r (some r') own s =
    λ x. omega (arith, own x, IsSame-places r r' x s, ap (λ n. one_if (ltb x n)) s.frame_storage)

begin-IsSame : (r : Receiver) (h : VideoHeader) → IsSame r (begin r h)
begin-IsSame r h = ground arith

pub process_packet-IsOwned :
    (held : List ℕ) (r : Receiver) (h : VideoHeader) (payload : ℕ → ℕ) (now : ℕ)
    → IsOwned held r
    → Ensures (IsOwned held) (process_packet r h payload now)
unfolding process_packet
process_packet-IsOwned held r h payload now own =
    let r' = begin r h in
    let own' = IsSame-IsOwned held r (some r') own (begin-IsSame r h) in
    elim (Bool-cases (not r.first_frame_received && not (test_bit 0 h.flags))) [
      | inl early ↦ rw early own
      | inr begun ↦ rw begun (elim (Bool-cases (ltb h.frame_id r'.next_frame_id_to_read)) [
        | inl late ↦ rw late own'
        | inr due ↦
            rw due
              (elim (Bool-cases (ltb 1024 h.total_fragments || ltb max_udp_payload h.data_size)) [
                | inl large ↦ rw large own'
                | inr fits ↦ rw fits (
                    let (p, found) = find_frame r' h now in
                    IsSame-IsOwned held found _
                      (IsOwned-balanced held r' found own'
                        (find_frame-IsBalanced held r' h now own'))
                      (add_fragment-IsSame found p h payload))
              ])
      ])
    ]

pub process_fec-IsOwned :
    (held : List ℕ) (r : Receiver) (h : FecHeader) (payload : ℕ → ℕ)
    → IsOwned held r
    → Ensures (IsOwned held) (process_fec r h payload)
unfolding process_fec set_group places
process_fec-IsOwned held r h payload own =
    let g = r.fec_ring (fec_slot h.frame_id h.fragment_start) in
    elim (Bool-cases (ltb h.frame_id r.next_frame_id_to_read)) [
      | inl late ↦ rw late own
      | inr timely ↦ rw timely (elim (Bool-cases (is_group g h.frame_id h.fragment_start)) [
        | inl known ↦ rw known own
        | inr new ↦ rw new (elim (Option-cases (PacketPool.acquire (released r g).fec_pool).0) [
          | inl dry ↦ rw (dry, process_fec) tt
          | inr (k, e) ↦
              rw (e, process_fec)
                (elim (Bool-cases (ltb 1500 h.data_size)) [
                  | inl long ↦ rw long tt
                  | inr fits ↦ rw fits (
                      IsSame-IsOwned held _ _ own
                        (try_recover-IsSame _ h.frame_id h.fragment_start))
                ])
        ])
      ])
    ]
