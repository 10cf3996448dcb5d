-- ===== src/Client/Receiver/Counting.antt =====
-- Every frame of the heap counts its fragments rightly, whatever packets arrive.
use remote_play.Prelude.{
  ℕ, ◌≤◌, ◌≡◌, List, [], ◌∷◌, true, false, not, ◌&&◌, ◌||◌, arith, Option, none, some, ltb, ◌==◌,
  Bool-cases, Option-cases, inl, inr,
}
use remote_play.Bits.{test_bit}
use remote_play.Client.Frame.{FrameData, fresh}
use remote_play.Common.PacketPool
use remote_play.Common.Protocol.{VideoHeader, FecHeader, max_udp_payload}
use remote_play.Client.Receiver.Fragment.{put, wants}
use remote_play.Client.Receiver.Fragment.Count.{
  IsCounted, fresh-IsCounted, open_frame-IsCounted, store_fragment-IsCounted, recover-IsCounted,
}
use remote_play.Client.Receiver.State.{
  Receiver, init, slot_of, fec_slot, return_to_pool, take_frame, get_from_pool,
}
use remote_play.Client.Receiver.Process.{
  is_group, set_recovered, recover_frame, try_recover, start_frame, find_frame, finish_frame,
  then_finish, group_start, add_fragment, begin, process_packet, released, set_group, process_fec,
  reads_parity,
}

abbrev pub AllCounted : Receiver → Type 0
AllCounted r = (p : ℕ) → IsCounted (r.frames p)

-- A predicate of the result, where there is one.
abbrev pub Ensures {ℓ} : (Receiver → Type ℓ) → Option Receiver → Type ℓ
Ensures P none = Unit
Ensures P (some r) = P r

put-AllCounted :
    (frames : ℕ → FrameData) (p : ℕ) (f : FrameData)
    → ((q : ℕ) → IsCounted (frames q))
    → IsCounted f
    → (q : ℕ) → IsCounted (put frames p f q)
put-AllCounted frames p f all v q = elim (Bool-cases (q == p)) [
  | inl here ↦ rw here v
  | inr elsewhere ↦ rw elsewhere (all q)
]

pub take_frame-AllCounted :
    (r : Receiver) (pool : List ℕ) → AllCounted r → AllCounted (take_frame r pool).1
unfolding take_frame
take_frame-AllCounted r [] all = put-AllCounted r.frames r.frame_storage fresh all fresh-IsCounted
take_frame-AllCounted r (p ∷ pool) all = all

pub return_to_pool-AllCounted :
    (r : Receiver) (p : ℕ) → AllCounted r → AllCounted (return_to_pool r p)
unfolding return_to_pool
return_to_pool-AllCounted r p all q = ground (arith, all q)

start_frame-AllCounted :
    (r : Receiver) (h : VideoHeader) (now : ℕ)
    → h.total_fragments ≤ 1024
    → AllCounted r
    → AllCounted (start_frame r h now).1
unfolding start_frame get_from_pool
start_frame-AllCounted r h now le all =
    let all' = take_frame-AllCounted r r.frame_pool all in
    put-AllCounted _ _ _ all' (open_frame-IsCounted h now _ le (all' _))

find_frame-AllCounted :
    (r : Receiver) (h : VideoHeader) (now : ℕ)
    → h.total_fragments ≤ 1024
    → AllCounted r
    → AllCounted (find_frame r h now).1
unfolding find_frame
find_frame-AllCounted r h now le all = elim (Option-cases (r.frame_ring (slot_of h.frame_id))) [
  | inl e ↦ rw (e, find_frame) (start_frame-AllCounted r h now le all)
  | inr (p, e) ↦
      rw (e, find_frame)
        (elim (Bool-cases ((r.frames p).frame_id == h.frame_id)) [
          | inl same ↦ rw same all
          | inr other ↦ rw other (
              start_frame-AllCounted (return_to_pool r p) h now le
                (return_to_pool-AllCounted r p all))
        ])
]

recover_frame-AllCounted :
    (r : Receiver) (p frame_id start : ℕ)
    → (r.frames p).is_complete ≡ false
    → AllCounted r
    → Ensures AllCounted (recover_frame r p frame_id start)
unfolding recover_frame set_recovered
recover_frame-AllCounted r p frame_id start e all =
    let g = r.fec_ring (fec_slot frame_id start) in
    elim (Bool-cases (is_group g frame_id start)) [
      | inr other ↦ rw other all
      | inl fits ↦ rw fits (elim (Option-cases g.fec_packet) [
        | inl missing ↦
            rw (missing, recover_frame)
              (elim (Bool-cases (reads_parity (r.frames p) g.fec_header start)) [
                | inl reads ↦ rw reads tt
                | inr quiet ↦ rw quiet all
              ])
        | inr (k, there) ↦
            rw (there, recover_frame)
              (put-AllCounted r.frames p _ all
                (recover-IsCounted (r.frames p) g.fec_header (r.fec_data k) start e (all p)))
      ])
    ]

try_recover-AllCounted :
    (r : Receiver) (frame_id start : ℕ)
    → AllCounted r
    → Ensures AllCounted (try_recover r frame_id start)
unfolding try_recover
try_recover-AllCounted r frame_id start all =
    elim (Option-cases (r.frame_ring (slot_of frame_id))) [
      | inl e ↦ rw (e, try_recover) all
      | inr (p, e) ↦
          rw (e, try_recover)
            (elim (Bool-cases
              (not ((r.frames p).frame_id == frame_id) || (r.frames p).is_complete)) [
                | inl skip ↦ rw skip all
                | inr go ↦ rw go (recover_frame-AllCounted r p frame_id start (ground arith) all)
              ])
    ]

finish_frame-AllCounted :
    (r : Receiver) (p frame_id : ℕ) → AllCounted r → AllCounted (finish_frame r p frame_id)
unfolding finish_frame
finish_frame-AllCounted r p frame_id all =
    let f = r.frames p in
    elim (Bool-cases (f.fragments_received == f.total_fragments)) [
      | inr partly ↦ rw partly all
      | inl fully ↦ rw fully (put-AllCounted r.frames p _ all (completed (all p) fully))
    ]
  where
    completed :
        IsCounted (r.frames p)
        → ((r.frames p).fragments_received == (r.frames p).total_fragments) ≡ true
        → IsCounted (record (r.frames p) { is_complete = true })
    completed v e = ground arith

then_finish-AllCounted :
    (o : Option Receiver) (p frame_id : ℕ)
    → Ensures AllCounted o
    → Ensures AllCounted (then_finish o p frame_id)
then_finish-AllCounted none p frame_id all = tt
then_finish-AllCounted (some r) p frame_id all = finish_frame-AllCounted r p frame_id all

add_fragment-AllCounted :
    (r : Receiver) (p : ℕ) (h : VideoHeader) (payload : ℕ → ℕ)
    → AllCounted r
    → Ensures AllCounted (add_fragment r p h payload)
unfolding add_fragment
add_fragment-AllCounted r p h payload all = elim (Bool-cases (wants h (r.frames p))) [
  | inr old ↦ rw old (finish_frame-AllCounted r p h.frame_id all)
  | inl new ↦ rw new (
      then_finish-AllCounted _ p h.frame_id (
        try_recover-AllCounted _ h.frame_id (group_start h.fragment_index) (
          put-AllCounted r.frames p _ all
            (store_fragment-IsCounted h payload (r.frames p) new (all p)))))
]

begin-AllCounted : (r : Receiver) (h : VideoHeader) → AllCounted r → AllCounted (begin r h)
begin-AllCounted r h all p = ground (arith, all p)

-- ProcessPacket keeps the count of every frame right, whatever header and payload arrive: the
-- fragments received are as many as are marked in the map below the frame's total, no frame has more
-- than 1024 fragments, and a frame that is marked complete has received them all.
pub process_packet-AllCounted :
    (r : Receiver) (h : VideoHeader) (payload : ℕ → ℕ) (now : ℕ)
    → AllCounted r
    → Ensures AllCounted (process_packet r h payload now)
unfolding process_packet
process_packet-AllCounted r h payload now all =
    let r' = begin r h in
    let all' = begin-AllCounted r h all in
    elim (Bool-cases (not r.first_frame_received && not (test_bit 0 h.flags))) [
      | inl wait ↦ rw wait all
      | inr go ↦ rw go (elim (Bool-cases (ltb h.frame_id r'.next_frame_id_to_read)) [
        | inl late ↦ rw late all'
        | inr timely ↦
            rw timely
              (elim (Bool-cases (ltb 1024 h.total_fragments || ltb max_udp_payload h.data_size)) [
                | inl malformed ↦ rw malformed all'
                | inr sound ↦ rw sound (
                    add_fragment-AllCounted _ _ h payload
                      (find_frame-AllCounted r' h now (ground arith) all'))
              ])
      ])
    ]

-- ProcessFEC keeps it right too.
pub process_fec-AllCounted :
    (r : Receiver) (h : FecHeader) (payload : ℕ → ℕ)
    → AllCounted r
    → Ensures AllCounted (process_fec r h payload)
unfolding process_fec set_group
process_fec-AllCounted r h payload all =
    let g = r.fec_ring (fec_slot h.frame_id h.fragment_start) in
    elim (Bool-cases (ltb h.frame_id r.next_frame_id_to_read)) [
      | inl late ↦ rw late all
      | inr timely ↦ rw timely (elim (Bool-cases (is_group g h.frame_id h.fragment_start)) [
        | inl known ↦ rw known all
        | inr new ↦ rw new (elim (Option-cases (PacketPool.acquire (released r g).fec_pool).0) [
          | inl dry ↦ rw (dry, process_fec) tt
          | inr (k, e) ↦
              rw (e, process_fec)
                (elim (Bool-cases (ltb 1500 h.data_size)) [
                  | inl long ↦ rw long tt
                  | inr fits ↦ rw fits (try_recover-AllCounted _ h.frame_id h.fragment_start all)
                ])
        ])
      ])
    ]

pub init-AllCounted : (n : ℕ) → AllCounted (init n)
unfolding init
init-AllCounted n p = fresh-IsCounted
