-- ===== src/Client/Receiver/Process.antt =====
-- cpp/client/receiver.cpp: ProcessPacket, ProcessFEC and TryRecover. The result is `none` where the
-- code dereferences a null packet or writes past a packet's end. The clock is an argument; logging
-- and timing are left out.
use remote_play.Prelude.{
  ℕ, ◌+◌, ◌*◌, ◌/◌, max, Bool, true, not, ◌&&◌, ◌||◌, Option, none, some, ltb, leb, ◌==◌,
  if◌then◌else◌, u16,
}
use remote_play.Bits.{test_bit}
use remote_play.Client.Frame.{FrameData}
use remote_play.Common.PacketPool
use remote_play.Common.Protocol.{VideoHeader, FecHeader, max_udp_payload}
use remote_play.Client.Receiver.Fragment.{
  copy, put, open_frame, wants, store_fragment, find_missing, recover,
}
use remote_play.Client.Receiver.State.{
  Receiver, FecGroup, slot_of, fec_slot, put_frame, return_to_pool, get_from_pool,
}

-- The group that a slot holds is that of the frame and the place.
abbrev pub is_group : FecGroup → ℕ → ℕ → Bool
is_group g frame_id start =
    g.fec_received && (g.frame_id == frame_id && g.fec_header.fragment_start == start)

-- TryRecover gets as far as reading the packet.
unfoldable pub reads_parity : FrameData → FecHeader → ℕ → Bool
reads_parity f h start =
    let (count, missing) = find_missing f start 0 h.fragment_count 0 0 in
    count == 1 && leb (missing * max_udp_payload + h.data_size) f.buffer_size

-- The recovered frame goes back to its place, and may be the last one completed.
unfoldable pub set_recovered : Receiver → ℕ → ℕ → FrameData → Receiver
set_recovered r p frame_id f = record (put_frame r p f) {
  last_completed_frame_id =
      if f.is_complete then max r.last_completed_frame_id frame_id else r.last_completed_frame_id;
}

-- TryRecover from the test of the group on.
unfoldable pub recover_frame : Receiver → ℕ → ℕ → ℕ → Option Receiver
recover_frame r p frame_id start =
    let f = r.frames p in
    let g = r.fec_ring (fec_slot frame_id start) in
    if not (is_group g frame_id start) then some r else elim g.fec_packet [
      | none ↦ if reads_parity f g.fec_header start then none else some r
      | some k ↦ some (set_recovered r p frame_id (recover f g.fec_header (r.fec_data k) start))
    ]

unfoldable pub try_recover : Receiver → ℕ → ℕ → Option Receiver
try_recover r frame_id start = elim (r.frame_ring (slot_of frame_id)) [
  | none ↦ some r
  | some p ↦
      if not ((r.frames p).frame_id == frame_id) || (r.frames p).is_complete
      then some r
      else recover_frame r p frame_id start
]

-- A frame for the header from the pool, in the ring's slot.
unfoldable pub start_frame : Receiver → VideoHeader → ℕ → ℕ × Receiver
start_frame r h now =
    let (p, r') = get_from_pool r in
    (
      p,
      record r' {
        frames = put r'.frames p (open_frame h now (r'.frames p));
        frame_ring = put r'.frame_ring (slot_of h.frame_id) (some p);
      },
    )

-- The frame that the header belongs to: the one in the slot, or a new one in its place.
unfoldable pub find_frame : Receiver → VideoHeader → ℕ → ℕ × Receiver
find_frame r h now = elim (r.frame_ring (slot_of h.frame_id)) [
  | none ↦ start_frame r h now
  | some p ↦
      if (r.frames p).frame_id == h.frame_id then (p, r) else start_frame (return_to_pool r p) h now
]

-- The end of ProcessPacket: the frame may be complete now.
unfoldable pub finish_frame : Receiver → ℕ → ℕ → Receiver
finish_frame r p frame_id =
    let f = r.frames p in
    if f.fragments_received == f.total_fragments
    then record (put_frame r p (record f { is_complete = true })) {
      last_completed_frame_id = max r.last_completed_frame_id frame_id;
    }
    else r

abbrev pub then_finish : Option Receiver → ℕ → ℕ → Option Receiver
then_finish none p frame_id = none
then_finish (some r) p frame_id = some (finish_frame r p frame_id)

-- FEC_GROUP_SIZE is 5.
abbrev pub group_start : ℕ → ℕ
group_start index = u16 (index / 5 * 5)

unfoldable pub add_fragment : Receiver → ℕ → VideoHeader → (ℕ → ℕ) → Option Receiver
add_fragment r p h payload =
    let f = r.frames p in
    if wants h f
    then then_finish
        (try_recover (put_frame r p (store_fragment h payload f)) h.frame_id
          (group_start h.fragment_index))
        p h.frame_id
    else some (finish_frame r p h.frame_id)

-- The first keyframe fragment starts the stream.
abbrev pub begin : Receiver → VideoHeader → Receiver
begin r h =
    if r.first_frame_received
    then r
    else record r { next_frame_id_to_read = h.frame_id; first_frame_received = true }

unfoldable pub process_packet : Receiver → VideoHeader → (ℕ → ℕ) → ℕ → Option Receiver
process_packet r h payload now =
    let r' = begin r h in
    if not r.first_frame_received && not (test_bit 0 h.flags)
    then some r
    else if ltb h.frame_id r'.next_frame_id_to_read
    then some r'
    else if ltb 1024 h.total_fragments || ltb max_udp_payload h.data_size
    then some r'
    else (let (p, found) = find_frame r' h now in add_fragment found p h payload)

-- The packet of the slot's old group goes back to the pool.
abbrev pub released : Receiver → FecGroup → Receiver
released r g = record r { fec_pool = PacketPool.release r.fec_pool g.fec_packet }

-- The group with the packet `k`, filled by the payload.
unfoldable pub set_group : Receiver → FecHeader → (ℕ → ℕ) → ℕ → Receiver
set_group r h payload k = record r {
  fec_ring =
      put r.fec_ring (fec_slot h.frame_id h.fragment_start) (record {
        fec_header = h;
        fec_received = true;
        fec_packet = some k;
        frame_id = h.frame_id;
      });
  fec_data = put r.fec_data k (copy (r.fec_data k) 0 payload h.data_size);
}

unfoldable pub process_fec : Receiver → FecHeader → (ℕ → ℕ) → Option Receiver
process_fec r h payload =
    let g = r.fec_ring (fec_slot h.frame_id h.fragment_start) in
    if ltb h.frame_id r.next_frame_id_to_read
    then some r
    else if is_group g h.frame_id h.fragment_start
    then some r
    else (let (packet, pool) = PacketPool.acquire (released r g).fec_pool in
        elim packet [
          | none ↦ none
          | some k ↦
              if ltb 1500 h.data_size
              then none
              else try_recover (set_group (record r { fec_pool = pool }) h payload k) h.frame_id
                  h.fragment_start
        ])
