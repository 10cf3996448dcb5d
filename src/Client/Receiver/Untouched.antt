-- ===== src/Client/Receiver/Untouched.antt =====
-- cpp/client/receiver.cpp: what ProcessPacket leaves alone.
use remote_play.Prelude.{
  ℕ, ◌≡◌, refl, ◌∙◌, List, [], ◌∷◌, not, ◌&&◌, ◌||◌, Option, none, some, arith, ltb, ◌==◌,
  Bool-cases, Option-cases, inl, inr,
}
use remote_play.Common.Protocol.{VideoHeader, max_udp_payload}
use remote_play.Bits.{test_bit}
use remote_play.Client.Receiver.Fragment.{wants, store_fragment}
use remote_play.Client.Receiver.State.{
  Receiver, put_frame, slot_of, fec_slot, take_frame, get_from_pool, return_to_pool,
}
use remote_play.Client.Receiver.Process.{
  process_packet, find_frame, start_frame, add_fragment, try_recover, recover_frame, set_recovered,
  finish_frame, then_finish, begin, is_group, reads_parity, group_start,
}
use remote_play.Client.Receiver.Counting.{Ensures}
use remote_play.Client.Receiver.Window.{Window}

-- A receiver whose replay window is `w`.
abbrev pub Keeps : Window → Receiver → Type 0
Keeps w r = r.window ≡ w

-- What a new frame in the ring leaves alone.
pub record IsKept (r r' : Receiver) : Type 0 where
  pub window : r'.window ≡ r.window
  pub fec_ring : r'.fec_ring ≡ r.fec_ring
  pub fec_pool : r'.fec_pool ≡ r.fec_pool

IsKept-refl : (r : Receiver) → IsKept r r
IsKept-refl r = record { window = refl; fec_ring = refl; fec_pool = refl }

take_frame-IsKept : (r : Receiver) (pool : List ℕ) → IsKept r (take_frame r pool).1
unfolding take_frame
take_frame-IsKept r [] = record { window = refl; fec_ring = refl; fec_pool = refl }
take_frame-IsKept r (p ∷ pool) = record { window = refl; fec_ring = refl; fec_pool = refl }

start_frame-IsKept : (r : Receiver) (h : VideoHeader) (now : ℕ) → IsKept r (start_frame r h now).1
unfolding start_frame get_from_pool
start_frame-IsKept r h now =
    let t = take_frame-IsKept r r.frame_pool in
    record { window = t.window; fec_ring = t.fec_ring; fec_pool = t.fec_pool }

return_to_pool-IsKept : (r : Receiver) (p : ℕ) → IsKept r (return_to_pool r p)
unfolding return_to_pool
return_to_pool-IsKept r p = ground arith

replace-IsKept :
    (r : Receiver) (h : VideoHeader) (now p : ℕ)
    → IsKept r (start_frame (return_to_pool r p) h now).1
replace-IsKept r h now p =
    let started = start_frame-IsKept (return_to_pool r p) h now in
    let back = return_to_pool-IsKept r p in
    record {
      window = started.window ∙ back.window;
      fec_ring = started.fec_ring ∙ back.fec_ring;
      fec_pool = started.fec_pool ∙ back.fec_pool;
    }

pub find_frame-IsKept : (r : Receiver) (h : VideoHeader) (now : ℕ) → IsKept r (find_frame r h now).1
unfolding find_frame
find_frame-IsKept r h now = elim (Option-cases (r.frame_ring (slot_of h.frame_id))) [
  | inl e ↦ rw (e, find_frame) (start_frame-IsKept r h now)
  | inr (p, e) ↦
      rw (e, find_frame)
        (elim (Bool-cases ((r.frames p).frame_id == h.frame_id)) [
          | inl same ↦ rw same (IsKept-refl r)
          | inr other ↦ rw other (replace-IsKept r h now p)
        ])
]

-- The frames may differ, and what was completed last; who has which frame does not.
pub record IsSame (r r' : Receiver) : Type 0 where
  pub window : r'.window ≡ r.window
  pub frame_pool : r'.frame_pool ≡ r.frame_pool
  pub frame_ring : r'.frame_ring ≡ r.frame_ring
  pub frame_storage : r'.frame_storage ≡ r.frame_storage
  pub fec_ring : r'.fec_ring ≡ r.fec_ring
  pub fec_pool : r'.fec_pool ≡ r.fec_pool

IsSame-refl : (r : Receiver) → IsSame r r
IsSame-refl r = record {
  window = refl;
  frame_pool = refl;
  frame_ring = refl;
  frame_storage = refl;
  fec_ring = refl;
  fec_pool = refl;
}

IsSame-trans : (r r1 r2 : Receiver) → IsSame r r1 → IsSame r1 r2 → IsSame r r2
IsSame-trans r r1 r2 a b = record {
  window = b.window ∙ a.window;
  frame_pool = b.frame_pool ∙ a.frame_pool;
  frame_ring = b.frame_ring ∙ a.frame_ring;
  frame_storage = b.frame_storage ∙ a.frame_storage;
  fec_ring = b.fec_ring ∙ a.fec_ring;
  fec_pool = b.fec_pool ∙ a.fec_pool;
}

recover_frame-IsSame :
    (r : Receiver) (p frame_id start : ℕ) → Ensures (IsSame r) (recover_frame r p frame_id start)
unfolding recover_frame set_recovered
recover_frame-IsSame r p frame_id start =
    let g = r.fec_ring (fec_slot frame_id start) in
    elim (Bool-cases (is_group g frame_id start)) [
      | inr other ↦ rw other (IsSame-refl r)
      | inl fits ↦ rw fits (elim (Option-cases g.fec_packet) [
        | inl missing ↦
            rw (missing, recover_frame)
              (elim (Bool-cases (reads_parity (r.frames p) g.fec_header start)) [
                | inl reads ↦ rw reads tt
                | inr quiet ↦ rw quiet (IsSame-refl r)
              ])
        | inr (k, there) ↦
            rw (there, recover_frame)
              (record {
                window = refl;
                frame_pool = refl;
                frame_ring = refl;
                frame_storage = refl;
                fec_ring = refl;
                fec_pool = refl;
              })
      ])
    ]

pub try_recover-IsSame :
    (r : Receiver) (frame_id start : ℕ) → Ensures (IsSame r) (try_recover r frame_id start)
unfolding try_recover
try_recover-IsSame r frame_id start = elim (Option-cases (r.frame_ring (slot_of frame_id))) [
  | inl e ↦ rw (e, try_recover) (IsSame-refl r)
  | inr (p, e) ↦
      rw (e, try_recover)
        (elim (Bool-cases (not ((r.frames p).frame_id == frame_id) || (r.frames p).is_complete)) [
          | inl skip ↦ rw skip (IsSame-refl r)
          | inr go ↦ rw go (recover_frame-IsSame r p frame_id start)
        ])
]

finish_frame-IsSame : (r : Receiver) (p frame_id : ℕ) → IsSame r (finish_frame r p frame_id)
unfolding finish_frame
finish_frame-IsSame r p frame_id = ground arith

then_finish-IsSame :
    (r : Receiver) (o : Option Receiver) (p frame_id : ℕ)
    → Ensures (IsSame r) o
    → Ensures (IsSame r) (then_finish o p frame_id)
then_finish-IsSame r none p frame_id e = tt
then_finish-IsSame r (some r1) p frame_id e =
    IsSame-trans r r1 _ e (finish_frame-IsSame r1 p frame_id)

pub IsSame-after :
    (r r1 : Receiver) (o : Option Receiver)
    → IsSame r r1
    → Ensures (IsSame r1) o
    → Ensures (IsSame r) o
IsSame-after r r1 none a e = tt
IsSame-after r r1 (some r2) a e = IsSame-trans r r1 r2 a e

pub add_fragment-IsSame :
    (r : Receiver) (p : ℕ) (h : VideoHeader) (payload : ℕ → ℕ)
    → Ensures (IsSame r) (add_fragment r p h payload)
unfolding add_fragment
add_fragment-IsSame r p h payload = elim (Bool-cases (wants h (r.frames p))) [
  | inr old ↦ rw old (finish_frame-IsSame r p h.frame_id)
  | inl new ↦
      let stored = put_frame r p (store_fragment h payload (r.frames p)) in
      let same : IsSame r stored = record {
        window = refl;
        frame_pool = refl;
        frame_ring = refl;
        frame_storage = refl;
        fec_ring = refl;
        fec_pool = refl;
      } in
      rw new (
        then_finish-IsSame r _ p h.frame_id (
          IsSame-after r stored _ same
            (try_recover-IsSame stored h.frame_id (group_start h.fragment_index))))
]

begin-window : (r : Receiver) (h : VideoHeader) → (begin r h).window ≡ r.window
begin-window r h = ground arith

Keeps-of :
    (w : Window) (r : Receiver) (o : Option Receiver)
    → r.window ≡ w
    → Ensures (IsSame r) o
    → Ensures (Keeps w) o
Keeps-of w r none e k = tt
Keeps-of w r (some r1) e k = k.window ∙ e

pub process_packet-window :
    (r : Receiver) (h : VideoHeader) (payload : ℕ → ℕ) (now : ℕ)
    → Ensures (Keeps r.window) (process_packet r h payload now)
unfolding process_packet
process_packet-window r h payload now =
    let r' = begin r h in
    let same = begin-window r h in
    elim (Bool-cases (not r.first_frame_received && not (test_bit 0 h.flags))) [
      | inl early ↦ rw early refl
      | inr begun ↦ rw begun (elim (Bool-cases (ltb h.frame_id r'.next_frame_id_to_read)) [
        | inl late ↦ rw late same
        | inr due ↦
            rw due
              (elim (Bool-cases (ltb 1024 h.total_fragments || ltb max_udp_payload h.data_size)) [
                | inl large ↦ rw large same
                | inr fits ↦ rw fits (
                    let (p, found) = find_frame r' h now in
                    Keeps-of _ found _ ((find_frame-IsKept r' h now).window ∙ same)
                      (add_fragment-IsSame found p h payload))
              ])
      ])
    ]
