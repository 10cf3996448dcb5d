-- ===== src/Client/Receiver/Owners/Ready.antt =====
-- cpp/client/receiver.cpp: when a packet is taken in without a fault.
use remote_play.Prelude.{
  ℕ, zero, suc, ◌≤◌, ◌≡◌, ◌≢◌, refl, List, [], ◌∷◌, true, false, not, ◌&&◌, ◌||◌, Option, none,
  some, arith, ltb, ◌==◌, Bool-cases, Option-cases, inl, inr, length,
}
use remote_play.Bits.{test_bit}
use remote_play.Common.PacketPool
use remote_play.Common.Protocol.{VideoHeader, FecHeader, max_udp_payload}
use remote_play.Client.Receiver.Fragment.{wants, store_fragment}
use remote_play.Client.Receiver.State.{Receiver, init, slot_of, fec_slot, put_frame}
use remote_play.Client.Receiver.Process.{
  find_frame, add_fragment, begin, process_packet, process_fec, set_group, released, is_group,
  try_recover, recover_frame, then_finish, group_start,
}
use remote_play.Client.Receiver.Counting.{Ensures}
use remote_play.Client.Receiver.Untouched.{
  IsSame, try_recover-IsSame, add_fragment-IsSame, find_frame-IsKept,
}

-- A group that was received has its packet, and `n` packets are left in the pool.
pub record IsReady (n : ℕ) (r : Receiver) : Type 0 where
  pub packets : (i : ℕ) → (r.fec_ring i).fec_received ≡ true → (r.fec_ring i).fec_packet ≢ none
  pub stock : n ≤ length r.fec_pool

-- There is a result, and it meets the predicate.
abbrev pub Gives {ℓ} : (Receiver → Type ℓ) → Option Receiver → Type ℓ
Gives P o = (r : Receiver) × (o ≡ some r) × P r

pub IsReady-same :
    (n : ℕ) (r r' : Receiver)
    → r'.fec_ring ≡ r.fec_ring
    → r'.fec_pool ≡ r.fec_pool
    → IsReady n r
    → IsReady n r'
IsReady-same n r r' ring pool v = record { packets = rw ring v.packets; stock = rw pool v.stock }

pub IsReady-le : (n k : ℕ) (r : Receiver) → n ≤ k → IsReady k r → IsReady n r
IsReady-le n k r h v = record { packets = v.packets; stock = omega (arith, v.stock) }

recover_frame_runs :
    (n : ℕ) (r : Receiver) (p frame_id start : ℕ)
    → IsReady n r
    → recover_frame r p frame_id start ≢ none
unfolding recover_frame
recover_frame_runs n r p frame_id start v =
    let g = r.fec_ring (fec_slot frame_id start) in
    elim (Bool-cases (is_group g frame_id start)) [
      | inr other ↦ rw other (λ e. cc)
      | inl fits ↦ rw fits (elim (Option-cases g.fec_packet) [
        | inl missing ↦ absurd (v.packets (fec_slot frame_id start) (ground (arith, fits)) missing)
        | inr (k, there) ↦ rw (there, recover_frame) (λ e. cc)
      ])
    ]

try_recover_runs :
    (n : ℕ) (r : Receiver) (frame_id start : ℕ) → IsReady n r → try_recover r frame_id start ≢ none
unfolding try_recover
try_recover_runs n r frame_id start v = elim (Option-cases (r.frame_ring (slot_of frame_id))) [
  | inl e ↦ rw (e, try_recover) (λ e. cc)
  | inr (p, e) ↦
      rw (e, try_recover)
        (elim (Bool-cases (not ((r.frames p).frame_id == frame_id) || (r.frames p).is_complete)) [
          | inl skip ↦ rw skip (λ e. cc)
          | inr go ↦ rw go (recover_frame_runs n r p frame_id start v)
        ])
]

then_finish_runs :
    (o : Option Receiver) (p frame_id : ℕ) → o ≢ none → then_finish o p frame_id ≢ none
then_finish_runs none p frame_id h = absurd (h refl)
then_finish_runs (some r) p frame_id h = λ e. cc

add_fragment_runs :
    (n : ℕ) (r : Receiver) (p : ℕ) (h : VideoHeader) (payload : ℕ → ℕ)
    → IsReady n r
    → add_fragment r p h payload ≢ none
unfolding add_fragment
add_fragment_runs n r p h payload v = elim (Bool-cases (wants h (r.frames p))) [
  | inr old ↦ rw old (λ e. cc)
  | inl new ↦ rw new (
      then_finish_runs _ p h.frame_id (
        try_recover_runs n _ h.frame_id (group_start h.fragment_index)
          (IsReady-same n r (put_frame r p (store_fragment h payload (r.frames p))) refl refl v)))
]

-- A result that is there, and is like `r` in what counts here.
IsReady-Gives :
    (n : ℕ) (r : Receiver) (o : Option Receiver)
    → IsReady n r
    → o ≢ none
    → Ensures (IsSame r) o
    → Gives (IsReady n) o
IsReady-Gives n r none v ne s = absurd (ne refl)
IsReady-Gives n r (some r') v ne s = (r', refl, IsReady-same n r r' s.fec_ring s.fec_pool v)

begin-IsReady : (n : ℕ) (r : Receiver) (h : VideoHeader) → IsReady n r → IsReady n (begin r h)
begin-IsReady n r h v = IsReady-same n r (begin r h) (ground arith) (ground arith) v

pub process_packet_runs :
    (n : ℕ) (r : Receiver) (h : VideoHeader) (payload : ℕ → ℕ) (now : ℕ)
    → IsReady n r
    → Gives (IsReady n) (process_packet r h payload now)
unfolding process_packet
process_packet_runs n r h payload now v =
    let r' = begin r h in
    let v' = begin-IsReady n r h v in
    elim (Bool-cases (not r.first_frame_received && not (test_bit 0 h.flags))) [
      | inl early ↦ rw early (r, refl, v)
      | inr begun ↦ rw begun (elim (Bool-cases (ltb h.frame_id r'.next_frame_id_to_read)) [
        | inl late ↦ rw late (r', refl, v')
        | inr due ↦
            rw due
              (elim (Bool-cases (ltb 1024 h.total_fragments || ltb max_udp_payload h.data_size)) [
                | inl large ↦ rw large (r', refl, v')
                | inr fits ↦ rw fits (
                    let (p, found) = find_frame r' h now in
                    let kept = find_frame-IsKept r' h now in
                    let ready = IsReady-same n r' found kept.fec_ring kept.fec_pool v' in
                    IsReady-Gives n found _ ready (add_fragment_runs n found p h payload ready)
                      (add_fragment-IsSame found p h payload))
              ])
      ])
    ]

acquire_runs :
    (n : ℕ) (pool : List ℕ) (given_back : Option ℕ)
    → suc n ≤ length pool
    → let (o, rest) = PacketPool.acquire (PacketPool.release pool given_back) in
      (o ≢ none) × (n ≤ length rest)
unfolding PacketPool.acquire PacketPool.release
acquire_runs n [] g h = absurd (omega arith)
acquire_runs n (k ∷ pool) none h = ((λ e. cc), omega arith)
acquire_runs n (k ∷ pool) (some g) h = ((λ e. cc), omega arith)

set_group-IsReady :
    (n : ℕ) (r : Receiver) (h : FecHeader) (payload : ℕ → ℕ) (k : ℕ)
    → IsReady n r
    → IsReady n (set_group r h payload k)
unfolding set_group
set_group-IsReady n r h payload k v = record {
  packets = λ i e. elim (Bool-cases (i == fec_slot h.frame_id h.fragment_start)) [
    | inl here ↦ rw here (λ e. cc)
    | inr elsewhere ↦ rw elsewhere (v.packets i (rw elsewhere at e))
  ];
  stock = v.stock;
}

pub process_fec_runs :
    (n : ℕ) (r : Receiver) (h : FecHeader) (payload : ℕ → ℕ)
    → h.data_size ≤ 1500
    → IsReady (suc n) r
    → Gives (IsReady n) (process_fec r h payload)
unfolding process_fec
process_fec_runs n r h payload small v =
    let g = r.fec_ring (fec_slot h.frame_id h.fragment_start) in
    let fewer : IsReady n r = record { packets = v.packets; stock = omega (arith, v.stock) } in
    let taken = acquire_runs n r.fec_pool g.fec_packet v.stock in
    elim (Bool-cases (ltb h.frame_id r.next_frame_id_to_read)) [
      | inl late ↦ rw late (r, refl, fewer)
      | inr timely ↦ rw timely (elim (Bool-cases (is_group g h.frame_id h.fragment_start)) [
        | inl known ↦ rw known (r, refl, fewer)
        | inr new ↦ rw new (elim (Option-cases (PacketPool.acquire (released r g).fec_pool).0) [
          | inl dry ↦ absurd (taken.0 dry)
          | inr (k, e) ↦
              let fits : ltb 1500 h.data_size ≡ false = ground arith in
              rw (e, process_fec, fits)
                (let rest = (PacketPool.acquire (released r g).fec_pool).1 in
                  let lent = record r { fec_pool = rest } in
                  let ready =
                    set_group-IsReady n lent h payload k
                      (record { packets = v.packets; stock = taken.1 }) in
                  IsReady-Gives n (set_group lent h payload k) _ ready
                    (try_recover_runs n _ h.frame_id h.fragment_start ready)
                    (try_recover-IsSame _ h.frame_id h.fragment_start))
        ])
      ])
    ]

init-length : (n : ℕ) → length (PacketPool.init n) ≡ n
unfolding PacketPool.init
init-length zero = refl
init-length (suc n) = omega (arith, init-length n)

pub init-IsReady : (n : ℕ) → IsReady 512 (init n)
unfolding init
init-IsReady n = record { packets = λ i e. cc; stock = omega (arith, init-length 512) }
