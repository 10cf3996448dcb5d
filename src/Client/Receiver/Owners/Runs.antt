-- ===== src/Client/Receiver/Owners/Runs.antt =====
-- cpp/client/receiver.hpp: any sequence of calls. A FramePtr is the address of its frame; its deleter,
-- ReturnToPool and ReturnToPoolRaw give the frame back, which only its holder can do.
use remote_play.Prelude.{
  ℕ, zero, suc, ◌+◌, ◌-◌, ◌≤◌, ◌≡◌, refl, List, [], ◌∷◌, Option, none, some, arith, leb,
  if◌then◌else◌, Bool-cases, Option-cases, inl, inr,
}
use remote_play.Common.Protocol.{VideoHeader, FecHeader}
use remote_play.Client.Receiver.State.{Receiver, init, return_to_pool, memb}
use remote_play.Client.Receiver.Process.{process_packet, process_fec}
use remote_play.Client.Receiver.Reading.{
  frame_at, get_next_frame, hand_out, discard_frame, discard_frames, force_advance_to,
}
use remote_play.Client.Receiver.Counting.{Ensures}
use remote_play.Client.Receiver.Owners.{IsOwned}
use remote_play.Client.Receiver.Owners.Calls.{process_packet-IsOwned, process_fec-IsOwned}
use remote_play.Client.Receiver.Owners.Readers.{
  get_next_frame-IsOwned, force_advance_to-IsOwned, give_back-IsOwned, init-IsOwned, remove,
}
use remote_play.Client.Receiver.Owners.Ready.{
  IsReady, Gives, IsReady-same, IsReady-le, process_packet_runs, process_fec_runs, init-IsReady,
}

pub data Call : Type 0 where
  packet : VideoHeader → (ℕ → ℕ) → ℕ → Call  -- ProcessPacket, with the time
  parity : FecHeader → (ℕ → ℕ) → Call  -- ProcessFEC
  read : Call  -- GetNextFrame
  skip_to : ℕ → Call  -- ForceAdvanceTo
  give_back : ℕ → Call

-- The receiver, and the frames that its caller has.
pub record Reader : Type 0 where
  pub receiver : Receiver
  pub held : List ℕ

abbrev pub start : ℕ → Reader
start pool_size = record { receiver = init pool_size; held = [] }

abbrev put_receiver : Reader → Option Receiver → Option Reader
put_receiver s none = none
put_receiver s (some r) = some (record s { receiver = r })

abbrev keep : Option ℕ → List ℕ → List ℕ
keep none held = held
keep (some p) held = p ∷ held

unfoldable pub make : Call → Reader → Option Reader
make (packet h payload now) s = put_receiver s (process_packet s.receiver h payload now)
make (parity h payload) s = put_receiver s (process_fec s.receiver h payload)
make read s =
    let (o, r) = get_next_frame s.receiver in some (record { receiver = r; held = keep o s.held })
make (skip_to frame_id) s = some (record s { receiver = force_advance_to s.receiver frame_id })
make (give_back p) s =
    if memb p s.held
    then some (record { receiver = return_to_pool s.receiver p; held = remove p s.held })
    else some s

infixl 5 ◌>>=◌
abbrev ◌>>=◌ : Option Reader → (Reader → Option Reader) → Option Reader
none >>= go = none
some s >>= go = go s

unfoldable pub make_all : List Call → Reader → Option Reader
make_all [] s = some s
make_all (c ∷ cs) s = make c s >>= make_all cs

-- How many packets of the pool for parities a call may take.
abbrev pub parities : Call → ℕ
parities (parity h payload) = 1
parities _ = 0

abbrev pub count_parities : List Call → ℕ
count_parities [] = 0
count_parities (c ∷ cs) = parities c + count_parities cs

abbrev pub IsSmall : Call → Type 0
IsSmall (parity h payload) = h.data_size ≤ 1500
IsSmall _ = Unit

abbrev pub AllSmall : List Call → Type 0
AllSmall [] = Unit
AllSmall (c ∷ cs) = IsSmall c × AllSmall cs

record IsFine (n : ℕ) (s : Reader) : Type 0 where
  owned : IsOwned s.held s.receiver
  ready : IsReady n s.receiver

abbrev GivesFine : ℕ → Option Reader → Type 0
GivesFine n o = (s : Reader) × (o ≡ some s) × IsFine n s

get_next_frame-IsReady : (n : ℕ) (r : Receiver) → IsReady n r → IsReady n (get_next_frame r).1
unfolding get_next_frame hand_out
get_next_frame-IsReady n r v = elim (Option-cases (frame_at r r.next_frame_id_to_read)) [
  | inl e ↦ rw (e, get_next_frame) v
  | inr (p, e) ↦
      rw (e, get_next_frame)
        (elim (Bool-cases (r.frames p).is_complete) [
          | inr partly ↦ rw partly v
          | inl fully ↦ rw fully (IsReady-same n r _ refl refl v)
        ])
]

return_to_pool-IsReady :
    (n : ℕ) (r : Receiver) (p : ℕ) → IsReady n r → IsReady n (return_to_pool r p)
unfolding return_to_pool
return_to_pool-IsReady n r p v = elim (Bool-cases (memb p r.frame_pool)) [
  | inl there ↦ rw there v
  | inr gone ↦ rw gone (IsReady-same n r _ refl refl v)
]

discard_frames-IsReady :
    (n : ℕ) (r : Receiver) (fid rounds : ℕ) → IsReady n r → IsReady n (discard_frames r fid rounds)
unfolding discard_frames discard_frame
discard_frames-IsReady n r fid zero v = v
discard_frames-IsReady n r fid (suc rounds) v =
    discard_frames-IsReady n (discard_frame r fid) (fid + 1) rounds
      (elim (Option-cases (frame_at r fid)) [
        | inl e ↦ rw (e, discard_frame) v
        | inr (p, e) ↦
            rw (e, discard_frame)
              (IsReady-same n (return_to_pool r p) _ refl refl (return_to_pool-IsReady n r p v))
      ])

force_advance_to-IsReady :
    (n : ℕ) (r : Receiver) (frame_id : ℕ) → IsReady n r → IsReady n (force_advance_to r frame_id)
unfolding force_advance_to
force_advance_to-IsReady n r frame_id v = elim (Bool-cases (leb frame_id r.next_frame_id_to_read)) [
  | inl back ↦ rw back v
  | inr ahead ↦ rw ahead (
      IsReady-same n _ _ refl refl
        (discard_frames-IsReady n r r.next_frame_id_to_read (frame_id - r.next_frame_id_to_read) v))
]

put_receiver-IsFine :
    (n : ℕ) (s : Reader) (o : Option Receiver)
    → Ensures (IsOwned s.held) o
    → Gives (IsReady n) o
    → GivesFine n (put_receiver s o)
put_receiver-IsFine n s none own (r, e, v) = cc
put_receiver-IsFine n s (some r) own (r', e, v) =
    let same : IsReady n r = IsReady-same n r' r (cc) (cc) v in
    (record s { receiver = r }, refl, record { owned = own; ready = same })

make-IsFine :
    (n : ℕ) (c : Call) (s : Reader) → IsSmall c → IsFine (parities c + n) s → GivesFine n (make c s)
unfolding make
make-IsFine n (packet h payload now) s small v =
    put_receiver-IsFine n s _ (process_packet-IsOwned s.held s.receiver h payload now v.owned)
      (process_packet_runs n s.receiver h payload now (IsReady-le n _ _ (omega arith) v.ready))
make-IsFine n (parity h payload) s small v =
    put_receiver-IsFine n s _ (process_fec-IsOwned s.held s.receiver h payload v.owned)
      (process_fec_runs n s.receiver h payload small (IsReady-le (suc n) _ _ (omega arith) v.ready))
make-IsFine n read s small v =
    let ready = get_next_frame-IsReady n s.receiver (IsReady-le n _ _ (omega arith) v.ready) in
    (
      _,
      refl,
      record {
        owned = elim (get_next_frame-IsOwned s.held s.receiver v.owned) [
          | inl (e, own) ↦ rw e own
          | inr (p, e, own) ↦ rw e own
        ];
        ready = ready;
      },
    )
make-IsFine n (skip_to frame_id) s small v = (
  _,
  refl,
  record {
    owned = force_advance_to-IsOwned s.held s.receiver frame_id v.owned;
    ready = force_advance_to-IsReady n s.receiver frame_id (IsReady-le n _ _ (omega arith) v.ready);
  },
)
make-IsFine n (give_back p) s small v =
    let ready = IsReady-le n _ s.receiver (omega arith) v.ready in
    elim (Bool-cases (memb p s.held)) [
      | inr other ↦ rw other (s, refl, record { owned = v.owned; ready = ready })
      | inl holds ↦ rw holds (
        _,
        refl,
        record {
          owned = give_back-IsOwned s.held s.receiver p holds v.owned;
          ready = return_to_pool-IsReady n s.receiver p ready;
        },
      )
    ]

make_all-IsFine :
    (cs : List Call) (s : Reader)
    → AllSmall cs
    → IsFine (count_parities cs) s
    → GivesFine 0 (make_all cs s)
unfolding make_all
make_all-IsFine [] s small v = (s, refl, v)
make_all-IsFine (c ∷ cs) s (first, rest) v =
    let (s', e, v') = make-IsFine (count_parities cs) c s first v in
    rw e (make_all-IsFine cs s' rest v')

-- From the constructor on, any sequence of calls with at most 512 parities, of at most 1500 bytes
-- each, runs without a fault; then every frame that was allocated is in one place, which is the pool, a
-- slot of the ring or the hands of the caller, and nothing else is in any of them.
pub make_all-IsOwned :
    (pool_size : ℕ) (cs : List Call)
    → AllSmall cs
    → count_parities cs ≤ 512
    → (s : Reader) × (make_all cs (start pool_size) ≡ some s) × IsOwned s.held s.receiver
make_all-IsOwned pool_size cs small few =
    let ready = IsReady-le (count_parities cs) 512 _ few (init-IsReady pool_size) in
    let (s, e, v) =
      make_all-IsFine cs (start pool_size) small
        (record { owned = init-IsOwned pool_size; ready = ready }) in
    (s, e, v.owned)
