-- ===== src/Client/JitterBuffer/Sound.antt =====
-- An occupied place of JitterBuffer has its frame, and the counter covers the occupied places.
use remote_play.Prelude.{
  ℕ, zero, suc, ◌+◌, ◌-◌, ◌%◌, ◌^◌, ◌<◌, ◌≤◌, ◌≡◌, ◌≢◌, refl, sym, ap, ◌∙◌, Bool, true, false, ◌&&◌,
  Option, none, some, arith, ltb, ◌==◌, if◌then◌else◌, u32, u64, Bool-cases, ==_iff, inl, inr,
}
use remote_play.Common.FixedRing
use remote_play.Client.Frame.{FrameData}
use remote_play.Client.Receiver.Fragment.Count.{
  count_set, count_set-agree, count_set-differ, count_set-none,
}
use remote_play.Client.JitterBuffer.{
  EntryInfo, no_entry, JitterBuffer, Doubles, find_oldest, vacate, holds, drop_frame, shrink,
  insert_frame, start_at, reset_from, reset, init, estimate, push_frame, Popped, crash, nothing,
  frame, take_entry, pop_synced, waits, pop_frame,
}

-- How many places are occupied.
unfoldable pub occupied_count : (ℕ → EntryInfo) → ℕ
occupied_count info = count_set (λ s. (info s).occupied) 32

pub record IsSound {double : Type 0} (b : JitterBuffer double) : Type 0 where
  pub stored : (s : ℕ) → (b.info s).occupied ≡ true → holds (b.ring s) (b.info s).frame_id ≡ true
  pub placed : (s : ℕ) → (b.info s).occupied ≡ true → (b.info s).frame_id % 32 ≡ s
  pub covered : occupied_count b.info ≤ b.count
  pub bounded : b.count < 2 ^ 64

-- Writing one place changes the number of occupied places by that place.
insert-occupied_count :
    (info : ℕ → EntryInfo) (id : ℕ) (v : EntryInfo)
    → occupied_count (FixedRing.insert 32 info id v)
        + (if (FixedRing.get 32 info id).occupied then 1 else 0)
      ≡ occupied_count info + (if v.occupied then 1 else 0)
unfolding occupied_count
insert-occupied_count info id v =
    let at : FixedRing.insert 32 info id v (id % 32) ≡ v = ground arith in
    let changed =
      count_set-differ (λ s. (info s).occupied) (λ s. (FixedRing.insert 32 info id v s).occupied)
        (id % 32) 32 (λ j h. ground arith) (omega arith) in
    changed ∙ ap (λ e. count_set (λ s. (info s).occupied) 32 + (if e.occupied then 1 else 0)) at

-- What PopFrame and the overflow loop take out of an occupied place.
abbrev pub without : {double : Type 0} → JitterBuffer double → ℕ → ℕ → JitterBuffer double
without b id next = record b {
  ring = FixedRing.insert 32 b.ring id none;
  info = vacate b.info id;
  count = u64 (b.count + (2 ^ 64 - 1));
  next_pop_frame_id = next;
}

without-count :
    {double : Type 0} (b : JitterBuffer double) (id next : ℕ)
    → (FixedRing.get 32 b.info id).occupied ≡ true
    → IsSound b
    → ((without b id next).count + 1 ≡ b.count)
      × (occupied_count (without b id next).info + 1 ≡ occupied_count b.info)
unfolding vacate
without-count b id next e v =
    let changed =
      insert-occupied_count b.info id (record (FixedRing.get 32 b.info id) { occupied = false }) in
    let le = v.covered in ground arith

without-IsSound :
    {double : Type 0} (b : JitterBuffer double) (id next : ℕ)
    → (FixedRing.get 32 b.info id).occupied ≡ true
    → IsSound b
    → IsSound (without b id next)
unfolding vacate
without-IsSound b id next e v =
    let (less, fewer) = without-count b id next e v in
    record {
      stored = λ s h. elim (Bool-cases (s == id % 32)) [
        | inl here ↦ absurd (ground (arith, here, h))
        | inr other ↦ ground (arith, other, h, v.stored s)
      ];
      placed = λ s h. elim (Bool-cases (s == id % 32)) [
        | inl here ↦ absurd (ground (arith, here, h))
        | inr other ↦ ground (arith, other, h, v.placed s)
      ];
      covered = omega (arith, less, fewer, v.covered);
      bounded = omega (arith, less, v.bounded);
    }

insert_frame-IsSound :
    {double : Type 0} (b : JitterBuffer double) (f : FrameData) (now : ℕ)
    → b.count + 1 < 2 ^ 64
    → IsSound b
    → IsSound (insert_frame b f now)
unfolding insert_frame holds
insert_frame-IsSound b f now le v =
    let changed =
      insert-occupied_count b.info f.frame_id
        (record { frame_id = f.frame_id; push_time = now; occupied = true }) in
    let c = v.covered in
    record {
      stored = λ s h. elim (Bool-cases (s == f.frame_id % 32)) [
        | inl here ↦ rw here ((==_iff f.frame_id f.frame_id).1 refl)
        | inr other ↦ ground (arith, other, h, v.stored s)
      ];
      placed = λ s h. elim (Bool-cases (s == f.frame_id % 32)) [
        | inl here ↦ ground (arith, here)
        | inr other ↦ ground (arith, other, h, v.placed s)
      ];
      covered = ground arith;
      bounded = omega arith;
    }

-- The id that the search finds is that of an occupied place.
find_oldest-occupied :
    (info : ℕ → EntryInfo) (next i rounds oldest_id : ℕ) (found : Bool)
    → ((s : ℕ) → (info s).occupied ≡ true → (info s).frame_id % 32 ≡ s)
    → (found ≡ true → (FixedRing.get 32 info oldest_id).occupied ≡ true)
    → (find_oldest info next i rounds oldest_id found).1 ≡ true
    → (FixedRing.get 32 info (find_oldest info next i rounds oldest_id found).0).occupied ≡ true
unfolding find_oldest
find_oldest-occupied info next i zero oldest_id found placed so_far e = so_far e
find_oldest-occupied info next i (suc rounds) oldest_id found placed so_far e =
    let inf = FixedRing.get 32 info (u32 (next + i)) in
    elim (Bool-cases (inf.occupied && ltb inf.frame_id oldest_id)) [
      | inl smaller ↦
          rw (smaller, find_oldest)
            (find_oldest-occupied info next (i + 1) rounds inf.frame_id true placed
              (λ t.
                let here : inf.occupied ≡ true = ground (arith, smaller) in
                ap (λ s. (info s).occupied) (placed (u32 (next + i) % 32) here) ∙ here)
              (ap
                  (λ q.
                    (find_oldest info next (i + 1) rounds (if q then inf.frame_id else oldest_id)
                      (if q then true else found)).1)
                  (sym smaller)
                ∙ e))
      | inr larger ↦
          rw (larger, find_oldest)
            (find_oldest-occupied info next (i + 1) rounds oldest_id found placed so_far (
              ap
                (λ q.
                  (find_oldest info next (i + 1) rounds (if q then inf.frame_id else oldest_id)
                    (if q then true else found)).1)
                (sym larger)
              ∙ e))
    ]

pub shrink-IsSound :
    {double : Type 0} (b : JitterBuffer double) (fuel : ℕ) → IsSound b → IsSound (shrink b fuel)
unfolding shrink drop_frame
shrink-IsSound b zero v = v
shrink-IsSound b (suc fuel) v =
    let r = find_oldest b.info b.next_pop_frame_id 0 32 (2 ^ 32 - 1) false in
    elim (Bool-cases (ltb (32 - 4) b.count)) [
      | inr fits ↦ rw fits v
      | inl over ↦ rw over (elim (Bool-cases r.1) [
        | inr none_left ↦ rw none_left v
        | inl found ↦ rw found (
            shrink-IsSound (drop_frame b r.0) fuel (
              without-IsSound b r.0 _
                (find_oldest-occupied b.info b.next_pop_frame_id 0 32 (2 ^ 32 - 1) false v.placed
                  (λ e. absurd (ground (arith, e))) found)
                v))
      ])
    ]

start_at-IsSound :
    {double : Type 0} (b : JitterBuffer double) (f : FrameData) → IsSound b → IsSound (start_at b f)
unfolding start_at
start_at-IsSound b f v =
    elim b.initialized
      as (λ q.
        IsSound
          (if q then b else record b { next_pop_frame_id = f.frame_id; initialized = true })) [
            | true ↦ v
            | false ↦ record {
              stored = v.stored;
              placed = v.placed;
              covered = v.covered;
              bounded = v.bounded;
            }
          ]

start_at-count :
    {double : Type 0} (b : JitterBuffer double) (f : FrameData) → (start_at b f).count ≡ b.count
unfolding start_at
start_at-count b f = ground arith

-- Reset occupies no place.
reset_from-occupied :
    {double : Type 0} (b : JitterBuffer double) (i rounds s : ℕ)
    → ((reset_from b i rounds).info s).occupied ≡ true
    → (b.info s).occupied ≡ true
unfolding reset_from vacate
reset_from-occupied b i zero s e = e
reset_from-occupied b i (suc rounds) s e =
    let id = u32 (b.next_pop_frame_id + i) in
    let b' = record b { ring = FixedRing.insert 32 b.ring id none; info = vacate b.info id } in
    let there = reset_from-occupied b' (i + 1) rounds s e in ground (arith, there)

reset_from-vacant :
    {double : Type 0} (b : JitterBuffer double) (i rounds k : ℕ)
    → i ≤ k
    → k < i + rounds
    → ((reset_from b i rounds).info (u32 (b.next_pop_frame_id + k) % 32)).occupied ≢ true
unfolding reset_from vacate
reset_from-vacant b i zero k le lt e = absurd (omega arith)
reset_from-vacant b i (suc rounds) k le lt e =
    let id = u32 (b.next_pop_frame_id + i) in
    let b' = record b { ring = FixedRing.insert 32 b.ring id none; info = vacate b.info id } in
    elim (Bool-cases (i == k)) [
      | inl here ↦ absurd (ground (arith, here, reset_from-occupied b' (i + 1) rounds _ e))
      | inr later ↦ reset_from-vacant b' (i + 1) rounds k (ground (arith, later)) (omega arith) e
    ]

pub init-IsSound : (R : Doubles) (max_frames : ℕ) → IsSound (init R max_frames)
unfolding init occupied_count no_entry
init-IsSound R max_frames = record {
  stored = λ s e. absurd (ground (arith, e));
  placed = λ s e. absurd (ground (arith, e));
  covered = omega (arith, count_set-none 32);
  bounded = omega arith;
}

-- PushFrame keeps the state sound while the counter is below 2⁶⁴ - 1: every occupied place has the
-- frame of its id, which is congruent to the place modulo 32, and the counter is at least the number
-- of the occupied places.
pub push_frame-IsSound :
    (R : Doubles) (b : JitterBuffer R.Double) (f : FrameData) (now now' : ℕ)
    → b.count + 1 < 2 ^ 64
    → IsSound b
    → IsSound (push_frame R b f now now')
unfolding push_frame estimate
push_frame-IsSound R b f now now' le v =
    let w = start_at-IsSound b f v in
    let b' = estimate R (start_at b f) now in
    let w' : IsSound b' = record {
      stored = w.stored;
      placed = w.placed;
      covered = w.covered;
      bounded = w.bounded;
    } in
    elim (Bool-cases (ltb f.frame_id (start_at b f).next_pop_frame_id)) [
      | inl late ↦ rw late w
      | inr due ↦
          rw due (elim (Bool-cases (holds (FixedRing.get 32 b'.ring f.frame_id) f.frame_id)) [
            | inl twice ↦ rw twice w'
            | inr new ↦ rw new (
                shrink-IsSound _ _
                  (insert_frame-IsSound b' f now' (omega (arith, le, start_at-count b f)) w'))
          ])
    ]

-- What PopFrame may do at a sound state `b`.
unfoldable pub IsShown :
    {double : Type 0} → JitterBuffer double → Popped → JitterBuffer double → Type 0
IsShown b crash b' = false ≡ true
IsShown b nothing b' = b' ≡ b
IsShown b (frame f) b' =
    (f.frame_id ≡ b.next_pop_frame_id)
    × (b'.next_pop_frame_id ≡ u32 (b.next_pop_frame_id + 1))
    × (b'.count + 1 ≡ b.count)
    × IsSound b'

take_entry-IsShown :
    {double : Type 0} (b : JitterBuffer double) (f : FrameData)
    → (FixedRing.get 32 b.info b.next_pop_frame_id).occupied ≡ true
    → f.frame_id ≡ b.next_pop_frame_id
    → IsSound b
    → let r = take_entry b b.next_pop_frame_id (some f) in IsShown b r.0 r.1
unfolding take_entry IsShown
take_entry-IsShown b f e id v =
    let next = u32 (b.next_pop_frame_id + 1) in
    (
      id,
      refl,
      (without-count b b.next_pop_frame_id next e v).0,
      without-IsSound b b.next_pop_frame_id next e v,
    )

-- The frame that the place of the next id has.
next_entry :
    {double : Type 0} (b : JitterBuffer double) (entry : Option FrameData)
    → holds entry b.next_pop_frame_id ≡ true
    → (f : FrameData) × (entry ≡ some f) × (f.frame_id ≡ b.next_pop_frame_id)
unfolding holds
next_entry b none e = absurd (ground (arith, e))
next_entry b (some f) e = (f, refl, (==_iff _ _).0 e)

-- PopFrame at a sound state never reads through a null entry. Either nothing changes, or the frame
-- that comes out is the next one in order, the counter falls by one and the state is sound.
pub pop_frame-in_order :
    (R : Doubles) (b : JitterBuffer R.Double) (sync_time now : ℕ)
    → IsSound b
    → let r = pop_frame R b sync_time now in IsShown b r.0 r.1
unfolding pop_frame pop_synced IsShown
pop_frame-in_order R b sync_time now v =
    let id = b.next_pop_frame_id in
    let info = FixedRing.get 32 b.info id in
    elim (Bool-cases (info.occupied && info.frame_id == id)) [
      | inr other ↦ rw other refl
      | inl due ↦
          let here : info.occupied ≡ true = ground (arith, due) in
          let named : info.frame_id ≡ id = ground (arith, due) in
          let (f, e, same) =
            next_entry b (FixedRing.get 32 b.ring id)
              (ap (holds (FixedRing.get 32 b.ring id)) (sym named) ∙ v.stored (id % 32) here) in
          rw (due, e)
            (elim (Bool-cases (ltb 0 sync_time)) [
              | inl synced ↦
                  rw synced (elim (Bool-cases (ltb (u64 (sync_time + 5000)) f.capture_timestamp)) [
                    | inl early ↦ rw early refl
                    | inr shown ↦ rw shown (take_entry-IsShown b f here same v)
                  ])
              | inr unsynced ↦ rw unsynced (elim (Bool-cases (waits R b info now)) [
                | inl early ↦ rw early refl
                | inr shown ↦ rw shown (take_entry-IsShown b f here same v)
              ])
            ])
    ]

reset-empty :
    {double : Type 0} (b : JitterBuffer double)
    → IsSound b
    → (s : ℕ) → ((reset_from b 0 32).info s).occupied ≡ false
reset-empty b v s = elim (Bool-cases ((reset_from b 0 32).info s).occupied) [
  | inr e ↦ e
  | inl e ↦
      let k = (s + 32 - b.next_pop_frame_id % 32) % 32 in
      let small : s % 32 ≡ s = ground (arith, v.placed s (reset_from-occupied b 0 32 s e)) in
      let at : u32 (b.next_pop_frame_id + k) % 32 ≡ s = omega (arith, small) in
      absurd (
        reset_from-vacant b 0 32 k (omega arith) (omega arith)
          (ap (λ i. ((reset_from b 0 32).info i).occupied) at ∙ e))
]

-- Reset of a sound state leaves a sound state in which no place is occupied.
pub reset-IsSound :
    {double : Type 0} (b : JitterBuffer double) (next_expected_id : ℕ)
    → IsSound b
    → IsSound (reset b next_expected_id) × (occupied_count (reset b next_expected_id).info ≡ 0)
unfolding reset occupied_count
reset-IsSound b next_expected_id v =
    let empty = reset-empty b v in
    let none_left =
      count_set-agree (λ s. false) (λ s. ((reset_from b 0 32).info s).occupied) 32 (λ s h. empty s)
      ∙ count_set-none 32 in
    (
      record {
        stored = λ s e. absurd (ground (arith, e, empty s));
        placed = λ s e. absurd (ground (arith, e, empty s));
        covered = omega (arith, none_left);
        bounded = omega arith;
      },
      none_left,
    )
