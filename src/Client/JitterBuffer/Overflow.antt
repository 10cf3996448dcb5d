-- ===== src/Client/JitterBuffer/Overflow.antt =====
-- The overflow loop of JitterBuffer::PushFrame ends within `count` rounds, and what it leaves fits.
use remote_play.Prelude.{
  ℕ, zero, suc, ◌+◌, ◌-◌, ◌%◌, ◌^◌, ◌<◌, ◌≤◌, ◌≡◌, ◌⊎◌, ◌==◌, refl, sym, ap, ◌∙◌, Bool, true, false,
  ◌&&◌, arith, ltb, if◌then◌else◌, u32, Bool-cases, inl, inr,
}
use mathlib.Core.Path.{subst}
use remote_play.Common.FixedRing
use remote_play.Client.JitterBuffer.{EntryInfo, JitterBuffer, find_oldest, drop_frame, shrink}

-- A place that the search passes over: it is free, or has the id that the search starts from.
abbrev pub IsPassed : EntryInfo → Type 0
IsPassed e = e.occupied ≡ true → 2 ^ 32 - 1 ≤ e.frame_id

find_oldest-found :
    (info : ℕ → EntryInfo) (next i rounds oldest_id : ℕ)
    → (find_oldest info next i rounds oldest_id true).1 ≡ true
unfolding find_oldest
find_oldest-found info next i zero oldest_id = refl
find_oldest-found info next i (suc rounds) oldest_id =
    let inf = FixedRing.get 32 info (u32 (next + i)) in
    elim (Bool-cases (inf.occupied && ltb inf.frame_id oldest_id)) [
      | inl smaller ↦
          rw (smaller, find_oldest) (find_oldest-found info next (i + 1) rounds inf.frame_id)
      | inr larger ↦ rw (larger, find_oldest) (find_oldest-found info next (i + 1) rounds oldest_id)
    ]

-- A search that finds nothing has passed over every place.
find_oldest-IsPassed :
    (info : ℕ → EntryInfo) (next i rounds k : ℕ)
    → i ≤ k
    → k < i + rounds
    → (find_oldest info next i rounds (2 ^ 32 - 1) false).1 ≡ false
    → IsPassed (info (u32 (next + k) % 32))
unfolding find_oldest
find_oldest-IsPassed info next i zero k le lt e = absurd (omega arith)
find_oldest-IsPassed info next i (suc rounds) k le lt e =
    let inf = FixedRing.get 32 info (u32 (next + i)) in
    let at = λ (q : Bool).
      (find_oldest info next (i + 1) rounds (if q then inf.frame_id else 2 ^ 32 - 1)
        (if q then true else false)).1 in
    elim (Bool-cases (inf.occupied && ltb inf.frame_id (2 ^ 32 - 1))) [
      | inl smaller ↦ absurd (
          ground (
            arith,
            find_oldest-found info next (i + 1) rounds inf.frame_id,
            ap at (sym smaller) ∙ e,
          ))
      | inr larger ↦ elim (Bool-cases (i == k)) [
        | inl here ↦ λ there. ground (arith, here, larger, there)
        | inr later ↦
            find_oldest-IsPassed info next (i + 1) rounds k (ground (arith, later)) (omega arith)
              (ap at (sym larger) ∙ e)
      ]
    ]

-- What the loop of PushFrame leaves: four places are free, or there is no frame to drop.
abbrev pub Fits : {double : Type 0} → JitterBuffer double → Type 0
Fits b = (b.count ≤ 28) ⊎ ((s : ℕ) → s < 32 → IsPassed (b.info s))

nothing_left :
    {double : Type 0} (b : JitterBuffer double)
    → (find_oldest b.info b.next_pop_frame_id 0 32 (2 ^ 32 - 1) false).1 ≡ false
    → (s : ℕ) → s < 32
    → IsPassed (b.info s)
nothing_left b e s lt =
    let k = (s + 32 - b.next_pop_frame_id % 32) % 32 in
    let at : u32 (b.next_pop_frame_id + k) % 32 ≡ s = omega arith in
    subst (λ i. IsPassed (b.info i)) at
      (find_oldest-IsPassed b.info b.next_pop_frame_id 0 32 k (omega arith) (omega arith) e)

-- Rounds as many as the counter says are enough for the overflow loop: it ends with at most 28
-- frames counted, or when no place has a frame whose id is below 2³² - 1.
pub shrink-Fits :
    {double : Type 0} (b : JitterBuffer double) (fuel : ℕ)
    → b.count ≤ fuel
    → b.count < 2 ^ 64
    → Fits (shrink b fuel)
unfolding shrink drop_frame
shrink-Fits b zero le small = inl (omega arith)
shrink-Fits b (suc fuel) le small =
    let r = find_oldest b.info b.next_pop_frame_id 0 32 (2 ^ 32 - 1) false in
    elim (Bool-cases (ltb (32 - 4) b.count)) [
      | inr fits ↦ rw fits (inl (ground (arith, fits)))
      | inl over ↦ rw over (elim (Bool-cases r.1) [
        | inr none_left ↦ rw none_left (inr (nothing_left b none_left))
        | inl found ↦
            let many : 28 < b.count = ground (arith, over) in
            rw found
              (shrink-Fits (drop_frame b r.0) fuel (omega (arith, many)) (omega (arith, many)))
      ])
    ]
