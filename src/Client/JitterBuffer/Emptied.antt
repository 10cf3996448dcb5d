-- ===== src/Client/JitterBuffer/Emptied.antt =====
-- cpp/client/jitter_buffer.cpp: Reset clears every slot.
use remote_play.Prelude.{
  ℕ, zero, suc, ◌+◌, ◌-◌, ◌%◌, ◌≤◌, ◌<◌, ◌≡◌, refl, false, none, arith, u32, ==_iff, ==_false→ne,
  ==_refl, ◌==◌, ap, Bool-cases, inl, inr,
}
use mathlib.Core.Path.{subst}
use remote_play.Common.FixedRing
use remote_play.Client.JitterBuffer.{JitterBuffer, vacate, reset, reset_from}

module _ {double : Type 0} where
  -- Neither a frame nor an occupied entry stands in the slot.
  abbrev pub IsVacant : JitterBuffer double → ℕ → Type 0
  IsVacant b slot = (b.ring slot ≡ none) × ((b.info slot).occupied ≡ false)

  reset_from-stays :
      (b : JitterBuffer double) (i rounds slot : ℕ)
      → IsVacant b slot
      → IsVacant (reset_from b i rounds) slot
  unfolding reset_from vacate
  reset_from-stays b i zero slot v = v
  reset_from-stays b i (suc rounds) slot v =
      let id = u32 (b.next_pop_frame_id + i) in
      let b' = record b { ring = FixedRing.insert 32 b.ring id none; info = vacate b.info id } in
      reset_from-stays b' (i + 1) rounds slot (elim (Bool-cases (slot == id % 32)) [
        | inl here ↦ rw here (refl, refl)
        | inr other ↦ rw other v
      ])

  reset_from-clears :
      (b : JitterBuffer double) (i rounds k : ℕ)
      → i ≤ k
      → k < i + rounds
      → IsVacant (reset_from b i rounds) (u32 (b.next_pop_frame_id + k) % 32)
  unfolding reset_from vacate
  reset_from-clears b i zero k le lt = absurd (omega (arith, le, lt))
  reset_from-clears b i (suc rounds) k le lt =
      let id = u32 (b.next_pop_frame_id + i) in
      let b' = record b { ring = FixedRing.insert 32 b.ring id none; info = vacate b.info id } in
      elim (Bool-cases (i == k)) [
        | inl here ↦
            let at : id % 32 ≡ u32 (b.next_pop_frame_id + k) % 32 =
              ap (λ j. u32 (b.next_pop_frame_id + j) % 32) ((==_iff i k).0 here) in
            subst (λ slot. IsVacant (reset_from b' (i + 1) rounds) slot) at
              (reset_from-stays b' (i + 1) rounds (id % 32) (rw (==_refl (id % 32)) (refl, refl)))
        | inr later ↦
            reset_from-clears b' (i + 1) rounds k (omega (arith, le, ==_false→ne i k later))
              (omega (arith, lt))
      ]

  -- The 32 numbers from any on meet every slot, since 32 divides 2³².
  pub reset-IsVacant :
      (b : JitterBuffer double) (next_expected_id slot : ℕ)
      → slot < 32
      → IsVacant (reset b next_expected_id) slot
  unfolding reset
  reset-IsVacant b next_expected_id slot lt =
      let k = (slot + 32 - b.next_pop_frame_id % 32) % 32 in
      let at : u32 (b.next_pop_frame_id + k) % 32 ≡ slot = omega (arith, lt) in
      subst (λ slot. IsVacant (reset_from b 0 32) slot) at
        (reset_from-clears b 0 32 k (omega arith) (omega arith))

  pub reset-next :
      (b : JitterBuffer double) (next_expected_id : ℕ)
      → (reset b next_expected_id).next_pop_frame_id ≡ next_expected_id
  unfolding reset
  reset-next b next_expected_id = refl

  pub reset-count :
      (b : JitterBuffer double) (next_expected_id : ℕ) → (reset b next_expected_id).count ≡ 0
  unfolding reset
  reset-count b next_expected_id = refl
