-- ===== src/Client/Receiver/Window/Bitmap.antt =====
-- The sixteen words of the replay window as one bitmap of 1024 positions.
use remote_play.Prelude.{
  ℕ, zero, suc, ◌+◌, ◌%◌, ◌≤◌, ◌<◌, ◌≡◌, ◌≢◌, refl, ◌∙◌, List, true, false, arith, ◌==◌, get_or,
  set, replicate, get_or-replicate, length, length-set, get_or-set_self, get_or-set_ne, ◌⊎◌, inl,
  inr, Bool-cases, ==_iff,
}
use remote_play.Bits.{
  test_bit, set_bit, clear_bit, test_bit-set_self, test_bit-set_ne, test_bit-clear_self,
  test_bit-clear_ne, test_bit-zero,
}
use remote_play.Client.Receiver.Window.{word_idx, bit_at, set_at, clear_at, clear_from}

pub length-set_at : (words : List ℕ) (t : ℕ) → length (set_at words t) ≡ length words
unfolding set_at
length-set_at words t = length-set words (word_idx t) _

length-clear_at : (words : List ℕ) (t : ℕ) → length (clear_at words t) ≡ length words
unfolding clear_at
length-clear_at words t = length-set words (word_idx t) _

pub length-clear_from : (words : List ℕ) (t n : ℕ) → length (clear_from words t n) ≡ length words
unfolding clear_from
length-clear_from words t zero = refl
length-clear_from words t (suc n) =
    length-clear_from (clear_at words t) (t + 1) n ∙ length-clear_at words t

same_place : (s t : ℕ) → s % 1024 ≡ t % 1024 → (word_idx s ≡ word_idx t) × (s % 64 ≡ t % 64)
same_place s t h = omega arith

other_place : (s t : ℕ) → s % 1024 ≢ t % 1024 → (word_idx t ≢ word_idx s) ⊎ (t % 64 ≢ s % 64)
other_place s t h = elim (Bool-cases (word_idx t == word_idx s)) [
  | inl e ↦ inr (λ k. h (omega (arith, (==_iff (word_idx t) (word_idx s)).0 e)))
  | inr ne ↦ inl (ground arith)
]

module _ (words : List ℕ) (full : length words ≡ 16) where
  pub bit_at-set_same : (s t : ℕ) → s % 1024 ≡ t % 1024 → bit_at (set_at words t) s ≡ true
  unfolding bit_at set_at
  bit_at-set_same s t h =
      rw ((same_place s t h).0, (same_place s t h).1)
        (rw (get_or-set_self words (word_idx t) _ 0 (omega arith))
          (test_bit-set_self (t % 64) (get_or words (word_idx t) 0)))

  bit_at-clear_same : (s t : ℕ) → s % 1024 ≡ t % 1024 → bit_at (clear_at words t) s ≡ false
  unfolding bit_at clear_at
  bit_at-clear_same s t h =
      rw ((same_place s t h).0, (same_place s t h).1)
        (rw (get_or-set_self words (word_idx t) _ 0 (omega arith))
          (test_bit-clear_self (t % 64) (get_or words (word_idx t) 0)))

  -- A write of the word of `t` that keeps its other bits keeps every other position.
  written_elsewhere :
      (f : ℕ → ℕ → ℕ)
      → ((k j w : ℕ) → k ≢ j → test_bit j (f k w) ≡ test_bit j w)
      → (s t : ℕ) → s % 1024 ≢ t % 1024
      → test_bit (s % 64) (
          get_or (set words (word_idx t) (f (t % 64) (get_or words (word_idx t) 0))) (word_idx s) 0)
        ≡ test_bit (s % 64) (get_or words (word_idx s) 0)
  written_elsewhere f keep s t h = elim (Bool-cases (word_idx t == word_idx s)) [
    | inr ne ↦ rw (get_or-set_ne words (word_idx t) (word_idx s) _ 0 (ground arith))
    | inl e ↦
        let same : word_idx t ≡ word_idx s = (==_iff (word_idx t) (word_idx s)).0 e in
        rw same (
          rw (get_or-set_self words (word_idx s) _ 0 (omega arith))
            (keep (t % 64) (s % 64) (get_or words (word_idx s) 0) (λ k. h (omega arith))))
  ]

  pub bit_at-set_other :
      (s t : ℕ) → s % 1024 ≢ t % 1024 → bit_at (set_at words t) s ≡ bit_at words s
  unfolding bit_at set_at
  bit_at-set_other s t h = written_elsewhere set_bit test_bit-set_ne s t h

  bit_at-clear_other :
      (s t : ℕ) → s % 1024 ≢ t % 1024 → bit_at (clear_at words t) s ≡ bit_at words s
  unfolding bit_at clear_at
  bit_at-clear_other s t h = written_elsewhere clear_bit test_bit-clear_ne s t h

pub bit_at-replicate : (n s : ℕ) → bit_at (replicate n 0) s ≡ false
unfolding bit_at
bit_at-replicate n s = rw (get_or-replicate {A = ℕ} n (word_idx s) 0) (test_bit-zero (s % 64))

-- The loop leaves alone what lies less than a window below its last target.
pub bit_at-clear_from_below :
    (words : List ℕ) (t n s : ℕ)
    → length words ≡ 16
    → s < t
    → t + n ≤ s + 1024
    → bit_at (clear_from words t n) s ≡ bit_at words s
unfolding clear_from
bit_at-clear_from_below words t zero s full h k = refl
bit_at-clear_from_below words t (suc n) s full h k =
    bit_at-clear_from_below (clear_at words t) (t + 1) n s (length-clear_at words t ∙ full)
      (omega arith) (omega arith)
    ∙ bit_at-clear_other words full s t (omega arith)

-- It clears every target.
pub bit_at-clear_from :
    (words : List ℕ) (t n s : ℕ)
    → length words ≡ 16
    → t ≤ s
    → s < t + n
    → n ≤ 1024
    → bit_at (clear_from words t n) s ≡ false
unfolding clear_from
bit_at-clear_from words t zero s full h k small = absurd (omega arith)
bit_at-clear_from words t (suc n) s full h k small = elim (Bool-cases (t == s)) [
  | inr ne ↦
      bit_at-clear_from (clear_at words t) (t + 1) n s (length-clear_at words t ∙ full)
        (ground arith) (omega arith) (omega arith)
  | inl e ↦
      bit_at-clear_from_below (clear_at words t) (t + 1) n s (length-clear_at words t ∙ full)
        (ground arith) (ground arith)
      ∙ bit_at-clear_same words full s t (ground arith)
]
