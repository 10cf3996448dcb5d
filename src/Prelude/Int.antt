-- ===== src/Prelude/Int.antt =====
-- Signed integers over the native numbers, under the library's names, and the casts of the source
-- between `int64_t` and `uint64_t`.
use remote_play.Prelude.{
  ℕ, suc, ◌+◌, ◌-◌, ◌/◌, ◌%◌, ◌^◌, ◌≤◌, ◌<◌, ◌≡◌, refl, Bool, arith, ltb, leb, if◌then◌else◌, sub64,
}

-- `negsuc n` is -(n + 1).
pub data ℤ : Type 0 where
  pos : ℕ → ℤ
  negsuc : ℕ → ℤ

abbrev pub pos_part : ℤ → ℕ
pos_part (pos n) = n
pos_part (negsuc n) = 0

abbrev pub neg_part : ℤ → ℕ
neg_part (pos n) = 0
neg_part (negsuc n) = suc n

-- a - b, as an integer.
abbrev pub sub_ℕ : ℕ → ℕ → ℤ
sub_ℕ a b = if leb b a then pos (a - b) else negsuc (b - a - 1)

infixl 65 ◌+ℤ◌ ◌-ℤ◌
infix 50 ◌≤ℤ◌
unfoldable pub ◌+ℤ◌ : ℤ → ℤ → ℤ
a +ℤ b = sub_ℕ (pos_part a + pos_part b) (neg_part a + neg_part b)

unfoldable pub ◌-ℤ◌ : ℤ → ℤ → ℤ
a -ℤ b = sub_ℕ (pos_part a + neg_part b) (neg_part a + pos_part b)

abbrev pub ◌≤ℤ◌ : ℤ → ℤ → Type 0
a ≤ℤ b = pos_part a + neg_part b ≤ pos_part b + neg_part a

-- a < b
abbrev pub ltb_ℤ : ℤ → ℤ → Bool
ltb_ℤ a b = ltb (pos_part a + neg_part b) (pos_part b + neg_part a)

-- One lemma for each operation lets `omega` work with the operations shut.
pub +ℤ_parts :
    (a b : ℤ)
    → pos_part (a +ℤ b) + neg_part a + neg_part b ≡ neg_part (a +ℤ b) + pos_part a + pos_part b
unfolding ◌+ℤ◌
+ℤ_parts a b = ground arith

pub -ℤ_parts :
    (a b : ℤ)
    → pos_part (a -ℤ b) + neg_part a + pos_part b ≡ neg_part (a -ℤ b) + pos_part a + neg_part b
unfolding ◌-ℤ◌
-ℤ_parts a b = ground arith

pub +ℤ_le :
    (a b : ℤ)
    → (pos_part (a +ℤ b) ≤ pos_part a + pos_part b) × (neg_part (a +ℤ b) ≤ neg_part a + neg_part b)
unfolding ◌+ℤ◌
+ℤ_le a b = (ground arith, ground arith)

-- One of the two parts is 0.
pub parts_apart : (a : ℤ) → (0 < pos_part a → neg_part a ≡ 0)
parts_apart (pos n) = λ h. refl
parts_apart (negsuc n) = λ h. absurd (omega arith)

pub eq_of_parts : (a b : ℤ) → pos_part a + neg_part b ≡ pos_part b + neg_part a → a ≡ b
eq_of_parts a b h = ground arith

pub ruleset int_laws = (arith, +ℤ_parts, -ℤ_parts, eq_of_parts)

-- (int64_t)w, for a word w below 2 ^ 64
abbrev pub s64 : ℕ → ℤ
s64 w = if ltb w (2 ^ 63) then pos w else negsuc (2 ^ 64 - w - 1)

-- (uint64_t)a
abbrev pub u64_of : ℤ → ℕ
u64_of (pos n) = n % 2 ^ 64
u64_of (negsuc n) = 2 ^ 64 - 1 - n % 2 ^ 64

-- a / 2, which C++ rounds towards 0
abbrev pub half : ℤ → ℤ
half (pos n) = pos (n / 2)
half (negsuc n) = sub_ℕ 0 (suc n / 2)

pub half_parts :
    (a : ℤ) → (pos_part (half a) ≡ pos_part a / 2) × (neg_part (half a) ≡ neg_part a / 2)
half_parts (pos n) = (refl, omega arith)
half_parts (negsuc n) = (ground arith, ground arith)

-- The signed difference of two words is the difference of the integers that they are the words of,
-- where that fits 63 bits.
pub s64-sub64 :
    (a b : ℤ)
    → pos_part a + neg_part b < pos_part b + neg_part a + 2 ^ 63
    → pos_part b + neg_part a < pos_part a + neg_part b + 2 ^ 63
    → s64 (sub64 (u64_of a) (u64_of b)) ≡ a -ℤ b
unfolding ◌-ℤ◌
s64-sub64 a b h k = ground arith

pub s64-u64_of : (a : ℤ) → pos_part a < 2 ^ 63 → neg_part a ≤ 2 ^ 63 → s64 (u64_of a) ≡ a
s64-u64_of a h k = ground arith
