-- ===== src/Ai/Fixed.antt =====
-- Fixed-point numbers with three places after the point: an instance of the interface for `float` on
-- which the definitions run.
use remote_play.Prelude.{ℕ, suc, ◌*◌, ◌/◌, ◌^◌, Bool, true, false, arith}
use remote_play.Prelude.Int.{ℤ, pos, negsuc, sub_ℕ, ◌+ℤ◌, ◌-ℤ◌, ltb_ℤ}
use remote_play.Ai.Floats.{Floats, IsStrictWeak}

abbrev pub magnitude : ℤ → ℕ
magnitude (pos n) = n
magnitude (negsuc n) = suc n

abbrev pub is_negative : ℤ → Bool
is_negative (pos n) = false
is_negative (negsuc n) = true

-- The number of this size, negative or not.
abbrev pub signed : Bool → ℕ → ℤ
signed true n = sub_ℕ 0 n
signed false n = pos n

abbrev pub differ : Bool → Bool → Bool
differ true true = false
differ true false = true
differ false b = b

abbrev pub fixed : Floats
fixed = record {
  Float = ℤ;
  decimal = λ n k. pos (n * 1000 / 10 ^ k);
  of_int = λ n. signed (is_negative n) (magnitude n * 1000);
  to_int = λ a. signed (is_negative a) (magnitude a / 1000);
  plus = ◌+ℤ◌;
  minus = ◌-ℤ◌;
  times = λ a b. signed (differ (is_negative a) (is_negative b)) (magnitude a * magnitude b / 1000);
  divide =
      λ a b. signed (differ (is_negative a) (is_negative b)) (magnitude a * 1000 / magnitude b);
  less = ltb_ℤ;
}

pub ltb_ℤ-IsStrictWeak : IsStrictWeak ltb_ℤ
ltb_ℤ-IsStrictWeak = record { asym = λ a b e. ground arith; neg_trans = λ a b c e k. ground arith }
