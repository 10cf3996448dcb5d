-- ===== src/Bits.antt =====
-- Single bits of an unsigned word. `test_bit k w` is `w & (1ULL << k)` read as a truth value,
-- `set_bit k w` is `w | (1ULL << k)` and `clear_bit k w` is `w & ~(1ULL << k)`, each by recursion on
-- the position.
pub mod Xor
use remote_play.Prelude.{
  ℕ, zero, suc, ◌+◌, ◌-◌, ◌*◌, ◌/◌, ◌%◌, ◌^◌, ◌<◌, ◌≡◌, ◌≢◌, refl, ap, Bool, true, false, arith,
  ◌==◌,
}

unfoldable pub test_bit : ℕ → ℕ → Bool
test_bit zero w = w % 2 == 1
test_bit (suc k) w = test_bit k (w / 2)

unfoldable pub set_bit : ℕ → ℕ → ℕ
set_bit zero w = w / 2 * 2 + 1
set_bit (suc k) w = set_bit k (w / 2) * 2 + w % 2

unfoldable pub clear_bit : ℕ → ℕ → ℕ
clear_bit zero w = w / 2 * 2
clear_bit (suc k) w = clear_bit k (w / 2) * 2 + w % 2

halve : (a b : ℕ) → b < 2 → (a * 2 + b) / 2 ≡ a
halve a b h = omega arith

pub test_bit-set_self : (k w : ℕ) → test_bit k (set_bit k w) ≡ true
unfolding test_bit set_bit
test_bit-set_self zero w = ground arith
test_bit-set_self (suc k) w =
    rw (halve (set_bit k (w / 2)) (w % 2) (omega arith)) (test_bit-set_self k (w / 2))

pub test_bit-clear_self : (k w : ℕ) → test_bit k (clear_bit k w) ≡ false
unfolding test_bit clear_bit
test_bit-clear_self zero w = ground arith
test_bit-clear_self (suc k) w =
    rw (halve (clear_bit k (w / 2)) (w % 2) (omega arith)) (test_bit-clear_self k (w / 2))

pub test_bit-set_ne : (k j w : ℕ) → k ≢ j → test_bit j (set_bit k w) ≡ test_bit j w
unfolding test_bit set_bit
test_bit-set_ne zero zero w h = absurd (h refl)
test_bit-set_ne zero (suc j) w h = ap (test_bit j) (omega arith)
test_bit-set_ne (suc k) zero w h = ap (λ n. n == 1) (omega arith)
test_bit-set_ne (suc k) (suc j) w h =
    rw (halve (set_bit k (w / 2)) (w % 2) (omega arith))
      (test_bit-set_ne k j (w / 2) (λ e. h (ap suc e)))

pub test_bit-clear_ne : (k j w : ℕ) → k ≢ j → test_bit j (clear_bit k w) ≡ test_bit j w
unfolding test_bit clear_bit
test_bit-clear_ne zero zero w h = absurd (h refl)
test_bit-clear_ne zero (suc j) w h = ap (test_bit j) (omega arith)
test_bit-clear_ne (suc k) zero w h = ap (λ n. n == 1) (omega arith)
test_bit-clear_ne (suc k) (suc j) w h =
    rw (halve (clear_bit k (w / 2)) (w % 2) (omega arith))
      (test_bit-clear_ne k j (w / 2) (λ e. h (ap suc e)))

pub test_bit-zero : (k : ℕ) → test_bit k 0 ≡ false
unfolding test_bit
test_bit-zero zero = refl
test_bit-zero (suc k) = test_bit-zero k
