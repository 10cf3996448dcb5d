-- ===== src/Bits/Xor.antt =====
-- Exclusive or of words of `width` bits, digit by digit: `a ^ b` on unsigned values.
use native.Mathlib.Nat.{pow-suc}
use remote_play.Prelude.{ℕ, zero, suc, ◌+◌, ◌*◌, ◌/◌, ◌%◌, ◌^◌, ◌<◌, ◌≡◌, refl, sym, ap, ◌∙◌, arith}

unfoldable pub xor : ℕ → ℕ → ℕ → ℕ
xor zero a b = 0
xor (suc width) a b = (a + b) % 2 + 2 * xor width (a / 2) (b / 2)

digit : (d r : ℕ) → d < 2 → ((d + 2 * r) / 2 ≡ r) × ((d + 2 * r) % 2 ≡ d)
digit d r h = omega arith

pub xor_comm : (w a b : ℕ) → xor w a b ≡ xor w b a
unfolding xor
xor_comm zero a b = refl
xor_comm (suc w) a b = omega (arith, xor_comm w (a / 2) (b / 2))

pub xor_assoc : (w a b c : ℕ) → xor w (xor w a b) c ≡ xor w a (xor w b c)
unfolding xor
xor_assoc zero a b c = refl
xor_assoc (suc w) a b c =
    let l = digit ((a + b) % 2) (xor w (a / 2) (b / 2)) (omega arith) in
    let r = digit ((b + c) % 2) (xor w (b / 2) (c / 2)) (omega arith) in
    rw (l.0, r.0) (omega (arith, xor_assoc w (a / 2) (b / 2) (c / 2)))

pub xor_self : (w a : ℕ) → xor w a a ≡ 0
unfolding xor
xor_self zero a = refl
xor_self (suc w) a = omega (arith, xor_self w (a / 2))

pub xor-zero : (w a : ℕ) → a < 2 ^ w → xor w a 0 ≡ a
unfolding xor
xor-zero zero a h = omega arith
xor-zero (suc w) a h = omega (arith, xor-zero w (a / 2) (omega (arith, pow-suc 2 w)))

pub zero-xor : (w a : ℕ) → a < 2 ^ w → xor w 0 a ≡ a
zero-xor w a h = xor_comm w 0 a ∙ xor-zero w a h

pub xor-lt : (w a b : ℕ) → xor w a b < 2 ^ w
unfolding xor
xor-lt zero a b = omega arith
xor-lt (suc w) a b = omega (arith, xor-lt w (a / 2) (b / 2), pow-suc 2 w)

-- Adding a word twice takes it away again.
pub xor_cancel : (w a b : ℕ) → b < 2 ^ w → xor w a (xor w a b) ≡ b
xor_cancel w a b h = sym (xor_assoc w a a b) ∙ ap (λ z. xor w z b) (xor_self w a) ∙ zero-xor w b h
