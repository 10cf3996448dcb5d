-- ===== src/Ai/Floats.antt =====
-- What cpp/ai uses of `float`: constants, the four operations, the order, the conversions from and to
-- `int`, and what <algorithm> builds of the order. The order of numbers, none of them a NaN, is a strict
-- weak order.
use remote_play.Prelude.{ℕ, ◌≡◌, Bool, true, false, if◌then◌else◌, Bool-cases, inl, inr}
use remote_play.Prelude.Int.{ℤ}

-- `decimal n k` is the constant n · 10⁻ᵏ; `to_int` is the cast, which cuts the fraction off.
pub record Floats : Type 1 where
  pub Float : Type 0
  pub decimal : ℕ → ℕ → Float
  pub of_int : ℤ → Float
  pub to_int : Float → ℤ
  pub plus : Float → Float → Float
  pub minus : Float → Float → Float
  pub times : Float → Float → Float
  pub divide : Float → Float → Float
  pub less : Float → Float → Bool

-- The laws of a strict weak order, as a comparator of the standard library keeps them.
pub record IsStrictWeak {ℓ} {A : Type ℓ} (less : A → A → Bool) : Type ℓ where
  pub asym : (a b : A) → less a b ≡ true → less b a ≡ false
  pub neg_trans : (a b c : A) → less b a ≡ false → less c b ≡ false → less c a ≡ false

pub IsStrictWeak-irrefl {ℓ} :
    {A : Type ℓ} (less : A → A → Bool) → IsStrictWeak less → (a : A) → less a a ≡ false
IsStrictWeak-irrefl less w a = elim (Bool-cases (less a a)) [
  | inr no_more ↦ no_more
  | inl more ↦ w.asym a a more
]

module _ (F : Floats) where
  -- std::max, std::min and std::clamp
  abbrev pub max : F.Float → F.Float → F.Float
  max a b = if F.less a b then b else a

  abbrev pub min : F.Float → F.Float → F.Float
  min a b = if F.less b a then b else a

  abbrev pub clamp : F.Float → F.Float → F.Float → F.Float
  clamp v lo hi = if F.less v lo then lo else if F.less hi v then hi else v
