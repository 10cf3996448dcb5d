-- ===== src/Common/Config/Typed.antt =====
-- The order of the map, and what is set and got.
use mathlib.Core.Path.{subst}
use remote_play.Prelude.{
  ℕ, ◌≡◌, refl, ap, ◌∙◌, List, [], ◌∷◌, Bool, true, false, some, arith, if◌then◌else◌, Bool-cases,
  inl, inr,
}
use remote_play.Common.Config.Text.{trim, trim_front, trim_back, is_blank, contains}
use remote_play.Common.Config.{
  Settings, Config, before, assign, find, load, save, get_string, set_string, get_bool, set_bool,
  read_bool, to_lower, equals, true_text, false_text, or_default,
}
use remote_play.Common.Config.Stored.{IsPlain, AllPlain, IsSorted, AllBehind, load-save}

pub before_irrefl : (k : List ℕ) → before k k ≡ false
unfolding before
before_irrefl [] = refl
before_irrefl (x ∷ xs) = ground (arith, before_irrefl xs)

before_trans : (a b c : List ℕ) → before a b ≡ true → before b c ≡ true → before a c ≡ true
unfolding before
before_trans [] [] c h g = g
before_trans [] (y ∷ ys) [] h g = g
before_trans [] (y ∷ ys) (z ∷ zs) h g = refl
before_trans (x ∷ xs) [] c h g = absurd (ground (arith, h))
before_trans (x ∷ xs) (y ∷ ys) [] h g = g
before_trans (x ∷ xs) (y ∷ ys) (z ∷ zs) h g = ground (arith, before_trans xs ys zs)

before_total : (a b : List ℕ) → before a b ≡ false → before b a ≡ false → a ≡ b
unfolding before
before_total [] [] h g = refl
before_total [] (y ∷ ys) h g = absurd (ground (arith, h))
before_total (x ∷ xs) [] h g = absurd (ground (arith, g))
before_total (x ∷ xs) (y ∷ ys) h g =
    let heads : x ≡ y = ground arith in
    ap (λ z. z ∷ xs) heads ∙ ap (◌∷◌ y) (before_total xs ys (ground arith) (ground arith))

AllBehind-trans : (j k : List ℕ) (m : Settings) → before j k ≡ true → AllBehind k m → AllBehind j m
AllBehind-trans j k [] h b = tt
AllBehind-trans j k ((i, w) ∷ m) h b = (before_trans j k i h b.0, AllBehind-trans j k m h b.1)

AllBehind-assign :
    (j k v : List ℕ) (m : Settings) → before j k ≡ true → AllBehind j m → AllBehind j (assign k v m)
unfolding assign
AllBehind-assign j k v [] h b = (h, tt)
AllBehind-assign j k v ((i, w) ∷ m) h b = elim (Bool-cases (before i k)) [
  | inl less ↦ rw less (b.0, AllBehind-assign j k v m h b.1)
  | inr least ↦
      rw least (elim (Bool-cases (before k i)) [
        | inl more ↦ rw more (h, b)
        | inr same ↦ rw same (b.0, b.1)
      ])
]

-- The order is kept by every assignment.
pub assign-IsSorted : (k v : List ℕ) (m : Settings) → IsSorted m → IsSorted (assign k v m)
unfolding assign
assign-IsSorted k v [] s = (tt, tt)
assign-IsSorted k v ((i, w) ∷ m) s = elim (Bool-cases (before i k)) [
  | inl less ↦ rw less (AllBehind-assign i k v m less s.0, assign-IsSorted k v m s.1)
  | inr least ↦ rw least (elim (Bool-cases (before k i)) [
    | inl more ↦ rw more ((more, AllBehind-trans k i m more s.0), s)
    | inr same ↦ rw same (s.0, s.1)
  ])
]

assign-AllPlain : (k v : List ℕ) (m : Settings) → IsPlain k v → AllPlain m → AllPlain (assign k v m)
unfolding assign
assign-AllPlain k v [] p a = (p, tt)
assign-AllPlain k v ((i, w) ∷ m) p a = elim (Bool-cases (before i k)) [
  | inl less ↦ rw less (a.0, assign-AllPlain k v m p a.1)
  | inr least ↦ rw least (elim (Bool-cases (before k i)) [
    | inl more ↦ rw more (p, a)
    | inr same ↦ rw same (subst (λ x. IsPlain x v) (before_total k i same least) p, a.1)
  ])
]

pub find-assign : (k v : List ℕ) (m : Settings) → find k (assign k v m) ≡ some v
unfolding find assign
find-assign k v [] = rw (before_irrefl k) refl
find-assign k v ((i, w) ∷ m) = elim (Bool-cases (before i k)) [
  | inl less ↦ rw less (rw less (find-assign k v m))
  | inr least ↦ rw least (elim (Bool-cases (before k i)) [
    | inl more ↦ rw more (rw (before_irrefl k) refl)
    | inr same ↦ rw same (rw least (rw same refl))
  ])
]

read_bool-text :
    (value default_value : Bool)
    → read_bool (if value then true_text else false_text) default_value ≡ value
unfolding read_bool equals to_lower
read_bool-text true default_value = refl
read_bool-text false default_value = refl

-- A Boolean that was set is got.
pub get_bool-set_bool :
    (c : Config) (key : List ℕ) (value default_value : Bool)
    → get_bool (set_bool c key value) key default_value ≡ value
unfolding get_bool set_bool get_string set_string
get_bool-set_bool c key value default_value =
    ap (λ o. read_bool (or_default o []) default_value)
      (find-assign key (if value then true_text else false_text) c.settings)
    ∙ read_bool-text value default_value

IsPlain-text :
    (key : List ℕ) (value : Bool)
    → IsPlain key []
    → IsPlain key (if value then true_text else false_text)
unfolding trim trim_front trim_back is_blank contains
IsPlain-text key true p = record {
  named = p.named;
  key_trimmed = p.key_trimmed;
  value_trimmed = refl;
  no_separator = p.no_separator;
  key_comment = p.key_comment;
  value_comment = refl;
  key_line = p.key_line;
  value_line = refl;
}
IsPlain-text key false p = record {
  named = p.named;
  key_trimmed = p.key_trimmed;
  value_trimmed = refl;
  no_separator = p.no_separator;
  key_comment = p.key_comment;
  value_comment = refl;
  key_line = p.key_line;
  value_line = refl;
}

-- A Boolean that is set, saved and loaded is got, where the settings are in order and can be held by
-- lines, and so can the key.
pub get_bool-saved :
    (c fresh : Config) (name key : List ℕ) (value default_value : Bool) (now : ℕ)
    → fresh.settings ≡ []
    → AllPlain c.settings
    → IsSorted c.settings
    → IsPlain key []
    → let text = (save (set_bool c key value) true).1 in
      get_bool (load fresh name text now).1 key default_value ≡ value
unfolding set_bool set_string get_bool get_string
get_bool-saved c fresh name key value default_value now empty plain sorted p =
    let t = if value then true_text else false_text in
    let stored =
      (load-save (set_bool c key value) fresh name now empty
        (assign-AllPlain key t c.settings (IsPlain-text key value p) plain)
        (assign-IsSorted key t c.settings sorted)).1 in
    ap (λ r. get_bool r.1 key default_value) stored ∙ get_bool-set_bool c key value default_value
