-- ===== src/Common/Config/Text.antt =====
-- cpp/common/config.cpp, Config::load: what it does to a line of the file.
use remote_play.Prelude.{
  ℕ, ◌≡◌, refl, ap, List, [], ◌∷◌, ◌++◌, Bool, true, false, ◌||◌, ◌&&◌, Option, none, some, arith,
  ◌==◌, if◌then◌else◌, ==_refl, Bool-cases, inl, inr,
}

-- find(c) and the two substr around it: what stands before the first `c` and after it.
abbrev prepend : ℕ → Option (List ℕ × List ℕ) → Option (List ℕ × List ℕ)
prepend x none = none
prepend x (some (front, back)) = some (x ∷ front, back)

unfoldable pub cut : ℕ → List ℕ → Option (List ℕ × List ℕ)
cut c [] = none
cut c (x ∷ xs) = let rest = cut c xs in if x == c then some ([], xs) else prepend x rest

abbrev front_or : List ℕ → Option (List ℕ × List ℕ) → List ℕ
front_or line none = line
front_or line (some (front, back)) = front

unfoldable pub strip_comment : List ℕ → List ℕ
strip_comment line = front_or line (cut b'#' line)

-- One of " \t\r\n".
unfoldable pub is_blank : ℕ → Bool
is_blank b = b == b' ' || (b == b'\t' || (b == b'\r' || b == b'\n'))

unfoldable pub trim_front : List ℕ → List ℕ
trim_front [] = []
trim_front (x ∷ xs) = let rest = trim_front xs in if is_blank x then rest else x ∷ xs

abbrev is_empty : List ℕ → Bool
is_empty [] = true
is_empty (x ∷ xs) = false

unfoldable pub trim_back : List ℕ → List ℕ
trim_back [] = []
trim_back (x ∷ xs) = let rest = trim_back xs in if is_blank x && is_empty rest then [] else x ∷ rest

unfoldable pub trim : List ℕ → List ℕ
trim s = trim_back (trim_front s)

-- The lines that std::getline gives, one after the other: the last one needs no end.
abbrev on_line : ℕ → List (List ℕ) → List (List ℕ)
on_line c [] = (c ∷ []) ∷ []
on_line c (l ∷ ls) = (c ∷ l) ∷ ls

unfoldable pub lines : List ℕ → List (List ℕ)
lines [] = []
lines (c ∷ cs) = let rest = lines cs in if c == b'\n' then [] ∷ rest else on_line c rest

unfoldable pub contains : ℕ → List ℕ → Bool
contains c [] = false
contains c (x ∷ xs) = x == c || contains c xs

pub cut-absent : (c : ℕ) (s : List ℕ) → contains c s ≡ false → cut c s ≡ none
unfolding cut contains
cut-absent c [] h = refl
cut-absent c (x ∷ xs) h = elim (Bool-cases (x == c)) [
  | inl here ↦ absurd (ground (arith, here, h))
  | inr there ↦ rw there (ap (prepend x) (cut-absent c xs (ground (arith, there, h))))
]

pub cut-first :
    (c : ℕ) (s rest : List ℕ) → contains c s ≡ false → cut c (s ++ c ∷ rest) ≡ some (s, rest)
unfolding cut contains
cut-first c [] rest h = rw (==_refl c) refl
cut-first c (x ∷ xs) rest h = elim (Bool-cases (x == c)) [
  | inl here ↦ absurd (ground (arith, here, h))
  | inr there ↦ rw there (ap (prepend x) (cut-first c xs rest (ground (arith, there, h))))
]

pub contains-append :
    (c : ℕ) (s t : List ℕ)
    → contains c s ≡ false
    → contains c t ≡ false
    → contains c (s ++ t) ≡ false
unfolding contains
contains-append c [] t hs ht = ht
contains-append c (x ∷ xs) t hs ht = ground (arith, hs, contains-append c xs t, ht)

pub strip_comment-absent : (s : List ℕ) → contains b'#' s ≡ false → strip_comment s ≡ s
unfolding strip_comment
strip_comment-absent s h = ap (front_or s) (cut-absent b'#' s h)

pub lines-append :
    (l rest : List ℕ) → contains b'\n' l ≡ false → lines (l ++ b'\n' ∷ rest) ≡ l ∷ lines rest
unfolding lines contains
lines-append [] rest h = refl
lines-append (x ∷ xs) rest h = elim (Bool-cases (x == b'\n')) [
  | inl here ↦ absurd (ground (arith, here, h))
  | inr there ↦ rw there (ap (on_line x) (lines-append xs rest (ground (arith, there, h))))
]
