-- ===== src/Ai/InsertionSort.antt =====
-- A sort that does what the standard promises of std::sort: an instance of that parameter.
use remote_play.Prelude.{◌≡◌, List, [], ◌∷◌, Bool, false, if◌then◌else◌, Bool-cases, inl, inr}
use mathlib.Core.List.{Mem, Pairwise, Perm, not-mem-nil}
use mathlib.Core.List.Memᴰ
use mathlib.Core.List.Perm
use mathlib.Core.Logic.{∥∥₁_elim}
use remote_play.Ai.Floats.{IsStrictWeak}
use remote_play.Ai.Router.{Sorts}

module _ {A : Type 0} (before : A → A → Bool) where
  insert_sorted : A → List A → List A
  insert_sorted x [] = x ∷ []
  insert_sorted x (y ∷ ys) =
      let rest = insert_sorted x ys in if before y x then y ∷ rest else x ∷ y ∷ ys

  insert_sorted-perm : (x : A) (ys : List A) → Perm (insert_sorted x ys) (x ∷ ys)
  unfolding insert_sorted
  insert_sorted-perm x [] = Perm.rfl
  insert_sorted-perm x (y ∷ ys) = elim (Bool-cases (before y x)) [
    | inr later ↦ rw later Perm.rfl
    | inl earlier ↦
        rw earlier (Perm.trans (Perm.cons y (insert_sorted-perm x ys)) (Perm.swap x y ys))
  ]

  abbrev IsAhead : A → A → Type 0
  IsAhead a b = before b a ≡ false

  -- The head of a sorted list, with one more element ahead of it or behind it.
  ahead_of_inserted :
      (x y : A) (ys : List A)
      → before x y ≡ false
      → ((a : A) → Mem a ys → before a y ≡ false)
      → (a : A) → Mem a (insert_sorted x ys)
      → before a y ≡ false
  ahead_of_inserted x y ys e h a m =
      ∥∥₁_elim ((Perm.mem_iff (insert_sorted-perm x ys)).0 m) (hlevel)
        λ d. elim (Memᴰ.cases_cons d) [ inl same ↦ rw same e | inr later ↦ h a ∣ later ∣₁ ]

  ahead_of_cons :
      IsStrictWeak before
      → (x y : A) (ys : List A) → before y x ≡ false
      → ((a : A) → Mem a ys → before a y ≡ false)
      → (a : A) → Mem a (y ∷ ys)
      → before a x ≡ false
  ahead_of_cons w x y ys e h a m = ∥∥₁_elim m (hlevel) λ d. elim (Memᴰ.cases_cons d) [
    | inl same ↦ rw same e
    | inr later ↦ w.neg_trans x y a e (h a ∣ later ∣₁)
  ]

  insert_sorted-ordered :
      IsStrictWeak before
      → (x : A) (ys : List A) → Pairwise IsAhead ys
      → Pairwise IsAhead (insert_sorted x ys)
  unfolding insert_sorted
  insert_sorted-ordered w x [] p = Pairwise.cons (λ a m. absurd (not-mem-nil m)) Pairwise.nil
  insert_sorted-ordered w x (y ∷ ys) (Pairwise.cons h p) = elim (Bool-cases (before y x)) [
    | inl earlier ↦ rw earlier (
        Pairwise.cons (ahead_of_inserted x y ys (w.asym y x earlier) h)
          (insert_sorted-ordered w x ys p))
    | inr later ↦ rw later (Pairwise.cons (ahead_of_cons w x y ys later h) (Pairwise.cons h p))
  ]

  unfoldable pub insertion_sort : List A → List A
  unfolding insert_sorted
  insertion_sort [] = []
  insertion_sort (x ∷ xs) = insert_sorted x (insertion_sort xs)

  insertion_sort-perm : (xs : List A) → Perm (insertion_sort xs) xs
  unfolding insertion_sort
  insertion_sort-perm [] = Perm.rfl
  insertion_sort-perm (x ∷ xs) =
      Perm.trans (insert_sorted-perm x (insertion_sort xs)) (Perm.cons x (insertion_sort-perm xs))

  insertion_sort-ordered :
      IsStrictWeak before → (xs : List A) → Pairwise IsAhead (insertion_sort xs)
  unfolding insertion_sort
  insertion_sort-ordered w [] = Pairwise.nil
  insertion_sort-ordered w (x ∷ xs) =
      insert_sorted-ordered w x (insertion_sort xs) (insertion_sort-ordered w xs)

pub insertion_sort-Sorts : {A : Type 0} → Sorts {A = A} insertion_sort
insertion_sort-Sorts = record {
  perm = insertion_sort-perm;
  ordered = λ before xs w. insertion_sort-ordered before w xs;
}
