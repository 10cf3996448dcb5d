-- ===== src/Ai/LatencyPredictor/LastOf.antt =====
-- The last elements of a list to which one is pushed, as a deque of bounded size keeps them.
use remote_play.Prelude.{
  ℕ, zero, suc, ◌-◌, ◌≤◌, ◌<◌, ◌≡◌, refl, ap, ◌∙◌, min, List, [], ◌∷◌, map, arith, length, drop,
  length-append, length-drop,
}
use remote_play.Ai.LatencyPredictor.{push_back, pop_front}

-- The last `n` elements.
abbrev pub last_of {ℓ} : {A : Type ℓ} → ℕ → List A → List A
last_of n xs = drop (length xs - n) xs

module _ {ℓ} {A : Type ℓ} where
  drop-push :
      (k : ℕ) (xs : List A) (x : A)
      → k ≤ length xs
      → pop_front (push_back (drop k xs) x) ≡ drop (suc k) (push_back xs x)
  drop-push zero [] x h = refl
  drop-push zero (y ∷ xs) x h = refl
  drop-push (suc k) [] x h = absurd (omega arith)
  drop-push (suc k) (y ∷ xs) x h = drop-push k xs x (omega arith)

  -- There was room.
  pub last_of-room :
      (n : ℕ) (xs : List A) (x : A)
      → length xs < n
      → push_back (last_of n xs) x ≡ last_of n (push_back xs x)
  last_of-room n xs x h =
      let none_out : length xs - n ≡ 0 = omega arith in
      let none_out' : length (push_back xs x) - n ≡ 0 = omega (arith, length-append xs (x ∷ [])) in
      rw (none_out, none_out') refl

  -- There was none.
  pub last_of-full :
      (n : ℕ) (xs : List A) (x : A)
      → n ≤ length xs
      → pop_front (push_back (last_of n xs) x) ≡ last_of n (push_back xs x)
  last_of-full n xs x h =
      drop-push (length xs - n) xs x (omega arith)
      ∙ ap (λ k. drop k (push_back xs x)) {x = suc (length xs - n)}
          (omega (arith, length-append xs (x ∷ [])))

  pub length-last_of : (n : ℕ) (xs : List A) → length (last_of n xs) ≡ min n (length xs)
  length-last_of n xs = omega (arith, length-drop (length xs - n) xs)

pub length-map {ℓ κ} :
    {A : Type ℓ} {B : Type κ} (f : A → B) (xs : List A) → length (map f xs) ≡ length xs
length-map f [] = refl
length-map f (x ∷ xs) = ap suc (length-map f xs)

pub map-push {ℓ κ} :
    {A : Type ℓ} {B : Type κ} (f : A → B) (xs : List A) (x : A)
    → map f (push_back xs x) ≡ push_back (map f xs) (f x)
map-push f [] x = refl
map-push f (y ∷ xs) x = ap (◌∷◌ (f y)) (map-push f xs x)
