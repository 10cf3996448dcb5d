-- ===== src/Ai/Router/Best.antt =====
-- cpp/ai/intelligent_router.cpp: the route that is chosen.
use remote_play.Prelude.{
  ℕ, ◌≡◌, ◌≢◌, refl, sym, ap, ◌∙◌, List, [], ◌∷◌, Bool, true, false, map, arith, Bool-cases, inl,
  inr,
}
use mathlib.Core.List.{Mem, Memᴰ, Nodup, Pairwise, Perm, mem-map_of_mem, mem-cons_self, not-mem-nil}
use mathlib.Core.List.Memᴰ
use mathlib.Core.List.Perm
use mathlib.Core.Logic.{∥∥₁_elim}
use remote_play.Common.Config.{equals}
use remote_play.Ai.Floats.{Floats, IsStrictWeak, IsStrictWeak-irrefl}
use remote_play.Ai.Router.{
  RouteCandidate, RouteScore, Sort, Sorts, calculate_score, score_of, comes_before, first_with,
  rank_routes, select_best_route, select_ranked,
}

pub equals-eq : (xs ys : List ℕ) → equals xs ys ≡ true → xs ≡ ys
unfolding equals
equals-eq [] [] e = refl
equals-eq [] (y ∷ ys) e = cc
equals-eq (x ∷ xs) [] e = cc
equals-eq (x ∷ xs) (y ∷ ys) e = ground (arith, equals-eq xs ys)

pub equals_refl : (xs : List ℕ) → equals xs xs ≡ true
unfolding equals
equals_refl [] = refl
equals_refl (x ∷ xs) = ground (arith, equals_refl xs)

-- In a sorted list nothing comes before the head.
head-first {ℓ} :
    {A : Type ℓ} (before : A → A → Bool) (best y : A) (rest : List A)
    → IsStrictWeak before
    → Pairwise (λ a b. before b a ≡ false) (best ∷ rest)
    → Memᴰ y (best ∷ rest)
    → before y best ≡ false
head-first before best y rest w (Pairwise.cons h p) (Memᴰ.head e) =
    rw e (IsStrictWeak-irrefl before w best)
head-first before best y rest w (Pairwise.cons h p) (Memᴰ.tail m) = h y ∣ m ∣₁

-- Two elements of a list without a repeated key are one if they have one key.
pub same_key {ℓ κ} :
    {A : Type ℓ} {B : Type κ} (f : A → B) (xs : List A) (a b : A)
    → Nodup (map f xs)
    → Memᴰ a xs
    → Memᴰ b xs
    → f a ≡ f b
    → a ≡ b
same_key f [] a b p m m' k = elim m [ ]
same_key f (x ∷ xs) a b (Pairwise.cons h p) (Memᴰ.head e) (Memᴰ.head e') k = e ∙ sym e'
same_key f (x ∷ xs) a b (Pairwise.cons h p) (Memᴰ.head e) (Memᴰ.tail m') k =
    absurd (h (f b) ∣ Memᴰ.map f m' ∣₁ (ap f (sym e) ∙ k))
same_key f (x ∷ xs) a b (Pairwise.cons h p) (Memᴰ.tail m) (Memᴰ.head e') k =
    absurd (h (f a) ∣ Memᴰ.map f m ∣₁ (ap f (sym e') ∙ sym k))
same_key f (x ∷ xs) a b (Pairwise.cons h p) (Memᴰ.tail m) (Memᴰ.tail m') k =
    same_key f xs a b p m m' k

pub Nodup-pair {ℓ} : {A : Type ℓ} (a b : A) → a ≢ b → Nodup (a ∷ b ∷ [])
Nodup-pair a b ne =
    Pairwise.cons (λ c m. λ e. ∥∥₁_elim m (hlevel) λ d. ne (e ∙ Memᴰ.eq_of_singleton d))
      (Pairwise.cons (λ c m. absurd (not-mem-nil m)) Pairwise.nil)

module _ (F : Floats) where
  pub comes_before-IsStrictWeak : IsStrictWeak F.less → IsStrictWeak (comes_before F)
  comes_before-IsStrictWeak w = record {
    asym = λ a b. w.asym b.score a.score;
    neg_trans = λ a b c h k. w.neg_trans c.score b.score a.score k h;
  }

  pub first_with-found :
      (bid : List ℕ) (cs : List (RouteCandidate F.Float)) (o b : RouteCandidate F.Float)
      → Memᴰ b cs
      → b.id ≡ bid
      → let r = first_with F bid cs o in Memᴰ r cs × (r.id ≡ bid)
  unfolding first_with
  first_with-found bid [] o b m e = elim m [ ]
  first_with-found bid (c ∷ cs) o b m e = elim (Bool-cases (equals c.id bid)) [
    | inl here ↦ rw here (Memᴰ.head refl, equals-eq c.id bid here)
    | inr other ↦ rw other (elim (Memᴰ.cases_cons m) [
      | inl k ↦ absurd (clash k other)
      | inr m' ↦ let (m'', e') = first_with-found bid cs o b m' e in (Memᴰ.tail m'', e')
    ])
  ]
    where
      clash : b ≡ c → equals c.id bid ≡ false → ⊥
      clash k other = cc (equals_refl bid)

  -- What the ranking's head says of the candidates.
  record IsBest (best : RouteScore F.Float) (cs : List (RouteCandidate F.Float)) : Type 0 where
    there : Mem best (map (score_of F) cs)
    first :
        (c : RouteCandidate F.Float) → Mem c cs → F.less best.score (calculate_score F c) ≡ false

  -- The candidate that is chosen is one of those given, and none has a better score.
  abbrev pub IsChosen : RouteCandidate F.Float → List (RouteCandidate F.Float) → Type 0
  IsChosen r cs =
      Mem r cs
      × ((c : RouteCandidate F.Float)
          → Mem c cs
          → F.less (calculate_score F r) (calculate_score F c) ≡ false)

  IsChosen-prop :
      (r : RouteCandidate F.Float) (cs : List (RouteCandidate F.Float)) → IsProp (IsChosen r cs)
  IsChosen-prop r cs = hlevel

  ranked-IsBest :
      (cs : List (RouteCandidate F.Float)) (ranked : List (RouteScore F.Float))
      (best : RouteScore F.Float) (rest : List (RouteScore F.Float))
      → IsStrictWeak F.less
      → ranked ≡ best ∷ rest
      → Perm ranked (map (score_of F) cs)
      → Pairwise (λ a b. comes_before F b a ≡ false) ranked
      → IsBest best cs
  ranked-IsBest cs ranked best rest w e perm sorted = record {
    there = (Perm.mem_iff perm).0 (rw e mem-cons_self);
    first = λ c m.
        let ranks : Mem (score_of F c) (best ∷ rest) =
          rw (← e) ((Perm.mem_iff perm).1 (mem-map_of_mem (score_of F) m)) in
        ∥∥₁_elim ranks (hlevel) λ d.
          head-first (comes_before F) best (score_of F c) rest (comes_before-IsStrictWeak w)
            (rw e at sorted) d;
  }

  -- With one candidate for each id, the first one with the best id is the best.
  first_with-IsChosen :
      (best : RouteScore F.Float) (cs : List (RouteCandidate F.Float)) (o : RouteCandidate F.Float)
      → Nodup (map (λ (c : RouteCandidate F.Float). c.id) cs)
      → IsBest best cs
      → IsChosen (first_with F best.id cs o) cs
  first_with-IsChosen best cs o nodup v = ∥∥₁_elim v.there (IsChosen-prop _ cs) λ d.
      let (b, there, e) = Memᴰ.of_map (score_of F) cs d in
      let (found, same) = first_with-found best.id cs o b there (ap (λ s. s.id) e) in
      let it : first_with F best.id cs o ≡ b =
        same_key (λ c. c.id) cs _ b nodup found there (same ∙ sym (ap (λ s. s.id) e)) in
      (
        ∣ found ∣₁,
        λ c m.
            let score : calculate_score F (first_with F best.id cs o) ≡ best.score =
              ap (calculate_score F) it ∙ ap (λ s. s.score) e in
            rw score (v.first c m),
      )

  module _ (sort : Sort (RouteScore F.Float)) where
    ranked-cases :
        (c : RouteCandidate F.Float) (cs : List (RouteCandidate F.Float))
        (ranked : List (RouteScore F.Float))
        → rank_routes F sort (c ∷ cs) ≡ ranked
        → Sorts sort
        → IsStrictWeak F.less
        → Nodup (map (λ (c : RouteCandidate F.Float). c.id) (c ∷ cs))
        → IsChosen (select_ranked F ranked c cs) (c ∷ cs)
    unfolding rank_routes
    ranked-cases c cs [] e laws w nodup =
        let all : Mem (score_of F c) [] = rw (← e) (
          (Perm.mem_iff (laws.perm (comes_before F) (map (score_of F) (c ∷ cs)))).1
            mem-cons_self) in
        absurd (not-mem-nil all)
    ranked-cases c cs (best ∷ rest) e laws w nodup = first_with-IsChosen best (c ∷ cs) c nodup (
        ranked-IsBest (c ∷ cs) _ best rest w e (laws.perm (comes_before F) _)
          (laws.ordered (comes_before F) _ (comes_before-IsStrictWeak w)))

    -- Of candidates with one id each, SelectBestRoute returns one that none of them beats, where
    -- std::sort permutes and orders as the standard says, and the order of the scores is a strict weak
    -- order, so that none is a NaN.
    pub select_best_route-IsChosen :
        (c : RouteCandidate F.Float) (cs : List (RouteCandidate F.Float))
        → Sorts sort
        → IsStrictWeak F.less
        → Nodup (map (λ (c : RouteCandidate F.Float). c.id) (c ∷ cs))
        → IsChosen (select_best_route F sort (c ∷ cs)) (c ∷ cs)
    unfolding select_best_route
    select_best_route-IsChosen c cs laws w nodup = ranked-cases c cs _ refl laws w nodup
