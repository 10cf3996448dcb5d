-- ===== src/Ai/Router.antt =====
-- cpp/ai/intelligent_router.cpp: routes are scored, ranked and chosen. std::sort is a parameter; a
-- text is its bytes, and routes are told apart by the id.
pub mod Best
use remote_play.Prelude.{ℕ, ◌≡◌, List, [], ◌∷◌, Bool, false, map, if◌then◌else◌}
use remote_play.Prelude.Int.{ℤ, pos}
use remote_play.Common.Config.{equals}
use remote_play.Ai.Floats.{Floats, IsStrictWeak, max, clamp}
use mathlib.Core.List.{Perm, Pairwise}

pub record RouteCandidate (float : Type 0) : Type 0 where
  pub id : List ℕ
  pub ip : List ℕ
  pub port : ℕ
  pub measured_latency_ms : float
  pub packet_loss : float
  pub regional_load : ℤ
  pub stability_trend : float

pub record RouteScore (float : Type 0) : Type 0 where
  pub id : List ℕ
  pub score : float

-- A sort by a comparator, and what the standard promises of std::sort.
abbrev pub Sort : Type 0 → Type 0
Sort A = (A → A → Bool) → List A → List A

pub record Sorts {A : Type 0} (sort : Sort A) : Type 0 where
  pub perm : (before : A → A → Bool) (xs : List A) → Perm (sort before xs) xs
  pub ordered :
      (before : A → A → Bool) (xs : List A)
      → IsStrictWeak before
      → Pairwise (λ a b. before b a ≡ false) (sort before xs)

module _ (F : Floats) where
  -- CalculateScore
  unfoldable pub calculate_score : RouteCandidate F.Float → F.Float
  calculate_score c =
      let lat_score =
        max F (F.decimal 0 0)
          (F.minus (F.decimal 1 0) (F.divide c.measured_latency_ms (F.decimal 250 0))) in
      let loss_score =
        max F (F.decimal 0 0) (F.minus (F.decimal 1 0) (F.divide c.packet_loss (F.decimal 15 2))) in
      let stability_score =
        F.minus (F.decimal 1 0) (F.divide (F.of_int c.regional_load) (F.decimal 100 0)) in
      let trend_score =
        clamp F (F.plus (F.decimal 5 1) (F.times c.stability_trend (F.decimal 5 1))) (F.decimal 0 0)
          (F.decimal 1 0) in
      F.plus
        (F.plus (F.plus (F.times lat_score (F.decimal 5 1)) (F.times loss_score (F.decimal 3 1)))
          (F.times stability_score (F.decimal 1 1)))
        (F.times trend_score (F.decimal 1 1))

  abbrev pub score_of : RouteCandidate F.Float → RouteScore F.Float
  score_of c = record { id = c.id; score = calculate_score c }

  -- The comparator: a.score > b.score
  abbrev pub comes_before : RouteScore F.Float → RouteScore F.Float → Bool
  comes_before a b = F.less b.score a.score

  -- A candidate of the value-initialisation.
  abbrev pub no_route : RouteCandidate F.Float
  no_route = record {
    id = [];
    ip = [];
    port = 0;
    measured_latency_ms = F.decimal 0 0;
    packet_loss = F.decimal 0 0;
    regional_load = pos 0;
    stability_trend = F.decimal 0 0;
  }

  -- ShouldSwitchRoute
  unfoldable pub should_switch_route :
      RouteCandidate F.Float → RouteCandidate F.Float → F.Float → Bool
  should_switch_route current better threshold =
      F.less (F.plus (calculate_score current) threshold) (calculate_score better)

  -- The loop of SelectBestRoute over the candidates, with what it returns behind it.
  unfoldable pub first_with :
      List ℕ → List (RouteCandidate F.Float) → RouteCandidate F.Float → RouteCandidate F.Float
  first_with best_id [] otherwise = otherwise
  first_with best_id (c ∷ cs) otherwise =
      let rest = first_with best_id cs otherwise in if equals c.id best_id then c else rest

  -- From `ranked[0].id` on; an empty ranking is out of bounds there, and never is empty.
  abbrev pub select_ranked :
      List (RouteScore F.Float)
      → RouteCandidate F.Float
      → List (RouteCandidate F.Float)
      → RouteCandidate F.Float
  select_ranked [] c cs = c
  select_ranked (best ∷ rest) c cs = first_with best.id (c ∷ cs) c

  module _ (sort : Sort (RouteScore F.Float)) where
    unfoldable pub rank_routes : List (RouteCandidate F.Float) → List (RouteScore F.Float)
    rank_routes candidates = sort comes_before (map score_of candidates)

    unfoldable pub select_best_route : List (RouteCandidate F.Float) → RouteCandidate F.Float
    select_best_route [] = no_route
    select_best_route (c ∷ cs) = select_ranked (rank_routes (c ∷ cs)) c cs
