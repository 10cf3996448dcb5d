-- ===== src/Ai/CloudOptimizer.antt =====
-- cpp/ai/cloud_optimizer.cpp: the load of a region, and the node for a session. The text of a signal's
-- reason is left out.
pub mod Packed
use remote_play.Prelude.{
  ℕ, ◌+◌, List, [], ◌∷◌, ◌++◌, Bool, true, false, not, ◌&&◌, ltb, ◌==◌, if◌then◌else◌, length, drop,
}
use remote_play.Prelude.Int.{ℤ, pos, negsuc, ltb_ℤ, ◌+ℤ◌}
use remote_play.Common.Config.{equals}
use remote_play.Ai.Floats.{Floats}

pub record NodeStats (float : Type 0) : Type 0 where
  pub node_id : List ℕ
  pub gpu_usage : float
  pub vram_usage : float
  pub active_sessions : ℤ
  pub max_sessions : ℤ
  pub region_id : ℕ

pub record ScalingSignal : Type 0 where
  pub scale_up : Bool
  pub recommended_nodes : ℤ

module _ (F : Floats) where
  unfoldable pub total_gpu_load : F.Float → List (NodeStats F.Float) → F.Float
  total_gpu_load total [] = total
  total_gpu_load total (n ∷ ns) = total_gpu_load (F.plus total n.gpu_usage) ns

  -- One more average, of which the last ten are kept.
  unfoldable pub note_load : List F.Float → F.Float → List F.Float
  note_load history avg =
      if ltb 10 (length (history ++ avg ∷ []))
      then drop 1 (history ++ avg ∷ [])
      else history ++ avg ∷ []

  abbrev scaling_signal : F.Float → ℕ → ScalingSignal
  scaling_signal avg nodes =
      if F.less (F.decimal 75 2) avg
      then record {
        scale_up = true;
        recommended_nodes = F.to_int (F.times (F.of_int (pos nodes)) (F.decimal 2 1)) +ℤ pos 1;
      }
      else record { scale_up = false; recommended_nodes = pos 0 }

  -- AnalyzeRegionalLoad, on the map from a region to its history.
  unfoldable pub analyze_regional_load :
      (ℕ → List F.Float) → ℕ → List (NodeStats F.Float) → ScalingSignal × (ℕ → List F.Float)
  analyze_regional_load histories region [] =
      (record { scale_up = true; recommended_nodes = pos 1 }, histories)
  analyze_regional_load histories region (n ∷ ns) =
      let count = length (n ∷ ns) in
      let avg = F.divide (total_gpu_load (F.decimal 0 0) (n ∷ ns)) (F.of_int (pos count)) in
      (
        scaling_signal avg count,
        λ r. if r == region then note_load (histories region) avg else histories r,
      )

  -- The test of SelectOptimalNode: enough memory and a free session.
  unfoldable pub fits : ℤ → NodeStats F.Float → Bool
  fits required_vram_mb n =
      let available = F.times (F.minus (F.decimal 1 0) n.vram_usage) (F.of_int (pos 8192)) in
      not (F.less available (F.of_int required_vram_mb)) && ltb_ℤ n.active_sessions n.max_sessions

  -- The first loop: the best id so far and its load.
  unfoldable pub pack : ℤ → List (NodeStats F.Float) → List ℕ → F.Float → List ℕ × F.Float
  pack required [] best_node_id highest_load = (best_node_id, highest_load)
  pack required (n ∷ ns) best_node_id highest_load =
      let better = fits required n && F.less highest_load n.gpu_usage in
      pack required ns (if better then n.node_id else best_node_id)
        (if better then n.gpu_usage else highest_load)

  -- The second loop.
  unfoldable pub least_loaded : List (NodeStats F.Float) → List ℕ → F.Float → List ℕ
  least_loaded [] best_node_id lowest_load = best_node_id
  least_loaded (n ∷ ns) best_node_id lowest_load =
      let lower = F.less n.gpu_usage lowest_load in
      least_loaded ns (if lower then n.node_id else best_node_id)
        (if lower then n.gpu_usage else lowest_load)

  unfoldable pub select_optimal_node : List (NodeStats F.Float) → ℤ → List ℕ
  select_optimal_node nodes required_vram_mb =
      let packed = (pack required_vram_mb nodes [] (F.of_int (negsuc 0))).0 in
      if equals packed [] then least_loaded nodes packed (F.decimal 2 0) else packed

  unfoldable pub count_sessions : F.Float → List (NodeStats F.Float) → F.Float
  count_sessions total [] = total
  count_sessions total (n ∷ ns) = count_sessions (F.plus total (F.of_int n.active_sessions)) ns

  unfoldable pub count_capacity : F.Float → List (NodeStats F.Float) → F.Float
  count_capacity total [] = total
  count_capacity total (n ∷ ns) = count_capacity (F.plus total (F.of_int n.max_sessions)) ns

  unfoldable pub calculate_packing_efficiency : List (NodeStats F.Float) → F.Float
  calculate_packing_efficiency [] = F.decimal 1 0
  calculate_packing_efficiency (n ∷ ns) =
      F.divide (count_sessions (F.decimal 0 0) (n ∷ ns)) (count_capacity (F.decimal 0 0) (n ∷ ns))
