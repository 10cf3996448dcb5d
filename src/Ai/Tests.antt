-- ===== src/Ai/Tests.antt =====
-- Runs and instances of cpp/ai.
use remote_play.Prelude.{◌≡◌, ◌≢◌, refl, ap, List, [], ◌∷◌, true, map, arith}
use mathlib.Core.List.{Memᴰ, Nodup}
use remote_play.Prelude.Int.{ℤ, pos, ◌+ℤ◌, ◌-ℤ◌}
use remote_play.Ai.Fixed.{fixed, ltb_ℤ-IsStrictWeak}
use remote_play.Ai.InsertionSort.{insertion_sort, insertion_sort-Sorts}
use remote_play.Ai.LatencyPredictor.{NetworkMetrics, init}
use remote_play.Ai.LatencyPredictor.Recorded.{summary, record_all, record_all-summary}
use remote_play.Ai.CloudOptimizer.{NodeStats, fits, select_optimal_node, pack}
use remote_play.Ai.CloudOptimizer.Packed.{IsPacked, select_optimal_node-IsPacked}
use remote_play.Common.Config.{equals}
use remote_play.Ai.Router.{RouteCandidate, calculate_score, select_best_route}
use remote_play.Ai.Router.Best.{Nodup-pair, IsChosen, select_best_route-IsChosen}
use remote_play.Ai.StreamEngine.{
  LatencyPrediction, StreamState, increase_bitrate, decrease_bitrate, emergency_throttle, maintain,
  analyze, adjust_bitrate, scale_resolution,
}
use remote_play.Ai.StreamEngine.Paced.{Call, IsPaced, analyze_all, analyze_all-IsPaced}

-- A route over a LAN, and one over the Internet that loses a packet in twenty.
abbrev near : RouteCandidate ℤ
near = record {
  id = b'a' ∷ [];
  ip = b'a' ∷ [];
  port = 5005;
  measured_latency_ms = pos 20000;
  packet_loss = pos 0;
  regional_load = pos 0;
  stability_trend = pos 0;
}

abbrev far : RouteCandidate ℤ
far = record near { id = b'b' ∷ []; measured_latency_ms = pos 120000; packet_loss = pos 50 }

near_score : calculate_score fixed near ≡ pos 910
unfolding calculate_score ◌+ℤ◌ ◌-ℤ◌
near_score = refl

one_id_each : Nodup (map (λ (c : RouteCandidate ℤ). c.id) (far ∷ near ∷ []))
one_id_each = Nodup-pair (b'b' ∷ []) (b'a' ∷ []) (ground arith)

select_best_route-IsChosen_example :
    IsChosen fixed (select_best_route fixed insertion_sort (far ∷ near ∷ [])) (far ∷ near ∷ [])
select_best_route-IsChosen_example =
    select_best_route-IsChosen fixed insertion_sort far (near ∷ []) insertion_sort-Sorts
      ltb_ℤ-IsStrictWeak one_id_each

-- A stream of 8 Mbit/s in 1080 lines, with a calm network and with a crowded one.
abbrev stream : StreamState ℤ
stream = record {
  current_bitrate_kbps = pos 8000;
  current_width = pos 1920;
  current_height = pos 1080;
  current_fps = pos 60;
  packet_loss = pos 0;
  rtt_ms = pos 20000;
  scene_complexity = pos 500;
}

abbrev calm : LatencyPrediction ℤ
calm = record {
  predicted_rtt_ms = pos 20000;
  predicted_jitter_ms = pos 0;
  predicted_loss_rate = pos 0;
  confidence_score = pos 1000;
}

abbrev crowded : LatencyPrediction ℤ
crowded = record calm { predicted_loss_rate = pos 50 }

abbrev broken : LatencyPrediction ℤ
broken = record calm { predicted_loss_rate = pos 200 }

abbrev calls : List (Call ℤ)
calls =
    record { stream = stream; prediction = calm; now = 2500 }
    ∷ record { stream = stream; prediction = crowded; now = 3500 }
    ∷ record { stream = stream; prediction = crowded; now = 4500 }
    ∷ record { stream = stream; prediction = broken; now = 5000 }
    ∷ record { stream = stream; prediction = calm; now = 6999 }
    ∷ []

analyze_all-calls :
    analyze_all fixed 0 calls
    ≡ (2500, increase_bitrate)
      ∷ (3500, maintain)
      ∷ (4500, decrease_bitrate)
      ∷ (5000, emergency_throttle)
      ∷ (6999, maintain)
      ∷ []
unfolding analyze_all analyze adjust_bitrate scale_resolution ◌+ℤ◌ ◌-ℤ◌
analyze_all-calls = refl

analyze_all-IsPaced_example : IsPaced (analyze_all fixed 0 calls)
analyze_all-IsPaced_example = analyze_all-IsPaced fixed 0 calls (omega arith)

abbrev reports : List (NetworkMetrics ℤ)
reports =
    record { rtt_ms = pos 20000; jitter_ms = pos 0; packet_loss_rate = pos 10; timestamp = 1000 }
    ∷ record { rtt_ms = pos 30000; jitter_ms = pos 0; packet_loss_rate = pos 0; timestamp = 2000 }
    ∷ record { rtt_ms = pos 40000; jitter_ms = pos 0; packet_loss_rate = pos 0; timestamp = 3000 }
    ∷ []

record_all-summary_example : record_all fixed (init fixed 2) reports ≡ summary fixed 2 reports
record_all-summary_example = record_all-summary fixed 2 reports (omega arith)

-- A node at half its load, a fuller one, and a full one.
abbrev half_full : NodeStats ℤ
half_full = record {
  node_id = b'h' ∷ [];
  gpu_usage = pos 500;
  vram_usage = pos 300;
  active_sessions = pos 4;
  max_sessions = pos 32;
  region_id = 1;
}

abbrev fuller : NodeStats ℤ
fuller = record half_full { node_id = b'f' ∷ []; gpu_usage = pos 700 }

abbrev full : NodeStats ℤ
full = record fuller { node_id = b'x' ∷ []; gpu_usage = pos 900; active_sessions = pos 32 }

abbrev nodes : List (NodeStats ℤ)
nodes = half_full ∷ fuller ∷ full ∷ []

select_optimal_node-nodes : select_optimal_node fixed nodes (pos 2048) ≡ b'f' ∷ []
unfolding select_optimal_node pack fits equals ◌-ℤ◌
select_optimal_node-nodes = refl

half_full_fits : fits fixed (pos 2048) half_full ≡ true
unfolding fits ◌-ℤ◌
half_full_fits = refl

nodes_named : (c : NodeStats ℤ) → Memᴰ c nodes → c.node_id ≢ []
nodes_named c (Memᴰ.head e) = λ k. cc (ap (λ (n : NodeStats ℤ). n.node_id) e)
nodes_named c (Memᴰ.tail (Memᴰ.head e)) = λ k. cc (ap (λ (n : NodeStats ℤ). n.node_id) e)
nodes_named c (Memᴰ.tail (Memᴰ.tail (Memᴰ.head e))) =
    λ k. cc (ap (λ (n : NodeStats ℤ). n.node_id) e)
nodes_named c (Memᴰ.tail (Memᴰ.tail (Memᴰ.tail m))) = elim m [ ]

select_optimal_node-IsPacked_example :
    (b : NodeStats ℤ) × IsPacked fixed (pos 2048) nodes b
    × (select_optimal_node fixed nodes (pos 2048) ≡ b.node_id)
select_optimal_node-IsPacked_example =
    select_optimal_node-IsPacked fixed (pos 2048) ltb_ℤ-IsStrictWeak nodes half_full nodes_named
      (Memᴰ.head refl) half_full_fits refl
