-- ===== src/Common/Session/Routing/Tests.antt =====
-- Runs and instances of the client's routing.
use remote_play.Prelude.{◌≡◌, refl, List, [], ◌∷◌, map, arith}
use remote_play.Prelude.Int.{pos, ◌+ℤ◌, ◌-ℤ◌}
use remote_play.Ai.Fixed.{fixed, ltb_ℤ-IsStrictWeak}
use remote_play.Common.Config.{equals}
use remote_play.Ai.Router.{
  select_best_route, rank_routes, first_with, should_switch_route, calculate_score,
}
use remote_play.Ai.Router.Best.{Nodup-pair}
use remote_play.Ai.InsertionSort.{insertion_sort, insertion_sort-Sorts}
use remote_play.Common.Session.Routing.{
  ConnectivityCandidate, PathToHost, handshake_to, attempt_handshake, reevaluate, current_route,
  other_routes, probe_route,
}
use remote_play.Common.Session.Routing.Probed.{probes, IsByScore, attempt_handshake-IsByScore}
use mathlib.Core.List.{Nodup}

abbrev relay : ConnectivityCandidate
relay = record { ip = b'r' ∷ []; port = 7000; priority = 2 }

abbrev lan : ConnectivityCandidate
lan = record { ip = b'l' ∷ []; port = 5005; priority = 0 }

two_addresses : Nodup (map (λ (c : ConnectivityCandidate). c.ip) (relay ∷ lan ∷ []))
two_addresses = Nodup-pair (b'r' ∷ []) (b'l' ∷ []) (ground arith)

attempt_handshake-IsByScore_example : ∥ (
    (ds : List ConnectivityCandidate) × IsByScore fixed (relay ∷ lan ∷ []) ds
    × (attempt_handshake fixed insertion_sort (b'h' ∷ []) (relay ∷ lan ∷ [])
        ≡ handshake_to (b'h' ∷ []) 5005 ∷ probes ds)) ∥₁
attempt_handshake-IsByScore_example =
    attempt_handshake-IsByScore fixed insertion_sort (b'h' ∷ []) (relay ∷ lan ∷ [])
      insertion_sort-Sorts ltb_ℤ-IsStrictWeak two_addresses

-- A path that takes 240 ms and loses a packet in ten.
abbrev slow_path : PathToHost
slow_path = record { current_host_ip = b'h' ∷ []; current_host_port = 5005 }

reevaluate-slow_path :
    reevaluate fixed insertion_sort slow_path (pos 240000) (pos 100) (relay ∷ lan ∷ [])
    ≡ record { current_host_ip = b'r' ∷ []; current_host_port = 7000 }
unfolding reevaluate current_route other_routes probe_route select_best_route rank_routes first_with
    should_switch_route calculate_score equals insertion_sort ◌+ℤ◌ ◌-ℤ◌
reevaluate-slow_path = refl
