-- ===== src/Common/Session/Routing.antt =====
-- SessionManager::runClient, where it asks the router: attemptHandshake, which probes every candidate,
-- and the path that the main loop looks at again before it sends feedback. What is sent is noted by
-- its kind and its destination.
pub mod Probed
pub mod Switched
mod Tests
use remote_play.Prelude.{ℕ, List, [], ◌∷◌, ◌++◌, ◌==◌, map, if◌then◌else◌}
use remote_play.Prelude.Int.{pos}
use remote_play.Common.Config.{equals}
use remote_play.Ai.Floats.{Floats}
use remote_play.Ai.Router.{
  RouteCandidate, RouteScore, Sort, rank_routes, select_best_route, should_switch_route,
}

-- SessionManager::ConnectivityCandidate
pub record ConnectivityCandidate : Type 0 where
  pub ip : List ℕ
  pub port : ℕ
  pub priority : ℕ

pub data Sent : Type 0 where
  handshake_to : List ℕ → ℕ → Sent
  candidate_to : List ℕ → ℕ → Sent

-- Handshake and hole punch for one candidate.
abbrev pub probe_candidate : ConnectivityCandidate → List Sent
probe_candidate c = handshake_to c.ip c.port ∷ candidate_to c.ip c.port ∷ []

-- The loop over the candidates for one score.
unfoldable pub probe_score : List ℕ → List ConnectivityCandidate → List Sent
probe_score id [] = []
probe_score id (c ∷ cs) =
    let rest = probe_score id cs in if equals c.ip id then probe_candidate c ++ rest else rest

-- `"current"`
abbrev pub current_id : List ℕ
current_id = b'c' ∷ b'u' ∷ b'r' ∷ b'r' ∷ b'e' ∷ b'n' ∷ b't' ∷ []

-- The locals currentHostIp and currentHostPort.
pub record PathToHost : Type 0 where
  pub current_host_ip : List ℕ
  pub current_host_port : ℕ

module _ (F : Floats) where
  -- The candidate as attemptHandshake gives it to the router: its latency goes by its priority.
  unfoldable pub ai_candidate : ConnectivityCandidate → RouteCandidate F.Float
  ai_candidate c = record {
    id = c.ip;
    ip = c.ip;
    port = c.port;
    measured_latency_ms =
        if c.priority == 0
        then F.decimal 50 0
        else if c.priority == 1
        then F.decimal 100 0
        else F.decimal 200 0;
    packet_loss = F.of_int (pos 0);
    regional_load = pos 0;
    stability_trend = F.decimal 0 0;
  }

  unfoldable pub probe_ranked : List (RouteScore F.Float) → List ConnectivityCandidate → List Sent
  probe_ranked [] candidates = []
  probe_ranked (s ∷ ss) candidates = probe_score s.id candidates ++ probe_ranked ss candidates

  unfoldable pub attempt_handshake :
      Sort (RouteScore F.Float) → List ℕ → List ConnectivityCandidate → List Sent
  attempt_handshake sort host_ip candidates =
      handshake_to host_ip 5005
      ∷ probe_ranked (rank_routes F sort (map ai_candidate candidates)) candidates

  -- The path in use, with what the profiler measured last, and a candidate as a route.
  unfoldable pub current_route : PathToHost → F.Float → F.Float → RouteCandidate F.Float
  current_route p rtt loss = record {
    id = current_id;
    ip = p.current_host_ip;
    port = p.current_host_port;
    measured_latency_ms = rtt;
    packet_loss = loss;
    regional_load = pos 0;
    stability_trend = F.of_int (pos 0);
  }

  unfoldable pub probe_route : ConnectivityCandidate → RouteCandidate F.Float
  probe_route c = record {
    id = c.ip;
    ip = c.ip;
    port = c.port;
    measured_latency_ms = F.decimal 100 0;
    packet_loss = F.decimal 1 2;
    regional_load = pos 0;
    stability_trend = F.of_int (pos 0);
  }

  -- The candidates with another address.
  unfoldable pub other_routes : List ℕ → List ConnectivityCandidate → List (RouteCandidate F.Float)
  other_routes current_ip [] = []
  other_routes current_ip (c ∷ cs) =
      let rest = other_routes current_ip cs in
      if equals c.ip current_ip then rest else probe_route c ∷ rest

  abbrev pub switch_to : RouteCandidate F.Float → RouteCandidate F.Float → PathToHost → PathToHost
  switch_to current best p =
      if equals best.id current_id
      then p
      else if should_switch_route F current best (F.decimal 20 2)
      then record { current_host_ip = best.ip; current_host_port = best.port }
      else p

  unfoldable pub reevaluate :
      Sort (RouteScore F.Float)
      → PathToHost
      → F.Float
      → F.Float
      → List ConnectivityCandidate
      → PathToHost
  reevaluate sort p rtt loss candidates =
      let current = current_route p rtt loss in
      switch_to current
        (select_best_route F sort (current ∷ other_routes p.current_host_ip candidates)) p
