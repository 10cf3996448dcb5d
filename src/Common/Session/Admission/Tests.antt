-- ===== src/Common/Session/Admission/Tests.antt =====
-- Runs and instances of the admission of clients.
use remote_play.Prelude.{false, ◌≤◌, ◌≡◌, refl, [], ◌∷◌, length, true, map}
use remote_play.Common.Session.Admission.{
  Endpoint, Client, Host, is_endpoint, is_initializing, has_client, shake_hands, reserve,
  mark_joined, may_join, join, erase, leave, is_timed_out, time_out,
}
use remote_play.Common.Session.Admission.Limit.{
  handshake, joins, Reachable, start, next, Reachable-limit,
}

abbrev here : Endpoint
here = record { ip = 7; port = 5000 }

abbrev first : Client
first = record { endpoint = here; session_id = 11; last_activity = 0 }

abbrev second : Client
second = record { endpoint = here; session_id = 12; last_activity = 0 }

abbrev empty : Host
empty = record { clients = []; initializing_clients = [] }

abbrev asked : Host
asked = (shake_hands (has_client empty.clients here) empty here).1

abbrev served : Host
served = join asked first

asked-may_join : may_join asked.initializing_clients here ≡ true
unfolding has_client shake_hands reserve is_initializing may_join is_endpoint
asked-may_join = refl

served-Reachable : Reachable served
unfolding has_client
served-Reachable =
    next asked served (next empty asked start (handshake empty false here))
      (joins asked first asked-may_join)

Reachable-limit_example : length served.clients ≤ 32
Reachable-limit_example = Reachable-limit served served-Reachable

-- The handshake's search comes before the client joins, and its reservation after the thread has
-- left: the same address is then served twice.
abbrev served_twice : Host
served_twice =
    leave (join (shake_hands (has_client asked.clients here) (leave served here) here).1 second)
      here

two_sessions : map (λ c. c.session_id) served_twice.clients ≡ 11 ∷ 12 ∷ []
unfolding has_client shake_hands reserve is_initializing is_endpoint join mark_joined leave erase
two_sessions = refl

-- After 31 seconds without activity a client goes, not before.
idle : (time_out 31000 (first ∷ []) ≡ []) × (time_out 30999 (first ∷ []) ≡ first ∷ [])
unfolding time_out is_timed_out
idle = (refl, refl)
