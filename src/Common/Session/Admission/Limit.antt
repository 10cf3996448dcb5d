-- ===== src/Common/Session/Admission/Limit.antt =====
-- The host never serves more than 32 clients, however its threads interleave.
use remote_play.Prelude.{
  Bool, true, ℕ, ◌+◌, ◌≤◌, ◌≡◌, List, [], ◌∷◌, true, not, ◌&&◌, arith, if◌then◌else◌, length,
  length-append, Bool-cases, inl, inr,
}
use remote_play.Common.Session.Admission.{
  Endpoint, Client, Initializing, Host, is_endpoint, shake_hands, reserve, mark_joined, may_join,
  join, erase, leave, time_out, touch,
}

-- One hold of the mutexes by one of the host's threads. The search for an existing client is a hold
-- of its own, so that its answer `existing` may be out of date when the handshake goes on.
pub data Step : Host → Host → Type 0 where
  handshake : (h : Host) (existing : Bool) (e : Endpoint) → Step h (shake_hands existing h e).1
  joins :
      (h : Host) (c : Client)
      → may_join h.initializing_clients c.endpoint ≡ true
      → Step h (join h c)
  leaves : (h : Host) (e : Endpoint) → Step h (leave h e)
  expires : (h : Host) (now : ℕ) → Step h (record h { clients = time_out now h.clients })
  active :
      (h : Host) (now session_id : ℕ) (e : Endpoint)
      → Step h (record h { clients = touch now e session_id h.clients })

pub data Reachable : Host → Type 0 where
  start : Reachable (record { clients = []; initializing_clients = [] })
  next : (h h' : Host) → Reachable h → Step h h' → Reachable h'

-- The threads that have not pushed their client.
unfoldable pub starting : List Initializing → ℕ
starting [] = 0
starting (i ∷ is) = (if i.has_joined then 0 else 1) + starting is

starting-le : (is : List Initializing) → starting is ≤ length is
unfolding starting
starting-le [] = omega arith
starting-le (i ∷ is) = ground (arith, starting-le is)

mark_joined-starting :
    (is : List Initializing) (e : Endpoint)
    → may_join is e ≡ true
    → starting (mark_joined is e) + 1 ≡ starting is
unfolding starting mark_joined may_join
mark_joined-starting [] e h = absurd (ground (arith, h))
mark_joined-starting (i ∷ is) e h =
    elim (Bool-cases (is_endpoint i.endpoint e && not i.has_joined)) [
      | inl here ↦ ground (arith, here)
      | inr other ↦ ground (arith, other, h, mark_joined-starting is e)
    ]

erase-starting : (is : List Initializing) (e : Endpoint) → starting (erase is e) ≤ starting is
unfolding starting erase
erase-starting [] e = omega arith
erase-starting (i ∷ is) e = ground (arith, erase-starting is e)

time_out-length : (now : ℕ) (cs : List Client) → length (time_out now cs) ≤ length cs
unfolding time_out
time_out-length now [] = omega arith
time_out-length now (c ∷ cs) = ground (arith, time_out-length now cs)

touch-length :
    (now session_id : ℕ) (e : Endpoint) (cs : List Client)
    → length (touch now e session_id cs) ≡ length cs
unfolding touch
touch-length now session_id e [] = omega arith
touch-length now session_id e (c ∷ cs) = ground (arith, touch-length now session_id e cs)

abbrev HasRoom : Host → Type 0
HasRoom h = length h.clients + starting h.initializing_clients ≤ 32

Step-HasRoom : {h h' : Host} → Step h h' → HasRoom h → HasRoom h'
unfolding shake_hands reserve join leave starting
Step-HasRoom (handshake h existing e) room =
    ground (arith, starting-le h.initializing_clients, room)
Step-HasRoom (joins h c may) room = omega (
  arith,
  mark_joined-starting h.initializing_clients c.endpoint may,
  length-append h.clients (c ∷ []),
  room,
)
Step-HasRoom (leaves h e) room = omega (arith, erase-starting h.initializing_clients e, room)
Step-HasRoom (expires h now) room = omega (arith, time_out-length now h.clients, room)
Step-HasRoom (active h now session_id e) room =
    omega (arith, touch-length now session_id e h.clients, room)

Reachable-HasRoom : {h : Host} → Reachable h → HasRoom h
unfolding starting
Reachable-HasRoom start = omega arith
Reachable-HasRoom (next h h' r s) = Step-HasRoom s (Reachable-HasRoom r)

-- In every state that the host's threads reach, by handshakes, clients that join, initialisations
-- that end, timeouts and activity in any order, there are at most 32 clients.
pub Reachable-limit : (h : Host) → Reachable h → length h.clients ≤ 32
Reachable-limit h r = omega (arith, Reachable-HasRoom r)
