-- ===== src/Common/Session/Admission.antt =====
-- SessionManager::runHost, the host's clients: admission by a handshake, the thread that initialises
-- a client, and the timeout. An address is the number of its string. Each function is what the code
-- does under one hold of its mutexes; `Limit` interleaves them.
pub mod Limit
mod Tests
use remote_play.Prelude.{
  ℕ, ◌+◌, ◌-◌, ◌/◌, List, [], ◌∷◌, ◌++◌, Bool, true, false, Option, none, some, not, ◌&&◌, ◌||◌,
  ltb, leb, ◌==◌, if◌then◌else◌, length,
}

pub record Endpoint : Type 0 where
  pub ip : ℕ
  pub port : ℕ

-- ClientState, as far as admission and the timeout read it; times are in milliseconds.
pub record Client : Type 0 where
  pub endpoint : Endpoint
  pub session_id : ℕ
  pub last_activity : ℕ

-- An entry of initializingClients, and whether its thread has pushed its client already.
pub record Initializing : Type 0 where
  pub endpoint : Endpoint
  pub has_joined : Bool

pub record Host : Type 0 where
  pub clients : List Client
  pub initializing_clients : List Initializing

unfoldable pub is_endpoint : Endpoint → Endpoint → Bool
is_endpoint d e = d.ip == e.ip && d.port == e.port

-- The search of `clients` by address: the handshake goes on where there is none.
unfoldable pub has_client : List Client → Endpoint → Bool
has_client [] e = false
has_client (c ∷ cs) e = is_endpoint c.endpoint e || has_client cs e

-- initializingClients.count
unfoldable pub is_initializing : List Initializing → Endpoint → Bool
is_initializing [] e = false
is_initializing (i ∷ is) e = is_endpoint i.endpoint e || is_initializing is e

pub data Verdict : Type 0 where
  too_many already_initializing started : Verdict

-- The section under clientsMutex and initializingMutex.
unfoldable pub reserve : Host → Endpoint → Verdict × Host
reserve h e =
    if leb 32 (length h.clients + length h.initializing_clients)
    then (too_many, h)
    else if is_initializing h.initializing_clients e
    then (already_initializing, h)
    else (
      started,
      record h {
        initializing_clients = record { endpoint = e; has_joined = false } ∷ h.initializing_clients;
      },
    )

-- The handshake from the search on; `existing` is what the search found.
unfoldable pub shake_hands : Bool → Host → Endpoint → Option Verdict × Host
shake_hands existing h e = if existing then (none, h) else (some (reserve h e).0, (reserve h e).1)

-- The thread of `e` has pushed its client.
unfoldable pub mark_joined : List Initializing → Endpoint → List Initializing
mark_joined [] e = []
mark_joined (i ∷ is) e =
    if is_endpoint i.endpoint e && not i.has_joined
    then record i { has_joined = true } ∷ is
    else i ∷ mark_joined is e

-- Whether a thread of `e` runs that has not pushed its client.
unfoldable pub may_join : List Initializing → Endpoint → Bool
may_join [] e = false
may_join (i ∷ is) e = is_endpoint i.endpoint e && not i.has_joined || may_join is e

-- clients.push_back of the initialised client
unfoldable pub join : Host → Client → Host
join h c = record {
  clients = h.clients ++ c ∷ [];
  initializing_clients = mark_joined h.initializing_clients c.endpoint;
}

-- initializingClients.erase
unfoldable pub erase : List Initializing → Endpoint → List Initializing
erase [] e = []
erase (i ∷ is) e = if is_endpoint i.endpoint e then is else i ∷ erase is e

unfoldable pub leave : Host → Endpoint → Host
leave h e = record h { initializing_clients = erase h.initializing_clients e }

-- More than 30 whole seconds without activity.
unfoldable pub is_timed_out : ℕ → Client → Bool
is_timed_out now c = ltb 30 ((now - c.last_activity) / 1000)

-- The loop of the session timeout check.
unfoldable pub time_out : ℕ → List Client → List Client
time_out now [] = []
time_out now (c ∷ cs) = let rest = time_out now cs in if is_timed_out now c then rest else c ∷ rest

-- A datagram of the client that decrypts sets lastActivity.
unfoldable pub touch : ℕ → Endpoint → ℕ → List Client → List Client
touch now e session_id [] = []
touch now e session_id (c ∷ cs) =
    if is_endpoint c.endpoint e && c.session_id == session_id
    then record c { last_activity = now } ∷ cs
    else c ∷ touch now e session_id cs
