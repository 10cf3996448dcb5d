-- ===== src/Common/Session/Datagram/Ending.antt =====
-- How the loop of the client's network thread over a datagram ends, where it ends.
use remote_play.Prelude.{ℕ, zero, suc, ◌-◌, ◌≤◌, ◌<◌, ◌≡◌, List, ◌++◌, get_or, take, drop}
use remote_play.Common.Protocol.{PacketType, packet_code}
use remote_play.Common.Protocol.Handshake.{read_secure_header, secure_header_size}
use remote_play.Common.Session.Datagram.{
  Session, Turn, stop, again, spin, crash, Outcome, finished, crashed, spinning, unfinished,
  relay_header_size,
}

-- What stands in the buffer once `k` headers of the relay were taken off, and its length.
abbrev pub unwrapped : ℕ → List ℕ → ℕ → List ℕ × ℕ
unwrapped zero buf len = (buf, len)
unwrapped (suc k) buf len =
    let rest = len - relay_header_size in
    unwrapped k (take rest (drop relay_header_size buf) ++ drop rest buf) rest

-- A whole secure header of the session that announces more bytes than the buffer has room for.
abbrev pub IsOversized : Session → List ℕ × ℕ → Type 0
IsOversized s (buf, len) =
    (secure_header_size ≤ len)
    × (get_or buf 0 0 ≡ packet_code PacketType.secure)
    × ((read_secure_header buf).session_id ≡ s.session_id)
    × (2048 < (read_secure_header buf).encrypted_size)

-- Such a header stands behind some number of headers of the relay.
abbrev pub IsStuck : Session → List ℕ → ℕ → Type 0
IsStuck s buf len = (k : ℕ) × IsOversized s (unwrapped k buf len)

-- Why a round does not end the loop.
abbrev Explains : Session → List ℕ → ℕ → Turn → Type 0
Explains s buf len (stop s') = Unit {0}
Explains s buf len (again buf' len') = IsStuck s buf' len' → IsStuck s buf len
Explains s buf len spin = IsOversized s (buf, len)
Explains s buf len crash = Unit {0}

-- What the loop promises: it finishes with a session that satisfies `P`, the program crashes, or
-- the loop goes round for ever at an oversized header.
abbrev pub Yields : (Session → Type 0) → Session → List ℕ → ℕ → Outcome → Type 0
Yields P s buf len (finished s') = P s'
Yields P s buf len crashed = Unit {0}
Yields P s buf len spinning = IsStuck s buf len
Yields P s buf len unfinished = ⊥
