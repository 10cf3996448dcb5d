-- ===== src/Common/Session/SenderThread.antt =====
-- SessionManager::runHost, the sender thread: it takes packets from the send queue in batches, gives a
-- batch to the socket, and gives its packets back to the pool. The queue is its items, in order: no
-- other thread takes from it.
pub mod Emptied
mod Tests
use remote_play.Prelude.{
  ℕ, zero, suc, List, [], ◌∷◌, ◌++◌, Bool, true, false, not, ◌||◌, Option, none, some,
  if◌then◌else◌,
}

-- SessionManager::OutgoingPacket, with the packet's identity.
pub record OutgoingPacket : Type 0 where
  pub packet : ℕ
  pub bytes : List ℕ
  pub target_ip : List ℕ
  pub target_port : ℕ

-- `sent` are the batches given to SendBatch, the first one first; its result is only logged.
pub record Sending : Type 0 where
  pub send_queue : List OutgoingPacket
  pub udp_pool : List ℕ
  pub sent : List (List OutgoingPacket)

-- The loop over pop: up to `room` items, and what is left.
unfoldable pub fill_batch : ℕ → List OutgoingPacket → List OutgoingPacket × List OutgoingPacket
fill_batch zero queue = ([], queue)
fill_batch (suc room) [] = ([], [])
fill_batch (suc room) (op ∷ queue) = let (batch, rest) = fill_batch room queue in (op ∷ batch, rest)

-- The loop over release.
unfoldable pub release_all : List ℕ → List OutgoingPacket → List ℕ
release_all pool [] = pool
release_all pool (op ∷ ops) = release_all (op.packet ∷ pool) ops

-- The branches on `count > 0`.
unfoldable pub send_batch : Sending → List OutgoingPacket → List OutgoingPacket → Sending
send_batch s [] rest = record s { send_queue = rest }
send_batch s (op ∷ ops) rest = record {
  send_queue = rest;
  udp_pool = release_all s.udp_pool (op ∷ ops);
  sent = s.sent ++ (op ∷ ops) ∷ [];
}

abbrev pub max_batch : ℕ
max_batch = 64

-- The body of the loop.
unfoldable pub send_round : Sending → Sending
send_round s = let (batch, rest) = fill_batch max_batch s.send_queue in send_batch s batch rest

abbrev pub is_queue_empty : List OutgoingPacket → Bool
is_queue_empty [] = true
is_queue_empty (op ∷ ops) = false

-- The loop once m_running is false; none where the rounds are too few.
unfoldable pub send_rest : ℕ → Sending → Option Sending
send_rest zero s = none
send_rest (suc fuel) s =
    let more = send_rest fuel (send_round s) in if is_queue_empty s.send_queue then some s else more
