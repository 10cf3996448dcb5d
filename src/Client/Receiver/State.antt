-- ===== src/Client/Receiver/State.antt =====
-- cpp/client/receiver.hpp: the receiver's state, and the frame pool of receiver.cpp. A `FrameData*`
-- is an address of the heap `frames`; the mutex makes each operation one step.
use remote_play.Prelude.{
  ℕ, suc, ◌+◌, ◌*◌, ◌/◌, ◌%◌, List, [], ◌∷◌, Bool, false, ◌||◌, Option, none, ◌==◌, if◌then◌else◌,
  u32,
}
use remote_play.Client.Frame.{FrameData, fresh}
use remote_play.Client.Receiver.Window.{Window}
use remote_play.Client.Receiver.Window
use remote_play.Client.Receiver.Fragment.{put}
use remote_play.Common.Protocol.{FecHeader}
use remote_play.Common.PacketPool

pub record FecGroup : Type 0 where
  pub fec_header : FecHeader
  pub fec_received : Bool
  pub fec_packet : Option ℕ
  pub frame_id : ℕ

pub record Receiver : Type 0 where
  pub frames : ℕ → FrameData
  pub frame_storage : ℕ  -- how many frames were allocated: addresses are the numbers below
  pub frame_pool : List ℕ  -- the head is the back
  pub frame_ring : ℕ → Option ℕ  -- 64 slots
  pub fec_ring : ℕ → FecGroup  -- 1024 slots
  pub fec_pool : List ℕ  -- 512 packets of 1500 bytes
  pub fec_data : ℕ → ℕ → ℕ  -- the bytes of each packet
  pub last_completed_frame_id : ℕ
  pub next_frame_id_to_read : ℕ
  pub first_frame_received : Bool
  pub window : Window

abbrev pub no_header : FecHeader
no_header = record {
  type = 0;
  frame_id = 0;
  fragment_start = 0;
  fragment_count = 0;
  packet_sequence = 0;
  data_size = 0;
}

-- The constructor.
unfoldable pub init : ℕ → Receiver
init pool_size = record {
  frames = λ p. fresh;
  frame_storage = pool_size;
  frame_pool = PacketPool.init pool_size;
  frame_ring = λ i. none;
  fec_ring =
      λ i. record { fec_header = no_header; fec_received = false; fec_packet = none; frame_id = 0 };
  fec_pool = PacketPool.init 512;
  fec_data = λ k i. 0;
  last_completed_frame_id = 0;
  next_frame_id_to_read = 0;
  first_frame_received = false;
  window = Window.init;
}

abbrev pub slot_of : ℕ → ℕ
slot_of frame_id = frame_id % 64

-- (frameId * 13) + (groupStart / 5), and the slot of the FEC ring
abbrev pub fec_slot : ℕ → ℕ → ℕ
fec_slot frame_id group_start = u32 (frame_id * 13 + group_start / 5) % 1024

abbrev pub put_frame : Receiver → ℕ → FrameData → Receiver
put_frame r p f = record r { frames = put r.frames p f }

abbrev pub memb : ℕ → List ℕ → Bool
memb p [] = false
memb p (q ∷ qs) = q == p || memb p qs

-- ReturnToPoolInternalRaw on a frame; ReturnToPoolRaw is the same under the lock.
unfoldable pub return_to_pool : Receiver → ℕ → Receiver
return_to_pool r p = if memb p r.frame_pool then r else record r { frame_pool = p ∷ r.frame_pool }

-- GetFromPoolInternalRaw: where the pool is empty a new frame is allocated.
unfoldable pub take_frame : Receiver → List ℕ → ℕ × Receiver
take_frame r [] = (
  r.frame_storage,
  record r { frame_storage = suc r.frame_storage; frames = put r.frames r.frame_storage fresh },
)
take_frame r (p ∷ pool) = (p, record r { frame_pool = pool })

unfoldable pub get_from_pool : Receiver → ℕ × Receiver
get_from_pool r = take_frame r r.frame_pool
