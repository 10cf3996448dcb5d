-- ===== src/Common/Session/Packetizer.antt =====
-- SessionManager::runHost, the packetizer thread: an encoded frame is cut into fragments, and each is
-- put behind a video header, encrypted, and put behind a secure header. The cipher is a parameter: a
-- build with libsodium calls it. The host's counters are atomic; no other thread takes part here.
pub mod Halt
pub mod Envelope
pub mod Sealed
pub mod Slices
pub mod Arrivals
pub mod Opening
pub mod Rebuilt
mod Tests
use remote_play.Prelude.{
  ℕ, zero, suc, ◌+◌, ◌-◌, ◌*◌, ◌/◌, min, List, [], ◌∷◌, ◌++◌, Bool, true, false, Option, none, some,
  leb, if◌then◌else◌, length, take, drop, u16, u32, u64,
}
use remote_play.Common.FixedRing
use remote_play.Common.Session.HostHandler.{CachedPacket, cache_index}
use remote_play.Common.Protocol.{
  PacketType, packet_code, VideoHeader, write_video_header, max_udp_payload,
}
use remote_play.Common.Protocol.Handshake.{SecureHeader, write_secure_header}

-- Host::EncodedPacket; `packet` is the packet's identity, and `bytes` are the first `size` ones of its
-- data.
pub record EncodedPacket : Type 0 where
  pub packet : ℕ
  pub bytes : List ℕ
  pub capture_timestamp : ℕ
  pub encode_start_timestamp : ℕ
  pub encode_end_timestamp : ℕ
  pub is_keyframe : Bool
  pub is_hevc : Bool

-- What the thread reads and writes of the client and of the host's context: a pool is the identities
-- of its free packets.
pub record Sender : Type 0 where
  pub session_id : ℕ
  pub tx_key : List ℕ
  pub frame_id : ℕ
  pub send_sequence_number : ℕ
  pub global_packet_sequence : ℕ  -- uint32_t
  pub udp_pool : List ℕ
  pub packet_pool : List ℕ
  pub packet_cache : ℕ → CachedPacket  -- 512 slots
  pub send_queue : List (ℕ × List ℕ)  -- at most 4096 packets with their bytes

-- (size + MAX_UDP_PAYLOAD - 1) / MAX_UDP_PAYLOAD, as a `uint16_t`
unfoldable pub total_fragments : EncodedPacket → ℕ
total_fragments e = u16 ((length e.bytes + max_udp_payload - 1) / max_udp_payload)

abbrev pub slice_size : EncodedPacket → ℕ → ℕ
slice_size e i = min max_udp_payload (u32 (length e.bytes - i * max_udp_payload))

unfoldable pub fragment_header : EncodedPacket → ℕ → ℕ → ℕ → VideoHeader
fragment_header e frame_id i packet_sequence = record {
  type = packet_code PacketType.video;
  frame_id = frame_id;
  fragment_index = i;
  total_fragments = total_fragments e;
  packet_sequence = packet_sequence;
  capture_timestamp = e.capture_timestamp;
  encode_start_timestamp = e.encode_start_timestamp;
  encode_end_timestamp = e.encode_end_timestamp;
  flags = (if e.is_keyframe then 1 else 0) + (if e.is_hevc then 2 else 0);
  data_size = slice_size e i;
}

-- The memcpy of the fragment's bytes.
unfoldable pub slice : EncodedPacket → ℕ → List ℕ
slice e i = take (slice_size e i) (drop (i * max_udp_payload) e.bytes)

-- The packet before it is encrypted.
unfoldable pub plain_fragment : EncodedPacket → ℕ → ℕ → ℕ → List ℕ
plain_fragment e frame_id i packet_sequence =
    write_video_header (fragment_header e frame_id i packet_sequence) ++ slice e i

-- The secure header on the stack, with the tag that the cipher writes.
unfoldable pub envelope : ℕ → ℕ → ℕ → List ℕ → SecureHeader
envelope session_id sequence_number size tag = record {
  type = packet_code PacketType.secure;
  session_id = session_id;
  sequence_number = sequence_number;
  encrypted_size = u16 size;
  auth_tag = tag;
}

-- The secure packet, of a plain one of `size` bytes.
unfoldable pub sealed : ℕ → ℕ → ℕ → List ℕ × List ℕ → List ℕ
sealed session_id sequence_number size (ciphertext, tag) =
    write_secure_header (envelope session_id sequence_number size tag) ++ ciphertext

-- How a fragment ends: the loop goes on or breaks, or the thread reads through a null pointer.
pub data Fate : Type 0 where
  continues : Sender → Fate
  breaks : Sender → Fate
  crashes : Fate

-- What the loop around does with a fragment's fate: `go_on` or `stop`.
abbrev pub fate_then : Fate → (go_on stop : Sender → Fate) → Fate
fate_then (continues s) go_on stop = go_on s
fate_then (breaks s) go_on stop = stop s
fate_then crashes go_on stop = crashes

-- The copy to the cache of retransmissions, from what `securePkt` points to.
unfoldable pub cache_fragment : Sender → VideoHeader → Option (List ℕ) → Option Sender
cache_fragment s h none = none
cache_fragment s h (some bytes) = some (record s {
  packet_cache =
      FixedRing.insert 512 s.packet_cache (cache_index h.frame_id h.fragment_index) (record {
        bytes = bytes;
        frame_id = h.frame_id;
        fragment_index = h.fragment_index;
        occupied = true;
      });
})

-- The push to the send queue of the packet `k`. Where the queue is full the packet goes with the
-- item that was made of it, and the pool does not get it back.
unfoldable pub queue_fragment : ℕ → List ℕ → Option Sender → Fate
queue_fragment k bytes none = crashes
queue_fragment k bytes (some s) =
    if leb 4096 (length s.send_queue)
    then continues s
    else continues (record s { send_queue = s.send_queue ++ (k, bytes) ∷ [] })

-- From the encryption of the plain packet `k` into `k'` under `number` on. After a success `udpPkt` is the secure
-- packet, and `securePkt`, which was moved from, is null.
unfoldable pub finish_fragment :
    Sender → VideoHeader → ℕ → ℕ → List ℕ → ℕ → List ℕ → Option (List ℕ × List ℕ) → Fate
finish_fragment s h k k' pool number plain none = breaks (record s { udp_pool = k ∷ k' ∷ pool })
finish_fragment s h k k' pool number plain (some secured) =
    let secure_pkt : Option (List ℕ) = none in
    queue_fragment k' (sealed s.session_id number (length plain) secured)
      (cache_fragment (record s { udp_pool = k ∷ pool }) h secure_pkt)

-- ctx->packetPool.release
abbrev pub release_packet : Sender → EncodedPacket → Sender
release_packet s e = record s { packet_pool = e.packet ∷ s.packet_pool }

-- `encrypt plaintext nonce key` is the ciphertext and the tag, or none where the call fails.
module _ (encrypt : List ℕ → ℕ → List ℕ → Option (List ℕ × List ℕ)) where
  -- The body of the loop over the fragments, with the free packets of the pool.
  unfoldable pub send_fragment : Sender → EncodedPacket → ℕ → List ℕ → Fate
  send_fragment s e i [] = breaks s
  send_fragment s e i (k ∷ []) =
      breaks (record s { global_packet_sequence = u32 (s.global_packet_sequence + 1) })
  send_fragment s e i (k ∷ k' ∷ pool) =
      let h = fragment_header e s.frame_id i s.global_packet_sequence in
      let plain = plain_fragment e s.frame_id i s.global_packet_sequence in
      let counted = record s { global_packet_sequence = u32 (s.global_packet_sequence + 1) } in
      let numbered = record counted { send_sequence_number = u64 (s.send_sequence_number + 1) } in
      finish_fragment numbered h k k' pool s.send_sequence_number plain
        (encrypt plain s.send_sequence_number s.tx_key)

  -- The loop over the fragments from `i` on.
  unfoldable pub send_fragments : Sender → EncodedPacket → ℕ → ℕ → Fate
  send_fragments s e i zero = breaks s
  send_fragments s e i (suc rounds) =
      fate_then (send_fragment s e i s.udp_pool) (λ s'. send_fragments s' e (i + 1) rounds) breaks

  -- The loop over the packets that the queue held, each of which goes back to its pool, behind which the frame number is counted. Every
  -- packet has its fragments sent under the same number.
  unfoldable pub send_packets : Sender → List EncodedPacket → Fate
  send_packets s [] = breaks (record s { frame_id = u32 (s.frame_id + 1) })
  send_packets s (e ∷ es) =
      fate_then (send_fragments s e 0 (total_fragments e))
        (λ s'. send_packets (release_packet s' e) es) (λ s'. send_packets (release_packet s' e) es)
