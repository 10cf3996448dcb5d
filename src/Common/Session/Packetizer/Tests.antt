-- ===== src/Common/Session/Packetizer/Tests.antt =====
-- Runs and instances of the packetizer, with the stand-in cipher.
use remote_play.Prelude.{
  ℕ, ◌+◌, ◌<◌, ◌≡◌, ◌≢◌, refl, ap, List, [], ◌∷◌, ◌++◌, true, false, Option, none, some, arith,
  replicate, length, get_or,
}
use remote_play.Bits.{test_bit, set_bit, clear_bit}
use remote_play.Common.Crypto
use remote_play.Common.ClockSync
use remote_play.Client.Receiver.State.{Receiver}
use remote_play.Client.Receiver.State
use remote_play.Client.Frame.{fresh}
use remote_play.Client.Receiver.Process.{process_packet}
use remote_play.Client.Receiver.Window
use remote_play.Client.Receiver.Counting.{init-AllCounted}
use remote_play.Common.Session.Datagram.{
  Session, open_secure, byte_at, stop_or_crash, with_receiver,
}
use remote_play.Common.Session.Packetizer.{
  EncodedPacket, Sender, send_packets, fragment_header, plain_fragment, sealed, total_fragments,
}
use remote_play.Common.Session.Packetizer.Halt.{IsSilent, send_packets-IsSilent}
use remote_play.Common.Session.Packetizer.Slices.{IsSliceOf}
use remote_play.Common.Session.Packetizer.Sealed.{open_secure-sealed}
use remote_play.Common.Session.Packetizer.Opening.{Awaits}
use remote_play.Common.Session.Packetizer.Rebuilt.{
  Arrival, receive_all, IsRebuilt, AllGenuine, indices, receive_all-rebuilds,
}

-- Two fragments, of 1300 and of 3 bytes.
abbrev packet : EncodedPacket
packet = record {
  bytes = replicate 1300 7 ++ 1 ∷ 2 ∷ 3 ∷ [];
  packet = 7;
  capture_timestamp = 1000;
  encode_start_timestamp = 1100;
  encode_end_timestamp = 1200;
  is_keyframe = true;
  is_hevc = false;
}

abbrev sender : Sender
sender = record {
  session_id = 99;
  tx_key = replicate 32 0xaa;
  frame_id = 5;
  send_sequence_number = 40;
  global_packet_sequence = 70;
  udp_pool = 3 ∷ 2 ∷ 1 ∷ [];
  packet_cache = λ i. record { bytes = []; frame_id = 0; fragment_index = 0; occupied = false };
  packet_pool = [];
  send_queue = [];
}

abbrev cipher : List ℕ → ℕ → List ℕ → Option (List ℕ × List ℕ)
cipher plaintext nonce key = some (Crypto.encrypt plaintext nonce key)

send_packets-IsSilent_example : IsSilent [] (send_packets cipher sender (packet ∷ []))
send_packets-IsSilent_example = send_packets-IsSilent cipher sender (packet ∷ [])

abbrev begun : Receiver
begun = record (State.init 4) { first_frame_received = true; next_frame_id_to_read = 5 }

abbrev connected : Session
connected = record {
  session_id = 99;
  rx_key = replicate 32 0xaa;
  tx_key = replicate 32 0x55;
  receiver = begun;
  clock_sync = ClockSync.init;
  last_frame_id = 0;
  handshake_approved = true;
  handshake_rejected = false;
  current_host = (1, 5000);
  audio = [];
}

abbrev no_keys : List ℕ → Option (List ℕ × List ℕ)
no_keys public_key = none

abbrev zeros : ℕ → ℕ
zeros k = 0

total_fragments-packet : total_fragments packet ≡ 2
unfolding total_fragments
total_fragments-packet = refl

abbrev plain : List ℕ
plain = plain_fragment packet 5 1 71

-- The client's window after the number 41.
abbrev moved : Window.Window
moved = (Window.validate_sequence begun.window 41).1

taken : Window.validate_sequence begun.window 41 ≡ (true, moved)
unfolding State.init Window.init Window.validate_sequence Window.advance Window.check_bit
    Window.bit_at Window.set_at Window.clear_from Window.clear_at test_bit set_bit clear_bit
taken = refl

open_secure-sealed_example :
    (open_secure Crypto.decrypt no_keys connected
        (sealed 99 41 (length plain) (Crypto.encrypt plain 41 connected.rx_key))
        zeros
        9000
      ≡ stop_or_crash (
          with_receiver
            (record connected { receiver = record begun { window = moved } })
            (process_packet
              (record begun { window = moved })
              (fragment_header packet 5 1 71)
              (λ j. byte_at plain zeros (40 + j))
              9000)
            (fragment_header packet 5 1 71).frame_id))
    × (byte_at plain zeros (40 + 2) ≡ 3)
unfolding fragment_header total_fragments
open_secure-sealed_example =
    open_secure-sealed no_keys connected packet 5 1 71 41 zeros 9000 moved 2 (omega arith)
      (ground arith) (omega arith) (omega arith) taken (omega arith)

no_some : (p : ℕ) → (let o : Option ℕ = none in o ≢ some p)
no_some p e = cc

begun-Awaits : Awaits 5 begun
unfolding State.init fresh
begun-Awaits = record {
  started = refl;
  awaited = omega arith;
  counted = init-AllCounted 4;
  roomy = λ p. omega arith;
  no_group = λ start. refl;
  no_frame = λ p there. absurd (no_some p there);
}

abbrev first : Arrival
first = record {
  index = 0;
  packet_sequence = 70;
  payload = λ k. get_or packet.bytes k 0;
  now = 9000;
}

abbrev second : Arrival
second = record {
  index = 1;
  packet_sequence = 71;
  payload = λ k. get_or packet.bytes (1300 + k) 0;
  now = 9001;
}

first_slice : IsSliceOf packet 0 first.payload
first_slice k h = ap (λ n. get_or packet.bytes n 0) {x = k} {y = 0 + k} (omega arith)

second_slice : IsSliceOf packet 1 second.payload
second_slice k h = refl

abbrev arrivals : List Arrival
arrivals = second ∷ first ∷ second ∷ []

genuine : AllGenuine packet arrivals
genuine =
    let two = total_fragments-packet in
    (
      omega (arith, two),
      second_slice,
      (omega (arith, two), first_slice, (omega (arith, two), second_slice, tt)),
    )

covers : (i : ℕ) → i < total_fragments packet → State.memb i (indices arrivals) ≡ true
covers i h = ground (arith, total_fragments-packet)

receive_all-rebuilds_example : IsRebuilt packet 5 1302 (receive_all packet 5 begun arrivals)
receive_all-rebuilds_example =
    receive_all-rebuilds packet (omega arith) 5 begun arrivals 1302 begun-Awaits genuine covers
      (omega arith)
