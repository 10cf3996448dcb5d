-- ===== src/Client/Tests.antt =====
-- Runs and instances of cpp/client.
use remote_play.Prelude.{
  ℕ, ◌+◌, ◌*◌, ◌<◌, ◌≤◌, ◌≡◌, ◌⊎◌, refl, List, [], ◌∷◌, true, not, none, some, arith, ltb, leb,
  ◌==◌, ◌&&◌, if◌then◌else◌, take,
}
use remote_play.Bits.{test_bit, set_bit, clear_bit}
use remote_play.Common.Protocol.{VideoHeader, FecHeader, max_udp_payload}
use remote_play.Client.Frame.{FrameData, fresh}
use remote_play.Client.Receiver.Window
use remote_play.Client.Receiver.Window.Replay.{
  Distinct, Refines, accepted, accepted-Distinct, validate_sequence-Refines, init-Refines, take_new,
  Seen,
}
use remote_play.Client.Receiver.Fragment.{recover}
use remote_play.Client.Receiver.Fragment.Count.{count_set}
use remote_play.Client.Receiver.Fragment.Recovery.{Sent, HasOneLoss, padded, parity_of}
use remote_play.Client.Receiver.Fragment.Rebuild.{recover-restores}
use remote_play.Client.Receiver.State.{Receiver, init}
use remote_play.Client.Receiver.Process.{process_packet}
use remote_play.Client.Receiver.Counting.{
  AllCounted, Ensures, init-AllCounted, process_packet-AllCounted,
}
use remote_play.Client.Receiver.Owners.{IsOwned}
use remote_play.Client.Receiver.Owners.Runs.{
  Call, packet, parity, read, skip_to, give_back, Reader, start, make_all, make_all-IsOwned,
}
use remote_play.Client.Receiver.Reading.{get_next_frame, get_pending_nacks}
use remote_play.Client.Receiver.Reading.Order.{
  IsDelivered, get_next_frame-in_order, missing_from, get_pending_nacks-take,
}

abbrev arrivals : List ℕ
arrivals = 5 ∷ 3 ∷ 5 ∷ 2000 ∷ 976 ∷ 977 ∷ 977 ∷ []

accepted-arrivals : accepted Window.init arrivals ≡ 5 ∷ 3 ∷ 2000 ∷ 977 ∷ []
unfolding accepted Window.init Window.validate_sequence Window.advance Window.check_bit
    Window.clear_from Window.clear_at Window.set_at Window.bit_at test_bit set_bit clear_bit
accepted-arrivals = refl

accepted-Distinct_example : Distinct (accepted Window.init arrivals)
accepted-Distinct_example = accepted-Distinct arrivals

abbrev nothing_seen : Seen
nothing_seen = record { newest = 0; taken = [] }

validate_sequence-Refines_example :
    ((Window.validate_sequence Window.init 7).0 ≡ (take_new nothing_seen 7).0)
    × Refines (Window.validate_sequence Window.init 7).1 (take_new nothing_seen 7).1
validate_sequence-Refines_example =
    validate_sequence-Refines Window.init nothing_seen 7 init-Refines

-- Three fragments of two nines each, of which the second is lost.
abbrev nines : Sent
nines = record { bytes = λ i k. 9; size = λ i. 2 }

abbrev two_of_three : FrameData
two_of_three = record fresh {
  buffer = λ p. if leb 1300 p && ltb p 2600 then 0 else 9;
  buffer_size = 1024 * 1024;
  fragments_received = 2;
  total_fragments = 3;
  map_size = 1024;
  fragment_map = λ i. not (i == 1);
  fragment_sizes = λ i. 2;
}

abbrev parity_header : FecHeader
parity_header = record {
  type = 5;
  frame_id = 0;
  fragment_start = 0;
  fragment_count = 3;
  packet_sequence = 0;
  data_size = 2;
}

two_of_three-HasOneLoss : HasOneLoss two_of_three parity_header 0 1 nines
two_of_three-HasOneLoss = record {
  no_wrap = omega arith;
  within = omega arith;
  mapped = omega arith;
  small = omega arith;
  room = omega arith;
  from = omega arith;
  to = omega arith;
  lost = refl;
  there = λ i lo hi ne. ground arith;
  sized = λ i lo hi ne. refl;
  short = λ i lo hi. omega arith;
  held = λ i k lo hi ne inside. ground arith;
  byte = λ i k. omega arith;
}

recover-restores_example :
    let f' = recover two_of_three parity_header (parity_of nines 0 3) 0 in
    (f'.fragment_map 1 ≡ true)
    × ((k : ℕ) → k < 2 → f'.buffer (1 * max_udp_payload + k) ≡ padded nines 1 k)
    × ((p : ℕ)
        → (p < 1 * max_udp_payload) ⊎ (1 * max_udp_payload + 2 ≤ p)
        → f'.buffer p ≡ two_of_three.buffer p)
recover-restores_example =
    recover-restores two_of_three parity_header 0 1 nines two_of_three-HasOneLoss
      (parity_of nines 0 3) (λ k small. refl)

abbrev key_fragment : VideoHeader
key_fragment = record {
  type = 1;
  frame_id = 7;
  fragment_index = 0;
  total_fragments = 2;
  packet_sequence = 0;
  capture_timestamp = 0;
  encode_start_timestamp = 0;
  encode_end_timestamp = 0;
  flags = 1;
  data_size = 1300;
}

process_packet-AllCounted_example :
    Ensures AllCounted (process_packet (init 4) key_fragment (λ k. 3) 0)
process_packet-AllCounted_example =
    process_packet-AllCounted (init 4) key_fragment (λ k. 3) 0 (init-AllCounted 4)

-- A keyframe in one fragment is read, and given back; two frames on, one is in parts.
abbrev calls : List Call
calls =
    packet (record key_fragment { total_fragments = 1 }) (λ k. 3) 0
    ∷ parity parity_header (λ k. 3)
    ∷ read
    ∷ packet (record key_fragment { frame_id = 9 }) (λ k. 3) 0
    ∷ give_back 3
    ∷ skip_to 10
    ∷ packet (record key_fragment { frame_id = 11 }) (λ k. 3) 0
    ∷ packet (record key_fragment { frame_id = 75 }) (λ k. 3) 0
    ∷ []

make_all-IsOwned_example :
    (s : Reader) × (make_all calls (start 4) ≡ some s) × IsOwned s.held s.receiver
make_all-IsOwned_example = make_all-IsOwned 4 calls (omega arith) (omega arith)

-- A receiver whose next frame is complete, and the frame after it is not.
abbrev ready : Receiver
ready = record (init 4) {
  frames = λ p.
      if p == 0
      then record fresh {
        frame_id = 5;
        fragments_received = 0;
        total_fragments = 0;
        is_complete = true;
      }
      else if p == 1
      then record fresh { frame_id = 6; total_fragments = 3 }
      else fresh;
  frame_ring = λ i. if i == 5 then some 0 else if i == 6 then some 1 else none;
  next_frame_id_to_read = 5;
  first_frame_received = true;
}

ready-AllCounted : AllCounted ready
unfolding fresh count_set
ready-AllCounted p = ground arith

get_next_frame-in_order_example :
    let (o, r') = get_next_frame ready in
    ((o ≡ none) × (r' ≡ ready)) ⊎ ((p : ℕ) × (o ≡ some p) × IsDelivered ready r' p)
get_next_frame-in_order_example = get_next_frame-in_order ready ready-AllCounted

get_pending_nacks-take_example : get_pending_nacks ready ≡ take 10 (missing_from ready 0 32)
get_pending_nacks-take_example = get_pending_nacks-take ready
