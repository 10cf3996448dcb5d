-- ===== src/Common/Session/Packetizer/Rebuilt.antt =====
-- From the packetizer to the client's receiver: a frame is put together again.
use mathlib.Core.Path.{subst}
use remote_play.Prelude.{
  ℕ, ◌+◌, ◌*◌, ◌-◌, ◌/◌, ◌%◌, ◌≤◌, ◌<◌, ◌≡◌, refl, sym, ap, ◌∙◌, List, [], ◌∷◌, Bool, true, false,
  ◌||◌, Option, none, some, arith, length, get_or, ltb, ◌==◌, ==_iff,
}
use remote_play.Client.Receiver.State.{Receiver, slot_of, memb}
use remote_play.Client.Receiver.Process.{find_frame, add_fragment, process_packet}
use remote_play.Common.Protocol.{max_udp_payload}
use remote_play.Common.Session.Packetizer.{EncodedPacket, fragment_header, total_fragments}
use remote_play.Common.Session.Packetizer.Slices.{
  IsSliceOf, frame_room, count_set-all, total_fragments-exact,
}
use remote_play.Common.Session.Packetizer.Arrivals.{
  Building, IsMarked, widen, add_fragment-Building,
}
use remote_play.Common.Session.Packetizer.Opening.{Awaits, find_frame-Building}

-- A fragment that arrives: its index, its number among all packets, what stands behind its header,
-- and the time.
pub record Arrival : Type 0 where
  pub index : ℕ
  pub packet_sequence : ℕ
  pub payload : ℕ → ℕ
  pub now : ℕ

abbrev pub then_process : (Receiver → Option Receiver) → Option Receiver → Option Receiver
then_process f none = none
then_process f (some r) = f r

-- The fragments of a frame reach the receiver one after the other.
unfoldable pub receive_all : EncodedPacket → ℕ → Receiver → List Arrival → Option Receiver
receive_all e frame_id r [] = some r
receive_all e frame_id r (a ∷ later) =
    let first =
      process_packet r (fragment_header e frame_id a.index a.packet_sequence) a.payload a.now in
    then_process (λ r'. receive_all e frame_id r' later) first

abbrev pub indices : List Arrival → List ℕ
indices [] = []
indices (a ∷ later) = a.index ∷ indices later

-- Every arrival is a fragment of the packet, with the packet's bytes.
abbrev pub AllGenuine : EncodedPacket → List Arrival → Type 0
AllGenuine e [] = Unit {0}
AllGenuine e (a ∷ later) =
    (a.index < total_fragments e) × IsSliceOf e a.index a.payload × AllGenuine e later

split : (k : ℕ) → k ≡ k / 1300 * 1300 + k % 1300
split k = omega arith

-- The frame is in the ring, complete, of the packet's size, and has the packet's byte at `k`.
abbrev pub IsRebuilt : EncodedPacket → ℕ → ℕ → Option Receiver → Type 0
IsRebuilt e frame_id k none = ⊥
IsRebuilt e frame_id k (some r) =
    (p : ℕ) × (r.frame_ring (slot_of frame_id) ≡ some p)
    × ((r.frames p).frame_id ≡ frame_id)
    × ((r.frames p).is_complete ≡ true)
    × ((r.frames p).total_size ≡ length e.bytes)
    × ((r.frames p).buffer k ≡ get_or e.bytes k 0)

or_swap : (x y z : Bool) → (x || y || z) ≡ true → (y || (x || z)) ≡ true
or_swap true true z h = refl
or_swap true false z h = refl
or_swap false true z h = refl
or_swap false false z h = h

or_none : (x y : Bool) → (x || y) ≡ true → (y || (x || false)) ≡ true
or_none true true h = refl
or_none true false h = refl
or_none false true h = refl
or_none false false h = h

module _ (e : EncodedPacket) (small : length e.bytes ≤ frame_room) (frame_id : ℕ) where
  in_time :
      (r : Receiver)
      → r.next_frame_id_to_read ≤ frame_id
      → ltb frame_id r.next_frame_id_to_read ≡ false
  in_time r awaited = ground arith

  sound :
      (i packet_sequence : ℕ)
      → let h = fragment_header e frame_id i packet_sequence in
        (ltb 1024 h.total_fragments || ltb max_udp_payload h.data_size) ≡ false
  unfolding fragment_header
  sound i packet_sequence = ground (arith, total_fragments-exact e small)

  -- ProcessPacket gets as far as the frame.
  process_packet-awaited :
      (r : Receiver) (i packet_sequence now : ℕ) (payload : ℕ → ℕ)
      → r.first_frame_received ≡ true
      → r.next_frame_id_to_read ≤ frame_id
      → let h = fragment_header e frame_id i packet_sequence in
        let (p, r') = find_frame r h now in
        process_packet r h payload now ≡ add_fragment r' p h payload
  unfolding process_packet fragment_header
  process_packet-awaited r i packet_sequence now payload started awaited =
      rw started (rw (in_time r awaited) (rw (sound i packet_sequence) refl))

  known :
      (p : ℕ) (seen : ℕ → Bool) (r : Receiver) (i packet_sequence now : ℕ)
      → Building e frame_id p seen r
      → find_frame r (fragment_header e frame_id i packet_sequence) now ≡ (p, r)
  unfolding find_frame fragment_header
  known p seen r i packet_sequence now b =
      rw (b.slot, find_frame) (rw ((==_iff (r.frames p).frame_id frame_id).1 b.number) refl)

  -- One more arrival.
  process_packet-Building :
      (p : ℕ) (seen : ℕ → Bool) (r r' : Receiver) (a : Arrival)
      → r'.first_frame_received ≡ true
      → r'.next_frame_id_to_read ≤ frame_id
      → find_frame r' (fragment_header e frame_id a.index a.packet_sequence) a.now ≡ (p, r)
      → Building e frame_id p seen r
      → a.index < total_fragments e
      → IsSliceOf e a.index a.payload
      → ((r'' : Receiver) × (process_packet r'
              (fragment_header e frame_id a.index a.packet_sequence)
              a.payload
              a.now
            ≡ some r'')
          × Building e frame_id p (λ j. a.index == j || seen j) r''
          × IsMarked p r'')
  process_packet-Building p seen r r' a started awaited found b hi sliced =
      let added =
        add_fragment-Building e frame_id a.index a.packet_sequence p a.payload seen r small hi
          sliced b in
      let h = fragment_header e frame_id a.index a.packet_sequence in
      (
        added.0,
        process_packet-awaited r' a.index a.packet_sequence a.now a.payload started awaited
            ∙ ap (λ q. add_fragment q.1 q.0 h a.payload) found
            ∙ added.1,
        added.2,
        added.3,
      )

  receive_all-Building :
      (p : ℕ) (seen : ℕ → Bool) (r : Receiver) (later : List Arrival)
      → Building e frame_id p seen r
      → IsMarked p r
      → AllGenuine e later
      → ((r' : Receiver) × (receive_all e frame_id r later ≡ some r')
          × Building e frame_id p (λ j. memb j (indices later) || seen j) r'
          × IsMarked p r')
  unfolding receive_all
  receive_all-Building p seen r [] b marked genuine = (r, refl, b, marked)
  receive_all-Building p seen r (a ∷ later) b marked (hi, sliced, genuine) =
      let (r1, e1, b1, m1) =
        process_packet-Building p seen r r a b.started b.awaited
          (known p seen r a.index a.packet_sequence a.now b) b hi sliced in
      let (r2, e2, b2, m2) =
        receive_all-Building p (λ j. a.index == j || seen j) r1 later b1 m1 genuine in
      (
        r2,
        ap (then_process (λ x. receive_all e frame_id x later)) e1 ∙ e2,
        widen e frame_id p _ (λ j. memb j (indices (a ∷ later)) || seen j) r2 b2
            (λ j s. b2.has j (or_swap (a.index == j) (memb j (indices later)) (seen j) s)),
        m2,
      )

  -- All the packet's fragments are there: the frame is marked, and is the packet.
  built-whole :
      (p : ℕ) (seen : ℕ → Bool) (r : Receiver) (k : ℕ)
      → 0 < length e.bytes
      → ((i : ℕ) → i < total_fragments e → seen i ≡ true)
      → k < length e.bytes
      → Building e frame_id p seen r
      → IsMarked p r
      → IsRebuilt e frame_id k (some r)
  built-whole p seen r k positive covers hk b marked =
      let f = r.frames p in
      let total = total_fragments-exact e small in
      let there : (i : ℕ) → i < total_fragments e → f.fragment_map i ≡ true =
        λ i hi. b.has i (covers i hi) in
      let last = total_fragments e - 1 in
      (
        p,
        b.slot,
        b.number,
        marked (
            b.counted.counted
            ∙ count_set-all f.fragment_map f.total_fragments
                (λ i hi. there i (omega (arith, hi, b.holds.total)))),
        b.holds.last last (omega (arith, total)) (there last (omega (arith, total))),
        ap f.buffer (split k)
            ∙ b.holds.content (k / 1300) (there (k / 1300) (omega (arith, total))) (k % 1300)
                (omega arith)
            ∙ ap (λ n. get_or e.bytes n 0) (sym (split k)),
      )

  -- The fragments that the packetizer makes of an encoded packet of at most 2^20 bytes arrive in any
  -- order, some of them more than once, at a receiver that awaits their frame, and no parity packet
  -- does. When all of them have come, the frame is in the ring, is complete, has the packet's size,
  -- and has at `k`, any place below the size, the packet's byte.
  pub receive_all-rebuilds :
      (r : Receiver) (arrivals : List Arrival) (k : ℕ)
      → Awaits frame_id r
      → AllGenuine e arrivals
      → ((i : ℕ) → i < total_fragments e → memb i (indices arrivals) ≡ true)
      → k < length e.bytes
      → IsRebuilt e frame_id k (receive_all e frame_id r arrivals)
  unfolding receive_all
  receive_all-rebuilds r [] k w genuine covers hk =
      absurd (ground (arith, covers 0, total_fragments-exact e small))
  receive_all-rebuilds r (a ∷ later) k w (hi, sliced, genuine) covers hk =
      let b = find_frame-Building e small frame_id a.index a.packet_sequence a.now r w in
      let (r1, e1, b1, m1) =
        process_packet-Building _ (λ j. false) _ r a w.started w.awaited refl b hi sliced in
      let (r2, e2, b2, m2) =
        receive_all-Building _ (λ j. a.index == j || false) r1 later b1 m1 genuine in
      subst (IsRebuilt e frame_id k)
        (sym (ap (then_process (λ x. receive_all e frame_id x later)) e1 ∙ e2))
        (built-whole _ _ r2 k (omega arith)
          (λ i h. or_none (a.index == i) (memb i (indices later)) (covers i h)) hk b2 m2)
