-- ===== src/Common/Session/Packetizer/Opening.antt =====
-- The first fragment of an encoded packet at the client's receiver.
use mathlib.Core.Path.{subst}
use remote_play.Prelude.{
  ℕ, ◌≤◌, ◌≡◌, ◌≢◌, refl, sym, ap, ◌∙◌, List, [], ◌∷◌, true, false, some, arith, length, ◌==◌,
  ==_of_ne, Bool-cases, Option-cases, inl, inr,
}
use remote_play.Client.Frame.{fresh}
use remote_play.Client.Receiver.Fragment.{put, open_frame}
use remote_play.Client.Receiver.Fragment.Count.{IsCounted, open_frame-IsCounted}
use remote_play.Client.Receiver.Counting.{AllCounted, take_frame-AllCounted}
use remote_play.Client.Receiver.State.{
  Receiver, slot_of, fec_slot, return_to_pool, take_frame, get_from_pool, memb,
}
use remote_play.Client.Receiver.Process.{is_group, start_frame, find_frame}
use remote_play.Common.Session.Packetizer.{EncodedPacket, fragment_header}
use remote_play.Common.Session.Packetizer.Slices.{
  Holds, frame_room, open_frame-Holds, total_fragments-exact,
}
use remote_play.Common.Session.Packetizer.Arrivals.{Building, put_self}

abbrev pub AllRoomy : Receiver → Type 0
AllRoomy r = (p : ℕ) → frame_room ≤ (r.frames p).buffer_size

-- The stream has begun, the frame is not passed, and nothing of it has arrived.
pub record Awaits (frame_id : ℕ) (r : Receiver) : Type 0 where
  pub started : r.first_frame_received ≡ true
  pub awaited : r.next_frame_id_to_read ≤ frame_id
  pub counted : AllCounted r
  pub roomy : AllRoomy r
  pub no_group :
      (start : ℕ) → is_group (r.fec_ring (fec_slot frame_id start)) frame_id start ≡ false
  pub no_frame :
      (p : ℕ) → r.frame_ring (slot_of frame_id) ≡ some p → (r.frames p).frame_id ≢ frame_id

return_to_pool-Awaits :
    (frame_id p : ℕ) (r : Receiver) → Awaits frame_id r → Awaits frame_id (return_to_pool r p)
unfolding return_to_pool
return_to_pool-Awaits frame_id p r w = elim (Bool-cases (memb p r.frame_pool)) [
  | inl there ↦ rw there w
  | inr free ↦ rw free (record {
    started = w.started;
    awaited = w.awaited;
    counted = w.counted;
    roomy = w.roomy;
    no_group = w.no_group;
    no_frame = w.no_frame;
  })
]

-- The frame that is allocated where the pool is empty has room too.
fresh-AllRoomy :
    (r : Receiver)
    → AllRoomy r
    → (p : ℕ) → frame_room ≤ (put r.frames r.frame_storage fresh p).buffer_size
unfolding fresh
fresh-AllRoomy r roomy p = elim (Bool-cases (p == r.frame_storage)) [
  | inl here ↦ rw here (omega arith)
  | inr there ↦ rw there (roomy p)
]

module _ (e : EncodedPacket) (small : length e.bytes ≤ frame_room)
    (frame_id i packet_sequence now : ℕ) where
  opened_at : ℕ → Receiver → Receiver
  opened_at p r =
      let h = fragment_header e frame_id i packet_sequence in
      record r {
        frames = put r.frames p (open_frame h now (r.frames p));
        frame_ring = put r.frame_ring (slot_of h.frame_id) (some p);
      }

  few : (fragment_header e frame_id i packet_sequence).total_fragments ≤ 1024
  unfolding fragment_header
  few = omega (arith, total_fragments-exact e small)

  open_frame-number :
      (p : ℕ) (r : Receiver)
      → (open_frame (fragment_header e frame_id i packet_sequence) now (r.frames p)).frame_id
        ≡ frame_id
  unfolding open_frame fragment_header
  open_frame-number p r = refl

  -- A frame of the pool becomes the packet's, without fragments.
  opened_at-Building :
      (p : ℕ) (r : Receiver)
      → r.first_frame_received ≡ true
      → r.next_frame_id_to_read ≤ frame_id
      → AllCounted r
      → AllRoomy r
      → ((start : ℕ) → is_group (r.fec_ring (fec_slot frame_id start)) frame_id start ≡ false)
      → Building e frame_id p (λ j. false) (opened_at p r)
  unfolding opened_at fragment_header
  opened_at-Building p r started awaited counted roomy no_group =
      let h = fragment_header e frame_id i packet_sequence in
      let f = open_frame h now (r.frames p) in
      let at : put r.frames p f p ≡ f = put_self r.frames p f in
      record {
        started = started;
        awaited = awaited;
        slot = put_self r.frame_ring (slot_of frame_id) (some p);
        no_group = no_group;
        number = ap (λ g. g.frame_id) at ∙ open_frame-number p r;
        holds =
            subst (Holds e) (sym at)
              (open_frame-Holds e small frame_id i packet_sequence now (r.frames p) (roomy p));
        counted =
            subst IsCounted (sym at) (open_frame-IsCounted h now (r.frames p) few (counted p));
        has = λ j none_seen. absurd (ground (arith, none_seen));
      }

  take_frame-Building :
      (r : Receiver) (pool : List ℕ)
      → Awaits frame_id r
      → let (p, r') = take_frame r pool in Building e frame_id p (λ j. false) (opened_at p r')
  unfolding take_frame
  take_frame-Building r [] w =
      opened_at-Building r.frame_storage _ w.started w.awaited
        (take_frame-AllCounted r [] w.counted) (fresh-AllRoomy r w.roomy) w.no_group
  take_frame-Building r (p ∷ pool) w =
      opened_at-Building p _ w.started w.awaited w.counted w.roomy w.no_group

  start_frame-Building :
      (r : Receiver)
      → Awaits frame_id r
      → let (p, r') = start_frame r (fragment_header e frame_id i packet_sequence) now in
        Building e frame_id p (λ j. false) r'
  unfolding start_frame get_from_pool opened_at fragment_header
  start_frame-Building r w = take_frame-Building r r.frame_pool w

  pub find_frame-Building :
      (r : Receiver)
      → Awaits frame_id r
      → let (p, r') = find_frame r (fragment_header e frame_id i packet_sequence) now in
        Building e frame_id p (λ j. false) r'
  unfolding find_frame fragment_header
  find_frame-Building r w = elim (Option-cases (r.frame_ring (slot_of frame_id))) [
    | inl empty ↦ rw (empty, find_frame) (start_frame-Building r w)
    | inr (p, taken) ↦
        rw (taken, find_frame)
          (rw (==_of_ne (r.frames p).frame_id frame_id (w.no_frame p taken))
            (start_frame-Building (return_to_pool r p) (return_to_pool-Awaits frame_id p r w)))
  ]
