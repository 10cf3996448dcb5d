-- ===== src/Common/Session/Packetizer/Arrivals.antt =====
-- A fragment of an encoded packet at the client's receiver.
use mathlib.Core.Path.{subst}
use remote_play.Prelude.{
  ℕ, ◌≤◌, ◌<◌, ◌≡◌, refl, sym, ap, ◌∙◌, Bool, true, false, not, ◌||◌, some, arith, length, ◌==◌,
  ==_iff, ==_refl, Bool-cases, inl, inr,
}
use remote_play.Client.Frame.{FrameData}
use remote_play.Client.Receiver.Fragment.{put, wants, store_fragment}
use remote_play.Client.Receiver.Fragment.Count.{IsCounted, store_fragment-IsCounted}
use remote_play.Client.Receiver.State.{Receiver, slot_of, fec_slot, put_frame}
use remote_play.Client.Receiver.Process.{
  is_group, recover_frame, try_recover, finish_frame, group_start, add_fragment,
}
use remote_play.Common.Session.Packetizer.{EncodedPacket, fragment_header, total_fragments}
use remote_play.Common.Session.Packetizer.Slices.{
  Holds, IsSliceOf, frame_room, store_fragment-Holds,
}

-- The receiver builds the packet in the frame at `p`: the fragments in `seen` have arrived, and no
-- parity packet has.
pub record Building (e : EncodedPacket) (frame_id p : ℕ) (seen : ℕ → Bool) (r : Receiver)
    : Type 0 where
  pub started : r.first_frame_received ≡ true
  pub awaited : r.next_frame_id_to_read ≤ frame_id
  pub slot : r.frame_ring (slot_of frame_id) ≡ some p
  pub no_group :
      (start : ℕ) → is_group (r.fec_ring (fec_slot frame_id start)) frame_id start ≡ false
  pub number : (r.frames p).frame_id ≡ frame_id
  pub holds : Holds e (r.frames p)
  pub counted : IsCounted (r.frames p)
  pub has : (j : ℕ) → seen j ≡ true → (r.frames p).fragment_map j ≡ true

-- The frame at `p` is marked when it has all its fragments.
abbrev pub IsMarked : ℕ → Receiver → Type 0
IsMarked p r =
    (r.frames p).fragments_received ≡ (r.frames p).total_fragments → (r.frames p).is_complete ≡ true

pub put_self : {A : Type 0} (f : ℕ → A) (i : ℕ) (v : A) → put f i v i ≡ v
put_self f i v = rw (==_refl i) refl

-- Another frame at `p` that has what arrived.
put_frame-Building :
    (e : EncodedPacket) (frame_id p : ℕ) (seen seen' : ℕ → Bool) (r : Receiver) (f : FrameData)
    (last : ℕ)
    → Building e frame_id p seen r
    → f.frame_id ≡ frame_id
    → Holds e f
    → IsCounted f
    → ((j : ℕ) → seen' j ≡ true → f.fragment_map j ≡ true)
    → Building e frame_id p seen' (record (put_frame r p f) { last_completed_frame_id = last })
put_frame-Building e frame_id p seen seen' r f last b number holds counted has =
    let at : put r.frames p f p ≡ f = put_self r.frames p f in
    record {
      started = b.started;
      awaited = b.awaited;
      slot = b.slot;
      no_group = b.no_group;
      number = ap (λ g. g.frame_id) at ∙ number;
      holds = subst (Holds e) (sym at) holds;
      counted = subst IsCounted (sym at) counted;
      has = λ j s. ap (λ g. g.fragment_map j) at ∙ has j s;
    }

mark-IsCounted :
    (f : FrameData)
    → IsCounted f
    → (f.fragments_received == f.total_fragments) ≡ true
    → IsCounted (record f { is_complete = true })
mark-IsCounted f v fully = ground arith

module _ (e : EncodedPacket) (frame_id : ℕ) where
  mark-Holds : (f : FrameData) → Holds e f → Holds e (record f { is_complete = true })
  mark-Holds f held = record {
    total = held.total;
    room = held.room;
    content = held.content;
    last = held.last;
  }

  try_recover-quiet :
      (p start : ℕ) (seen : ℕ → Bool) (r : Receiver)
      → Building e frame_id p seen r
      → try_recover r frame_id start ≡ some r
  unfolding try_recover recover_frame
  try_recover-quiet p start seen r b =
      let f = r.frames p in
      rw (b.slot, try_recover)
        (elim (Bool-cases (not (f.frame_id == frame_id) || f.is_complete)) [
          | inl skip ↦ rw skip refl
          | inr go ↦ rw go (rw (b.no_group start) refl)
        ])

  finish_frame-Building :
      (p : ℕ) (seen : ℕ → Bool) (r : Receiver)
      → Building e frame_id p seen r
      → Building e frame_id p seen (finish_frame r p frame_id)
        × IsMarked p (finish_frame r p frame_id)
  unfolding finish_frame
  finish_frame-Building p seen r b =
      let f = r.frames p in
      elim (Bool-cases (f.fragments_received == f.total_fragments)) [
        | inr partly ↦ rw partly (b, λ eq. absurd (ground (arith, partly, eq)))
        | inl fully ↦ rw fully (
          put_frame-Building e frame_id p seen seen r _ _ b b.number (mark-Holds f b.holds)
              (mark-IsCounted f b.counted fully) b.has,
          λ eq. ap (λ g. g.is_complete) (put_self r.frames p (record f { is_complete = true })),
        )
      ]

  with_seen :
      (m seen : ℕ → Bool) (i : ℕ)
      → m i ≡ true
      → ((j : ℕ) → seen j ≡ true → m j ≡ true)
      → (j : ℕ) → (i == j || seen j) ≡ true
      → m j ≡ true
  with_seen m seen i at has j s = elim (Bool-cases (i == j)) [
    | inl here ↦ ap m (sym ((==_iff i j).0 here)) ∙ at
    | inr there ↦ has j (ground arith)
  ]

  put_over :
      (m : ℕ → Bool) (i : ℕ) (seen : ℕ → Bool)
      → ((j : ℕ) → seen j ≡ true → m j ≡ true)
      → (j : ℕ) → seen j ≡ true
      → put m i true j ≡ true
  put_over m i seen has j s = ground (arith, has j s)

  pub widen :
      (p : ℕ) (seen seen' : ℕ → Bool) (r : Receiver)
      → Building e frame_id p seen r
      → ((j : ℕ) → seen' j ≡ true → (r.frames p).fragment_map j ≡ true)
      → Building e frame_id p seen' r
  widen p seen seen' r b has = record {
    started = b.started;
    awaited = b.awaited;
    slot = b.slot;
    no_group = b.no_group;
    number = b.number;
    holds = b.holds;
    counted = b.counted;
    has = has;
  }

  old-marked :
      (i packet_sequence : ℕ) (f : FrameData)
      → i < total_fragments e
      → Holds e f
      → wants (fragment_header e frame_id i packet_sequence) f ≡ false
      → f.fragment_map i ≡ true
  unfolding wants fragment_header
  old-marked i packet_sequence f hi held old = ground (arith, held.total)

  -- A fragment that comes to its frame is in the frame afterwards.
  pub add_fragment-Building :
      (i packet_sequence p : ℕ) (payload : ℕ → ℕ) (seen : ℕ → Bool) (r : Receiver)
      → length e.bytes ≤ frame_room
      → i < total_fragments e
      → IsSliceOf e i payload
      → Building e frame_id p seen r
      → ((r' : Receiver) × (add_fragment r p (fragment_header e frame_id i packet_sequence) payload
            ≡ some r')
          × Building e frame_id p (λ j. i == j || seen j) r'
          × IsMarked p r')
  unfolding add_fragment fragment_header
  add_fragment-Building i packet_sequence p payload seen r small hi sliced b =
      let f = r.frames p in
      let h = fragment_header e frame_id i packet_sequence in
      elim (Bool-cases (wants h f)) [
        | inr old ↦
            let b' =
              widen p seen (λ j. i == j || seen j) r b
                (with_seen f.fragment_map seen i (old-marked i packet_sequence f hi b.holds old)
                  b.has) in
            rw old (
              finish_frame r p frame_id,
              refl,
              (finish_frame-Building p (λ j. i == j || seen j) r b').0,
              (finish_frame-Building p (λ j. i == j || seen j) r b').1,
            )
        | inl new ↦
            let f' = store_fragment h payload f in
            let (held, map, number) =
              store_fragment-Holds e small frame_id i packet_sequence payload f hi sliced b.holds in
            let b' =
              put_frame-Building e frame_id p seen (λ j. i == j || seen j) r f'
                r.last_completed_frame_id b (number ∙ b.number) held
                (store_fragment-IsCounted h payload f new b.counted)
                (λ j s.
                  ap (λ m. m j) map
                  ∙ with_seen (put f.fragment_map i true) seen i (put_self f.fragment_map i true)
                      (put_over f.fragment_map i seen b.has) j s) in
            rw new (
              rw (try_recover-quiet p (group_start i) (λ j. i == j || seen j) (put_frame r p f') b')
                (
                  finish_frame (put_frame r p f') p frame_id,
                  refl,
                  (finish_frame-Building p (λ j. i == j || seen j) (put_frame r p f') b').0,
                  (finish_frame-Building p (λ j. i == j || seen j) (put_frame r p f') b').1,
                ))
      ]
