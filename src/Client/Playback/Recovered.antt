-- ===== src/Client/Playback/Recovered.antt =====
-- A recovery goes to the newest keyframe, and leaves the receiver and the jitter buffer in step.
use remote_play.Prelude.{
  ℕ, zero, suc, ◌+◌, ◌-◌, ◌^◌, ◌≤◌, ◌<◌, ◌≡◌, ◌⊎◌, refl, sym, ap, ◌∙◌, true, false, ◌&&◌, none,
  some, arith, ltb, leb, ◌==◌, ==_iff, ==_of_ne, ==_false→ne, if◌then◌else◌, u32, Bool-cases,
  Option-cases, inl, inr,
}
use remote_play.Client.JitterBuffer.{JitterBuffer}
use remote_play.Client.JitterBuffer
use remote_play.Client.JitterBuffer.Emptied.{IsVacant, reset-IsVacant, reset-next, reset-count}
use remote_play.Client.Receiver.State.{Receiver, slot_of, return_to_pool, memb}
use remote_play.Client.Receiver.Reading.{
  frame_at, find_latest_available_keyframe, scan_keyframes, is_keyframe_at, force_advance_to,
  discard_frame, discard_frames,
}
use remote_play.Client.Playback.{recover_keyframe}

module _ (r : Receiver) (no_wrap : r.next_frame_id_to_read + 64 ≤ 2 ^ 32) where
  -- A number that the scan keeps.
  abbrev IsHit : ℕ → Type 0
  IsHit x =
      (is_keyframe_at r x ≡ true)
      × (r.next_frame_id_to_read ≤ x)
      × (x < r.next_frame_id_to_read + 64)

  exact : (i : ℕ) → i < 64 → u32 (r.next_frame_id_to_read + i) ≡ r.next_frame_id_to_read + i
  exact i h = omega (arith, no_wrap, h)

  scan-IsHit :
      (i rounds latest : ℕ)
      → i + rounds ≤ 64
      → (latest ≡ 0) ⊎ IsHit latest
      → let x = scan_keyframes r i rounds latest in (x ≡ 0) ⊎ IsHit x
  unfolding scan_keyframes
  scan-IsHit i zero latest le h = h
  scan-IsHit i (suc rounds) latest le h =
      let fid = u32 (r.next_frame_id_to_read + i) in
      elim (Bool-cases (is_keyframe_at r fid)) [
        | inl hit ↦ rw hit (
            scan-IsHit (i + 1) rounds fid (omega (arith, le)) (
              inr (
                hit,
                omega (arith, exact i (omega (arith, le))),
                omega (arith, exact i (omega (arith, le)), le),
              )))
        | inr miss ↦ rw miss (scan-IsHit (i + 1) rounds latest (omega (arith, le)) h)
      ]

  -- What is kept only grows.
  scan-grows :
      (i rounds latest : ℕ)
      → i + rounds ≤ 64
      → latest ≤ r.next_frame_id_to_read + i
      → latest ≤ scan_keyframes r i rounds latest
  unfolding scan_keyframes
  scan-grows i zero latest le h = omega arith
  scan-grows i (suc rounds) latest le h =
      let fid = u32 (r.next_frame_id_to_read + i) in
      let at = exact i (omega (arith, le)) in
      elim (Bool-cases (is_keyframe_at r fid)) [
        | inl hit ↦ rw hit (
            omega
              (arith, at, h, scan-grows (i + 1) rounds fid (omega (arith, le)) (omega (arith, at))))
        | inr miss ↦
            rw miss (scan-grows (i + 1) rounds latest (omega (arith, le)) (omega (arith, h)))
      ]

  -- No keyframe that the scan passes is newer than what it keeps.
  scan-latest :
      (i rounds latest j : ℕ)
      → i + rounds ≤ 64
      → i ≤ j
      → j < i + rounds
      → is_keyframe_at r (r.next_frame_id_to_read + j) ≡ true
      → r.next_frame_id_to_read + j ≤ scan_keyframes r i rounds latest
  unfolding scan_keyframes
  scan-latest i zero latest j le from to hit = absurd (omega (arith, from, to))
  scan-latest i (suc rounds) latest j le from to hit =
      let fid = u32 (r.next_frame_id_to_read + i) in
      let at = exact i (omega (arith, le)) in
      elim (Bool-cases (i == j)) [
        | inl here ↦
            let same : fid ≡ r.next_frame_id_to_read + j = omega (arith, at, (==_iff i j).0 here) in
            rw (ap (is_keyframe_at r) same ∙ hit) (
              omega (
                arith,
                same,
                scan-grows (i + 1) rounds fid (omega (arith, le)) (omega (arith, at)),
              ))
        | inr there ↦
            scan-latest (i + 1) rounds (if is_keyframe_at r fid then fid else latest) j
              (omega (arith, le)) (omega (arith, from, ==_false→ne i j there)) (omega (arith, to))
              hit
      ]

-- Dropping frames touches neither the frames nor the slot of a later one.
discard_frame-other :
    (r : Receiver) (fid x : ℕ)
    → fid < x
    → x < fid + 64
    → let r' = discard_frame r fid in
      (r'.frames ≡ r.frames) × (r'.frame_ring (slot_of x) ≡ r.frame_ring (slot_of x))
unfolding discard_frame return_to_pool
discard_frame-other r fid x lt near = elim (Option-cases (frame_at r fid)) [
  | inl e ↦ rw (e, discard_frame) (refl, refl)
  | inr (p, e) ↦
      let apart = ==_of_ne (slot_of x) (slot_of fid) (λ same. omega (arith, same, lt, near)) in
      let stays = ap (λ b. if b then none else r.frame_ring (slot_of x)) apart in
      rw (e, discard_frame)
        (elim (Bool-cases (memb p r.frame_pool)) [
          | inl there ↦ rw there (refl, stays)
          | inr free ↦ rw free (refl, stays)
        ])
]

discard_frames-other :
    (r : Receiver) (fid rounds x : ℕ)
    → fid + rounds ≤ x
    → x < fid + 64
    → let r' = discard_frames r fid rounds in
      (r'.frames ≡ r.frames) × (r'.frame_ring (slot_of x) ≡ r.frame_ring (slot_of x))
unfolding discard_frames
discard_frames-other r fid zero x le near = (refl, refl)
discard_frames-other r fid (suc rounds) x le near =
    let first = discard_frame-other r fid x (omega (arith, le)) near in
    let later =
      discard_frames-other (discard_frame r fid) (fid + 1) rounds x (omega (arith, le))
        (omega (arith, near)) in
    (later.0 ∙ first.0, later.1 ∙ first.1)

frame_at-agree :
    (r r' : Receiver) (x : ℕ)
    → r'.frames ≡ r.frames
    → r'.frame_ring (slot_of x) ≡ r.frame_ring (slot_of x)
    → frame_at r' x ≡ frame_at r x
unfolding frame_at
frame_at-agree r r' x frames slot = elim (Option-cases (r.frame_ring (slot_of x))) [
  | inl e ↦ rw (slot ∙ e, frame_at) (rw (e, frame_at) refl)
  | inr (p, e) ↦
      rw (slot ∙ e, frame_at)
        (rw (e, frame_at) (ap (λ g. if (g p).frame_id == x then some p else none) frames))
]

-- Whether a keyframe stands there depends on the slot and the frames.
is_keyframe_at-agree :
    (r r' : Receiver) (x : ℕ)
    → r'.frames ≡ r.frames
    → r'.frame_ring (slot_of x) ≡ r.frame_ring (slot_of x)
    → is_keyframe_at r' x ≡ is_keyframe_at r x
unfolding is_keyframe_at
is_keyframe_at-agree r r' x frames slot =
    let same = frame_at-agree r r' x frames slot in
    elim (Option-cases (frame_at r x)) [
      | inl e ↦ rw (same ∙ e, is_keyframe_at) (rw (e, is_keyframe_at) refl)
      | inr (p, e) ↦
          rw (same ∙ e, is_keyframe_at)
            (rw (e, is_keyframe_at) (ap (λ g. (g p).is_complete && (g p).is_keyframe) frames))
    ]

force_advance_to-keyframe :
    (r : Receiver) (x : ℕ)
    → r.next_frame_id_to_read < x
    → x < r.next_frame_id_to_read + 64
    → is_keyframe_at r x ≡ true
    → let r' = force_advance_to r x in (r'.next_frame_id_to_read ≡ x) × (is_keyframe_at r' x ≡ true)
unfolding force_advance_to
force_advance_to-keyframe r x lt near hit =
    let n = r.next_frame_id_to_read in
    let ahead : leb x n ≡ false = ground arith in
    let dropped = discard_frames-other r n (x - n) x (omega (arith, lt)) near in
    rw ahead (refl, is_keyframe_at-agree r _ x dropped.0 dropped.1 ∙ hit)

-- What the network thread does between the lock holds leaves the number that is waited for, and the
-- complete keyframes that the scan could find.
pub record IsKept (r r' : Receiver) : Type 0 where
  pub next : r'.next_frame_id_to_read ≡ r.next_frame_id_to_read
  pub keyframes :
      (x : ℕ)
      → r.next_frame_id_to_read ≤ x
      → x < r.next_frame_id_to_read + 64
      → is_keyframe_at r x ≡ true
      → is_keyframe_at r' x ≡ true

-- Where a complete keyframe waits among the 63 frames behind the next one, the numbers of these do not
-- wrap, and the network thread, between the scan, the read and the advance, leaves the number of the
-- next frame and the complete keyframes, the receiver and the jitter buffer both go on with the same
-- complete keyframe, which is that one or a newer one, and the jitter buffer is empty: its counter is
-- 0 and none of its 32 slots has a frame or an occupied entry.
pub recover_keyframe-in_step :
    {D : Type 0} (r read locked : Receiver) (b : JitterBuffer D) (j : ℕ)
    → r.next_frame_id_to_read + 64 ≤ 2 ^ 32
    → 0 < j
    → j < 64
    → is_keyframe_at r (r.next_frame_id_to_read + j) ≡ true
    → read.next_frame_id_to_read ≡ r.next_frame_id_to_read
    → IsKept r locked
    → let (r', b') = recover_keyframe r read locked b in
      (r.next_frame_id_to_read + j ≤ r'.next_frame_id_to_read)
      × (is_keyframe_at r' r'.next_frame_id_to_read ≡ true)
      × (b'.next_pop_frame_id ≡ r'.next_frame_id_to_read)
      × (b'.count ≡ 0)
      × ((slot : ℕ) → slot < 32 → IsVacant b' slot)
unfolding recover_keyframe find_latest_available_keyframe
recover_keyframe-in_step r read locked b j no_wrap positive within hit same kept =
    let x = scan_keyframes r 0 64 0 in
    let newest =
      scan-latest r no_wrap 0 64 0 j (omega arith) (omega arith) (omega (arith, within)) hit in
    elim (scan-IsHit r no_wrap 0 64 0 (omega arith) (inl refl)) [
      | inl nothing ↦ absurd (omega (arith, nothing, newest, positive))
      | inr (found, from, to) ↦
          let ahead : (ltb 0 x && ltb read.next_frame_id_to_read x) ≡ true =
            ground (arith, newest, positive, same) in
          let advanced =
            force_advance_to-keyframe locked x (omega (arith, newest, positive, kept.next))
              (omega (arith, to, kept.next)) (kept.keyframes x from to found) in
          let at : (JitterBuffer.reset b x).next_pop_frame_id ≡ x = reset-next b x in
          rw ahead (
            omega (arith, advanced.0, newest),
            ap (is_keyframe_at (force_advance_to locked x)) advanced.0 ∙ advanced.1,
            at ∙ sym advanced.0,
            reset-count b x,
            reset-IsVacant b x,
          )
    ]
