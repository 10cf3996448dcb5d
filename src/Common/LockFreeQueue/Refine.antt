-- ===== src/Common/LockFreeQueue/Refine.antt =====
-- The ring refines a bounded first-in first-out queue, also where its counters wrap.
use native.Mathlib.Nat.{mod-mod_of_dvd, mod-lt, mod-add-mod, mod-eq_of_lt, mod-eq-sub-mod}
use Prim.Native.Nat.{◌∣◌}
use remote_play.Prelude.{
  ℕ, zero, suc, ◌+◌, ◌-◌, ◌%◌, ◌^◌, ◌≤◌, ◌<◌, ◌≡◌, ◌≢◌, refl, sym, ap, ap₂, ◌∙◌, List, [], ◌∷◌,
  ◌++◌, Bool, true, false, Option, none, some, arith, ◌==◌, ltb, leb, if◌then◌else◌, length, u64,
  sub64, inl, inr, Bool-cases, ==_of_ne, ==_refl, ==_false→ne, ltb→lt, ltb_false→le, leb_false→lt,
}
use remote_play.Common.LockFreeQueue.{Queue, push, pop}

-- The specification: a list, oldest first, of at most `capacity` items.
module _ {ℓ} {T : Type ℓ} where
  abbrev pub enqueue : ℕ → List T → T → Bool × List T
  enqueue capacity xs x = if leb capacity (length xs) then (false, xs) else (true, xs ++ x ∷ [])

  abbrev pub dequeue : List T → Option T × List T
  dequeue [] = (none, [])
  dequeue (x ∷ xs) = (some x, xs)

  -- The `n` items from counter `h` on.
  abbrev pub window : (ℕ → T) → ℕ → ℕ → ℕ → List T
  window buffer capacity h zero = []
  window buffer capacity h (suc n) = buffer (h % capacity) ∷ window buffer capacity (u64 (h + 1)) n

  abbrev pub contents : ℕ → Queue T → List T
  contents capacity q = window q.buffer capacity q.head (sub64 q.tail q.head)

  length-window : (b : ℕ → T) (c h n : ℕ) → length (window b c h n) ≡ n
  length-window b c h zero = refl
  length-window b c h (suc n) = ap suc (length-window b c (u64 (h + 1)) n)

  pub record IsValid (capacity : ℕ) (q : Queue T) : Type 0 where
    pub head_word : q.head < 2 ^ 64
    pub tail_word : q.tail < 2 ^ 64
    pub fits : sub64 q.tail q.head ≤ capacity

-- Fewer than `c` steps on from a counter never come back to its slot.
pub slot_apart : (c h k : ℕ) → 0 < k → k < c → (h + k) % c ≢ h % c
slot_apart c h k p q e = elim (Bool-cases (ltb (h % c + k) c)) [
  | inl low ↦ absurd (omega (arith, e, mod-add-mod h c k, mod-eq_of_lt (ltb→lt _ _ low)))
  | inr high ↦ absurd (
      omega (
        arith,
        e,
        mod-add-mod h c k,
        ltb_false→le _ _ high,
        mod-lt h {m = c} (omega arith),
        mod-eq-sub-mod {n = h % c + k} {m = c} (ltb_false→le _ _ high),
        mod-eq_of_lt {n = h % c + k - c} {m = c} (omega (arith, mod-lt h {m = c} (omega arith))),
      ))
]

pub slot_of_word : (c a : ℕ) → c ∣ 2 ^ 64 → u64 a % c ≡ a % c
slot_of_word c a divides = mod-mod_of_dvd c a divides

module _ {ℓ} {T : Type ℓ} (c : ℕ) (divides : c ∣ 2 ^ 64) where
  -- Writing the slot behind a window that is not full extends the window.
  window-write :
      (b : ℕ → T) (x : T) (n h t : ℕ)
      → h < 2 ^ 64
      → n < c
      → t ≡ u64 (h + n)
      → window (λ slot. if slot == t % c then x else b slot) c h (suc n) ≡ window b c h n ++ x ∷ []
  window-write b x zero h t hw small e =
      let at : t ≡ h = omega arith in
      rw at (ap (λ (k : Bool). (if k then x else b (h % c)) ∷ []) (==_refl (h % c)))
  window-write b x (suc n) h t hw small e =
      let apart : (h % c == t % c) ≡ false = ==_of_ne (h % c) (t % c) (λ k.
        slot_apart c h (suc n) (omega arith) small
          (sym (slot_of_word c (h + suc n) divides) ∙ sym (ap (λ m. m % c) e) ∙ sym k)) in
      ap₂ ◌∷◌ (rw apart)
        (window-write b x n (u64 (h + 1)) t (omega arith) (omega arith) (omega arith))

  module _ (room : 0 < c) (word : c < 2 ^ 64) where
    -- Push of a ring of valid counters succeeds exactly when the queue that the ring holds has fewer
    -- than `capacity` items, and then appends the item to that queue; otherwise the ring is
    -- unchanged. The new ring is valid again.
    pub push-refines :
        (q : Queue T) (x : T)
        → IsValid c q
        → ((push c q x).0 ≡ (enqueue c (contents c q) x).0)
          × (contents c (push c q x).1 ≡ (enqueue c (contents c q) x).1)
          × IsValid c (push c q x).1
    unfolding push
    push-refines q x v =
        let held = length-window q.buffer c q.head (sub64 q.tail q.head) in
        elim (Bool-cases (leb c (sub64 q.tail q.head))) [
          | inl full ↦ rw (held, full) (refl, refl, v)
          | inr free ↦
              rw (held, free)
                (
                  refl,
                  rw (more free) (
                      window-write q.buffer x _ q.head q.tail v.head_word (leb_false→lt _ _ free)
                        (omega (arith, v.head_word, v.tail_word))),
                  record {
                    head_word = v.head_word;
                    tail_word = omega arith;
                    fits = rw (more free) (leb_false→lt _ _ free);
                  },
                )
        ]
      where
        more :
            leb c (sub64 q.tail q.head) ≡ false
            → sub64 (u64 (q.tail + 1)) q.head ≡ suc (sub64 q.tail q.head)
        more free = omega (arith, leb_false→lt _ _ free, v.head_word, v.tail_word)

    -- Pop of a ring of valid counters returns the oldest item of the queue that the ring holds and
    -- leaves the rest, and returns nothing exactly when that queue is empty. The new ring is valid
    -- again.
    pub pop-refines :
        (q : Queue T)
        → IsValid c q
        → ((pop c q).0 ≡ (dequeue (contents c q)).0)
          × (contents c (pop c q).1 ≡ (dequeue (contents c q)).1)
          × IsValid c (pop c q).1
    unfolding pop
    pop-refines q v = elim (Bool-cases (q.head == q.tail)) [
      | inl same ↦
          let none_held : sub64 q.tail q.head ≡ 0 = ground arith in
          rw (same, none_held) (refl, refl, v)
      | inr apart ↦
          let held : sub64 q.tail q.head ≡ suc (sub64 q.tail (u64 (q.head + 1))) =
            omega (arith, v.head_word, v.tail_word, ==_false→ne _ _ apart) in
          rw (apart, held)
            (
              refl,
              refl,
              record {
                head_word = omega arith;
                tail_word = v.tail_word;
                fits = omega (arith, v.fits, held);
              },
            )
    ]
