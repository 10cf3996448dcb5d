-- ===== src/Client/Receiver/Window/Replay.antt =====
-- What the replay window promises: it answers like a filter that remembers every number it took.
use remote_play.Prelude.{
  ℕ, ◌+◌, ◌-◌, ◌≤◌, ◌<◌, ◌≡◌, ◌⊎◌, refl, sym, ap, ap₂, ◌∙◌, List, [], ◌∷◌, Bool, true, false, ◌||◌,
  arith, ◌==◌, ltb, leb, if◌then◌else◌, length, length-replicate, Bool-cases, inl, inr, ltb→lt,
  leb→le, ltb_false→le, leb_false→lt,
}
use remote_play.Client.Receiver.Window.{
  Window, window_size, init, bit_at, set_at, advance, check_bit, validate_sequence, validate_all,
}
use remote_play.Client.Receiver.Window.Bitmap.{
  length-set_at, length-clear_from, bit_at-set_same, bit_at-set_other, bit_at-replicate,
  bit_at-clear_from, bit_at-clear_from_below,
}

abbrev pub memb : ℕ → List ℕ → Bool
memb s [] = false
memb s (x ∷ xs) = s == x || memb s xs

abbrev pub Distinct : List ℕ → Type 0
Distinct [] = Unit {0}
Distinct (x ∷ xs) = (memb x xs ≡ false) × Distinct xs

-- The specification keeps the newest number and all the numbers taken.
pub record Seen : Type 0 where
  pub newest : ℕ
  pub taken : List ℕ

remember : Seen → ℕ → Bool × Seen
remember a s = if memb s a.taken then (false, a) else (true, record a { taken = s ∷ a.taken })

unfoldable pub take_new : Seen → ℕ → Bool × Seen
unfolding remember
take_new a s =
    if ltb a.newest s
    then (true, record { newest = s; taken = s ∷ a.taken })
    else if leb window_size (a.newest - s)
    then (false, a)
    else remember a s

unfoldable pub take_all : Seen → List ℕ → List Bool
take_all a [] = []
take_all a (s ∷ ss) = let (b, a') = take_new a s in b ∷ take_all a' ss

pub record Refines (w : Window) (a : Seen) : Type 0 where
  pub full : length w.sequence_window ≡ 16
  pub same_newest : w.max_sequence_received ≡ a.newest
  pub below : (s : ℕ) → memb s a.taken ≡ true → s ≤ a.newest
  pub bits :
      (s : ℕ) → s ≤ a.newest → a.newest < s + 1024 → bit_at w.sequence_window s ≡ memb s a.taken

pub init-Refines : Refines init (record { newest = 0; taken = [] })
unfolding init
init-Refines = record {
  full = refl;
  same_newest = refl;
  below = λ s e. cc;
  bits = λ s h k. bit_at-replicate 16 s;
}

-- Marking a number of the window is remembering it.
mark-Refines :
    (w : Window) (a : Seen) (s : ℕ)
    → Refines w a
    → s ≤ a.newest
    → a.newest < s + 1024
    → Refines
        (record w { sequence_window = set_at w.sequence_window s })
        (record a { taken = s ∷ a.taken })
mark-Refines w a s r le near = record {
  full = length-set_at w.sequence_window s ∙ r.full;
  same_newest = r.same_newest;
  below = λ t e. ground (arith, r.below t);
  bits = λ t h k. elim (Bool-cases (t == s)) [
    | inl e ↦ rw e (bit_at-set_same w.sequence_window r.full t s (ground arith))
    | inr ne ↦ rw ne (bit_at-set_other w.sequence_window r.full t s (ground arith) ∙ r.bits t h k)
  ];
}

-- What is out of reach of the newest number taken was not taken.
memb-out :
    (a : Seen) (t : ℕ)
    → ((s : ℕ) → memb s a.taken ≡ true → s ≤ a.newest)
    → a.newest < t
    → memb t a.taken ≡ false
memb-out a t below h = elim (Bool-cases (memb t a.taken)) [
  | inl e ↦ absurd (omega (arith, below t e))
  | inr e ↦ e
]

-- Advancing forgets what falls out of the window, and nothing else.
module _ (w : Window) (a : Seen) (s : ℕ) (r : Refines w a) (lt : a.newest < s) where
  length-advance : length (advance w s).sequence_window ≡ 16
  unfolding advance
  length-advance = ground (
    arith,
    r.full,
    length-replicate {A = ℕ} (length w.sequence_window) 0,
    length-clear_from w.sequence_window (w.max_sequence_received + 1) (s - w.max_sequence_received),
  )

  bits-advance :
      (t : ℕ) → t ≤ s → s < t + 1024 → bit_at (advance w s).sequence_window t ≡ memb t a.taken
  unfolding advance
  bits-advance t h k = elim (Bool-cases (leb window_size (s - w.max_sequence_received))) [
    | inl jump ↦ rw jump (
        bit_at-replicate (length w.sequence_window) t
        ∙ sym (memb-out a t r.below (omega (arith, leb→le _ _ jump, r.same_newest))))
    | inr near ↦ rw near (elim (Bool-cases (leb t a.newest)) [
      | inl old ↦
          bit_at-clear_from_below w.sequence_window _ _ t r.full
            (omega (arith, leb→le _ _ old, r.same_newest))
            (omega (arith, leb→le _ _ old, r.same_newest))
          ∙ r.bits t (leb→le _ _ old) (omega arith)
      | inr new ↦
          bit_at-clear_from w.sequence_window _ _ t r.full
            (omega (arith, leb_false→lt _ _ new, r.same_newest))
            (omega (arith, leb_false→lt _ _ new, r.same_newest))
            (omega (arith, leb_false→lt _ _ near, r.same_newest))
          ∙ sym (memb-out a t r.below (leb_false→lt _ _ new))
    ])
  ]

  advance-Refines : Refines (advance w s) (record a { newest = s })
  unfolding advance
  advance-Refines = record {
    full = length-advance;
    same_newest = refl;
    below = λ t e. omega (arith, r.below t e);
    bits = bits-advance;
  }

-- `check_bit` on a number of the window answers by what was taken.
check_bit-Refines :
    (w : Window) (a : Seen) (s : ℕ)
    → Refines w a
    → s ≤ a.newest
    → a.newest < s + 1024
    → ((check_bit w s).0 ≡ (remember a s).0) × Refines (check_bit w s).1 (remember a s).1
unfolding check_bit remember
check_bit-Refines w a s r le near = elim (Bool-cases (memb s a.taken)) [
  | inl e ↦ rw (r.bits s le near, e) (refl, r)
  | inr e ↦ rw (r.bits s le near, e) (refl, mark-Refines w a s r le near)
]

-- One call of ValidateSequence answers as the filter that remembers every number taken: a number
-- above the newest is taken, one 1024 or more below the newest is refused, and any other is taken
-- exactly when it was not taken before. The new window stands for the filter's new memory.
pub validate_sequence-Refines :
    (w : Window) (a : Seen) (s : ℕ)
    → Refines w a
    → ((validate_sequence w s).0 ≡ (take_new a s).0)
      × Refines (validate_sequence w s).1 (take_new a s).1
unfolding validate_sequence take_new
validate_sequence-Refines w a s r = elim (Bool-cases (ltb a.newest s)) [
  | inl newer ↦
      let lt : a.newest < s = ltb→lt _ _ newer in
      let step =
        check_bit-Refines (advance w s) (record a { newest = s }) s (advance-Refines w a s r lt)
          (omega arith) (omega arith) in
      rw (same_test ltb s newer, newer) (unfold remember in (rw (memb-out a s r.below lt) at step))
  | inr older ↦
      rw (same_test ltb s older, older)
        (elim (Bool-cases (leb window_size (a.newest - s))) [
          | inl far ↦ rw (same_test (λ m k. leb window_size (m - k)) s far, far) (refl, r)
          | inr near ↦
              rw (same_test (λ m k. leb window_size (m - k)) s near, near)
                (check_bit-Refines w a s r (ltb_false→le _ _ older)
                  (omega (arith, leb_false→lt _ _ near)))
        ])
]
  where
    same_test :
        (f : ℕ → ℕ → Bool) (k : ℕ) {b : Bool} → f a.newest k ≡ b → f w.max_sequence_received k ≡ b
    same_test f k e = ap (λ m. f m k) r.same_newest ∙ e

-- Every run of the window gives the answers of the filter, in order.
pub validate_all-Refines :
    (ss : List ℕ) (w : Window) (a : Seen) → Refines w a → validate_all w ss ≡ take_all a ss
unfolding validate_all take_all
validate_all-Refines [] w a r = refl
validate_all-Refines (s ∷ ss) w a r =
    let step = validate_sequence-Refines w a s r in
    ap₂ ◌∷◌ step.0 (validate_all-Refines ss _ _ step.1)

-- The numbers that a run accepts, in order.
unfoldable pub accepted : Window → List ℕ → List ℕ
accepted w [] = []
accepted w (s ∷ ss) =
    let (b, w') = validate_sequence w s in let rest = accepted w' ss in if b then s ∷ rest else rest

-- The filter forgets nothing, and takes only what it has not taken.
take_new-keeps : (a : Seen) (s x : ℕ) → memb x a.taken ≡ true → memb x (take_new a s).1.taken ≡ true
unfolding take_new
take_new-keeps a s x h = ground arith

take_new-adds : (a : Seen) (s : ℕ) → (take_new a s).0 ≡ true → memb s (take_new a s).1.taken ≡ true
unfolding take_new
take_new-adds a s h = ground arith

take_new-fresh :
    (a : Seen) (s : ℕ)
    → ((t : ℕ) → memb t a.taken ≡ true → t ≤ a.newest)
    → (take_new a s).0 ≡ true
    → memb s a.taken ≡ false
unfolding take_new
take_new-fresh a s below h = ground (arith, memb-out a s below)

-- What was taken is not accepted again.
accepted-not_taken :
    (ss : List ℕ) (w : Window) (a : Seen) (x : ℕ)
    → Refines w a
    → memb x a.taken ≡ true
    → memb x (accepted w ss) ≡ false
unfolding accepted
accepted-not_taken [] w a x r h = refl
accepted-not_taken (s ∷ ss) w a x r h =
    let step = validate_sequence-Refines w a s r in
    let ih = accepted-not_taken ss _ _ x step.1 (take_new-keeps a s x h) in
    ground (arith, step.0, ih, take_new-fresh a s r.below)

accepted-Distinct_from :
    (ss : List ℕ) (w : Window) (a : Seen) → Refines w a → Distinct (accepted w ss)
unfolding accepted
accepted-Distinct_from [] w a r = tt
accepted-Distinct_from (s ∷ ss) w a r =
    let step = validate_sequence-Refines w a s r in
    let ih = accepted-Distinct_from ss _ _ step.1 in
    elim (Bool-cases (validate_sequence w s).0) [
      | inr e ↦ rw e ih
      | inl e ↦ rw e (accepted-not_taken ss _ _ s step.1 (take_new-adds a s (sym step.0 ∙ e)), ih)
    ]

-- No sequence number is accepted twice by a window that starts empty, whatever arrives and in
-- whatever order.
pub accepted-Distinct : (ss : List ℕ) → Distinct (accepted init ss)
accepted-Distinct ss = accepted-Distinct_from ss init _ init-Refines

-- A number that was offered: it is below the window, or its bit is set.
abbrev IsSettled : Window → ℕ → Type 0
IsSettled w s =
    (s ≤ w.max_sequence_received)
    × ((1024 ≤ w.max_sequence_received - s) ⊎ (bit_at w.sequence_window s ≡ true))

validate_sequence-settled :
    (w : Window) (s : ℕ) → IsSettled w s → validate_sequence w s ≡ (false, w)
unfolding validate_sequence check_bit
validate_sequence-settled w s (le, inl far) = ground (arith, le, far)
validate_sequence-settled w s (le, inr set) =
    rw (le→ltb_false le, set)
      (elim (Bool-cases (leb window_size (w.max_sequence_received - s))) [
        | inl far ↦ rw far refl
        | inr near ↦ rw near refl
      ])
  where
    le→ltb_false : s ≤ w.max_sequence_received → ltb w.max_sequence_received s ≡ false
    le→ltb_false h = ground (arith, h)

check_bit-IsSettled :
    (w : Window) (s : ℕ)
    → length w.sequence_window ≡ 16
    → s ≤ w.max_sequence_received
    → IsSettled (check_bit w s).1 s
unfolding check_bit
check_bit-IsSettled w s full le = elim (Bool-cases (bit_at w.sequence_window s)) [
  | inl e ↦ rw e (le, inr e)
  | inr e ↦ rw e (le, inr (bit_at-set_same w.sequence_window full s s refl))
]

at_newest : (w : Window) (s : ℕ) → s ≤ (advance w s).max_sequence_received
unfolding advance
at_newest w s = omega arith

validate_sequence-IsSettled :
    (w : Window) (a : Seen) (s : ℕ) → Refines w a → IsSettled (validate_sequence w s).1 s
unfolding validate_sequence
validate_sequence-IsSettled w a s r = elim (Bool-cases (ltb w.max_sequence_received s)) [
  | inl newer ↦
      let lt : a.newest < s = omega (arith, ltb→lt _ _ newer, r.same_newest) in
      rw newer (check_bit-IsSettled (advance w s) s (length-advance w a s r lt) (at_newest w s))
  | inr older ↦
      let le : s ≤ w.max_sequence_received = ltb_false→le _ _ older in
      rw older (elim (Bool-cases (leb window_size (w.max_sequence_received - s))) [
        | inl far ↦ rw far (le, inl (leb→le _ _ far))
        | inr near ↦ rw near (check_bit-IsSettled w s r.full le)
      ])
]

-- A number that was offered to a window is refused from then on, and changes it no more.
pub validate_sequence-twice :
    (w : Window) (a : Seen) (s : ℕ)
    → Refines w a
    → let w' = (validate_sequence w s).1 in validate_sequence w' s ≡ (false, w')
validate_sequence-twice w a s r =
    validate_sequence-settled _ s (validate_sequence-IsSettled w a s r)
