-- ===== src/Common/Stun/Safe.antt =====
-- The loops over STUN attributes end, read only what was received, and agree.
use remote_play.Prelude.{
  ℕ, zero, suc, ◌+◌, ◌≤◌, ◌<◌, ◌≡◌, refl, sym, ap, ◌∙◌, List, Bool, true, false, not, ◌&&◌, some,
  arith, ltb, leb, ◌==◌, length, Bool-cases, inl, inr,
}
use remote_play.Common.Stun.{
  Parsed, mapped, not_found, out_of_bounds, unfinished, Turn, stop, next, read16, read_address,
  after_attribute, attribute, typed, measured, turn, bounded, sized, turn_parallel, follow, scan,
  scan_parallel,
}

-- An address was found or there is none: nothing was read beyond the bytes that were received, and
-- the rounds were enough.
abbrev pub IsSafe : Parsed → Type 0
IsSafe (mapped port ip) = Unit {0}
IsSafe not_found = Unit {0}
IsSafe out_of_bounds = ⊥
IsSafe unfinished = ⊥

abbrev Advances : ℕ → ℕ → Turn → Type 0
Advances len offset (stop p) = IsSafe p
Advances len offset (next offset') = (offset + 4 ≤ len) × (offset < offset')

read_address-IsSafe :
    (buf : List ℕ) (offset port a b c d : ℕ)
    → offset + 12 ≤ length buf
    → IsSafe (read_address buf offset port a b c d)
unfolding read_address
read_address-IsSafe buf offset port a b c d h = rw (within h) tt
  where
    within : offset + 12 ≤ length buf → ltb (offset + 11) (length buf) ≡ true
    within le = ground (arith, le)

attribute-Advances :
    (buf : List ℕ) (offset attr_type attr_len : ℕ)
    → offset + 4 + attr_len ≤ length buf
    → Advances (length buf) offset (attribute buf offset attr_type attr_len)
unfolding attribute after_attribute
attribute-Advances buf offset attr_type attr_len h =
    elim (Bool-cases (attr_type == 0x0001 && leb 8 attr_len)) [
      | inl plain ↦ rw plain (read_address-IsSafe buf offset 0 0 0 0 0 (ground (arith, plain, h)))
      | inr e ↦ rw e (elim (Bool-cases (attr_type == 0x0020 && leb 8 attr_len)) [
        | inl masked ↦
            rw masked (
              read_address-IsSafe buf offset 0x2112 0x21 0x12 0xa4 0x42 (ground (arith, masked, h)))
        | inr other ↦ rw other (omega (arith, h), omega arith)
      ])
    ]

read16-some :
    (buf : List ℕ) (offset : ℕ) → offset + 2 ≤ length buf → (v : ℕ) × (read16 buf offset ≡ some v)
unfolding read16
read16-some buf offset h = elim (Bool-cases (ltb (offset + 1) (length buf))) [
  | inl within ↦ rw within (_, refl)
  | inr beyond ↦ absurd (ground (arith, beyond, h))
]

turn-Advances : (buf : List ℕ) (offset : ℕ) → Advances (length buf) offset (turn buf offset)
unfolding turn measured typed
turn-Advances buf offset = elim (Bool-cases (leb (offset + 4) (length buf))) [
  | inr short ↦ rw short tt
  | inl room ↦
      let le : offset + 4 ≤ length buf = ground (arith, room) in
      let (attr_len, e) = read16-some buf (offset + 2) (omega (arith, le)) in
      let (attr_type, e') = read16-some buf offset (omega (arith, le)) in
      rw (room, e, measured)
        (elim (Bool-cases (leb (offset + 4 + attr_len) (length buf))) [
          | inr long ↦ rw long tt
          | inl fits ↦
              rw (fits, e', typed)
                (attribute-Advances buf offset attr_type attr_len (ground (arith, fits)))
        ])
]

follow-IsSafe :
    (rest : ℕ → Parsed) (t : Turn) (len offset : ℕ)
    → Advances len offset t
    → ((offset' : ℕ) → offset + 4 ≤ len → offset < offset' → IsSafe (rest offset'))
    → IsSafe (follow rest t)
unfolding follow
follow-IsSafe rest (stop p) len offset a h = a
follow-IsSafe rest (next offset') len offset (le, lt) h = h offset' le lt

-- For any bytes, the loop over the attributes from any offset ends, where the rounds are at least one
-- and more than the bytes from there, and never reads beyond the bytes that were received.
pub scan-IsSafe :
    (fuel : ℕ) (buf : List ℕ) (offset : ℕ)
    → length buf < fuel + offset
    → 0 < fuel
    → IsSafe (scan fuel buf offset)
unfolding scan
scan-IsSafe zero buf offset h pos = absurd (omega arith)
scan-IsSafe (suc fuel) buf offset h pos =
    follow-IsSafe _ (turn buf offset) (length buf) offset (turn-Advances buf offset)
      (λ offset' le lt.
        scan-IsSafe fuel buf offset' (omega (arith, le, lt, h)) (omega (arith, le, h)))

leb-ltb : (m n : ℕ) (b : Bool) → leb m n ≡ b → ltb n m ≡ not b
leb-ltb m n true e = ground (arith, e)
leb-ltb m n false e = ground (arith, e)

bounded-measured :
    (buf : List ℕ) (offset attr_type attr_len : ℕ)
    → read16 buf offset ≡ some attr_type
    → bounded buf offset attr_type (some attr_len) ≡ measured buf offset (some attr_len)
unfolding bounded measured typed
bounded-measured buf offset attr_type attr_len e =
    elim (Bool-cases (leb (offset + 4 + attr_len) (length buf))) [
      | inr long ↦ rw (long, leb-ltb _ _ false long) refl
      | inl fits ↦ rw (fits, leb-ltb _ _ true fits) (sym (ap (typed buf offset attr_len) e))
    ]

turn_parallel-turn : (buf : List ℕ) (offset : ℕ) → turn_parallel buf offset ≡ turn buf offset
unfolding turn turn_parallel sized typed
turn_parallel-turn buf offset = elim (Bool-cases (leb (offset + 4) (length buf))) [
  | inr short ↦ rw short refl
  | inl room ↦
      let le : offset + 4 ≤ length buf = ground (arith, room) in
      let (attr_len, e) = read16-some buf (offset + 2) (omega (arith, le)) in
      let (attr_type, e') = read16-some buf offset (omega (arith, le)) in
      rw room (
        ap (sized buf offset) e'
        ∙ ap (bounded buf offset attr_type) e
        ∙ bounded-measured buf offset attr_type attr_len e'
        ∙ sym (ap (measured buf offset) e))
]

-- The two loops find the same in any bytes, with any number of rounds.
pub scan_parallel-scan :
    (fuel : ℕ) (buf : List ℕ) (offset : ℕ) → scan_parallel fuel buf offset ≡ scan fuel buf offset
unfolding scan scan_parallel
scan_parallel-scan zero buf offset = refl
scan_parallel-scan (suc fuel) buf offset =
    λ i. follow (λ o. scan_parallel-scan fuel buf o i) (turn_parallel-turn buf offset i)
