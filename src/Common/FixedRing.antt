-- ===== src/Common/FixedRing.antt =====
-- cpp/common/fixed_ring_buffer.hpp: a fixed number of slots, addressed by an index modulo the size.
-- The vector is the map from a slot to its content; `get` and `insert` never address a slot from
-- `size` on.
use remote_play.Prelude.{ℕ, ◌%◌, ◌≡◌, ◌==◌, if◌then◌else◌, refl}

module _ {ℓ} {T : Type ℓ} (size : ℕ) where
  abbrev pub insert : (ℕ → T) → ℕ → T → ℕ → T
  insert ring index value slot = if slot == index % size then value else ring slot

  abbrev pub get : (ℕ → T) → ℕ → T
  get ring index = ring (index % size)

  -- A value is found again under every index that is congruent to the one it was stored under, and
  -- all other indices read what they read before.
  pub get-insert :
      (ring : ℕ → T) (i j : ℕ) (v : T)
      → get (insert ring i v) j ≡ (if j % size == i % size then v else get ring j)
  get-insert ring i j v = refl
