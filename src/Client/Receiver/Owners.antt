-- ===== src/Client/Receiver/Owners.antt =====
-- cpp/client/receiver.cpp: who owns each frame. A frame that was allocated is in the pool, in a slot
-- of the ring, or with the reader that GetNextFrame gave it to.
pub mod Balance
pub mod Calls
pub mod Readers
pub mod Ready
pub mod Runs
use remote_play.Prelude.{
  ℕ, ◌+◌, ◌≡◌, refl, List, [], ◌∷◌, Bool, false, ◌||◌, Option, none, some, arith, ltb, ◌==◌,
  if◌then◌else◌,
}
use remote_play.Client.Receiver.State.{Receiver, memb}
use remote_play.Client.Receiver.Fragment.Count.{count_set}

unfoldable pub count_in : ℕ → List ℕ → ℕ
count_in x [] = 0
count_in x (y ∷ ys) = count_in x ys + (if y == x then 1 else 0)

abbrev pub is_frame : ℕ → Option ℕ → Bool
is_frame x none = false
is_frame x (some y) = y == x

-- In how many places of the receiver the frame at `x` is.
unfoldable pub places : Receiver → ℕ → ℕ
places r x = count_in x r.frame_pool + count_set (λ i. is_frame x (r.frame_ring i)) 64

-- One for a frame that was allocated.
abbrev pub allocated : Receiver → ℕ → ℕ
allocated r x = if ltb x r.frame_storage then 1 else 0

-- Every allocated frame is in one place, and no other address is anywhere.
abbrev pub IsOwned : List ℕ → Receiver → Type 0
IsOwned held r = (x : ℕ) → places r x + count_in x held ≡ allocated r x

pub count_in-absent : (x : ℕ) (ys : List ℕ) → count_in x ys ≡ 0 → memb x ys ≡ false
unfolding count_in
count_in-absent x [] e = refl
count_in-absent x (y ∷ ys) e = ground (arith, count_in-absent x ys)
