-- ===== src/Common/SafeQueue.antt =====
-- cpp/common/safe_queue.hpp: the operations under the mutex. The profiler's calls are left out, and a
-- wait on the condition variable is an answer of its own.
pub mod Order
use remote_play.Prelude.{
  ℕ, suc, ◌+◌, ◌≡◌, ◌≢◌, refl, ap, ◌∙◌, List, [], ◌∷◌, ◌++◌, Bool, true, false, Option, none, some,
  arith, not, ◌||◌, if◌then◌else◌, length, length-append, ◌⊎◌, inl, inr,
}

-- m_queue, oldest first, and m_stopped
pub record Queue {ℓ} (T : Type ℓ) : Type ℓ where
  pub items : List T
  pub stopped : Bool

pub data Waited {ℓ} (T : Type ℓ) : Type ℓ where
  blocked : Waited T
  finished : Waited T
  popped : T → Waited T

module _ {ℓ} {T : Type ℓ} where
  unfoldable pub empty : Queue T
  empty = record { items = []; stopped = false }

  unfoldable pub push : Queue T → T → Queue T
  push q value = record q { items = q.items ++ value ∷ [] }

  unfoldable pub pop : Queue T → Option T × Queue T
  pop q = elim q.items [ [] ↦ (none, q) | x ∷ rest ↦ (some x, record q { items = rest }) ]

  -- The predicate of the wait is `!m_queue.empty() || m_stopped`.
  unfoldable pub wait_and_pop : Queue T → Waited T × Queue T
  wait_and_pop q = elim q.items [
    | [] ↦ if q.stopped then (finished, q) else (blocked, q)
    | x ∷ rest ↦ (popped x, record q { items = rest })
  ]

  unfoldable pub stop : Queue T → Queue T
  stop q = record q { stopped = true }

  unfoldable pub size : Queue T → ℕ
  size q = length q.items

-- The threads' calls, in the order in which they take the mutex.
pub data Call {ℓ} (T : Type ℓ) : Type ℓ where
  push_call : T → Call T
  pop_call wait_call stop_call : Call T

module _ {ℓ} {T : Type ℓ} where
  abbrev pub pushed_by : Call T → List T
  pushed_by (push_call x) = x ∷ []
  pushed_by _ = []

  abbrev pub given : Option T → List T
  given none = []
  given (some x) = x ∷ []

  abbrev pub waited : Waited T → List T
  waited (popped x) = x ∷ []
  waited _ = []

  -- A call's effect, and the item that it hands out.
  unfoldable pub step : Queue T → Call T → List T × Queue T
  step q (push_call x) = ([], push q x)
  step q pop_call = let (o, q') = pop q in (given o, q')
  step q wait_call = let (o, q') = wait_and_pop q in (waited o, q')
  step q stop_call = ([], stop q)

  unfoldable pub outputs : Queue T → List (Call T) → List T
  outputs q [] = []
  outputs q (c ∷ cs) = let (out, q') = step q c in out ++ outputs q' cs

  unfoldable pub final : Queue T → List (Call T) → Queue T
  final q [] = q
  final q (c ∷ cs) = final (step q c).1 cs

  unfoldable pub inputs : List (Call T) → List T
  inputs [] = []
  inputs (c ∷ cs) = pushed_by c ++ inputs cs
