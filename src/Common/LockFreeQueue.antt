-- ===== src/Common/LockFreeQueue.antt =====
-- cpp/common/lock_free_queue.hpp: the operations of the ring, each run to its end. The counters are
-- `size_t` and wrap; `capacity` is a power of two, so `& (Capacity - 1)` is `% capacity`.
pub mod Refine
pub mod Interleave
pub mod Fifo
mod Tests
use remote_play.Prelude.{
  ℕ, ◌+◌, ◌-◌, ◌%◌, ◌≡◌, Bool, true, false, Option, none, some, arith, ◌==◌, leb, if◌then◌else◌,
  u64, sub64,
}

-- m_buffer as the map from a slot to its content, m_head and m_tail
pub record Queue {ℓ} (T : Type ℓ) : Type ℓ where
  pub buffer : ℕ → T
  pub head : ℕ
  pub tail : ℕ

module _ {ℓ} {T : Type ℓ} (capacity : ℕ) where
  pub push : Queue T → T → Bool × Queue T
  push q item = if leb capacity (sub64 q.tail q.head) then (false, q) else (
    true,
    record q {
      buffer = λ slot. if slot == q.tail % capacity then item else q.buffer slot;
      tail = u64 (q.tail + 1);
    },
  )

  pub pop : Queue T → Option T × Queue T
  pop q =
      if q.head == q.tail
      then (none, q)
      else (some (q.buffer (q.head % capacity)), record q { head = u64 (q.head + 1) })

module _ {ℓ} {T : Type ℓ} where
  pub is_empty : Queue T → Bool
  is_empty q = q.head == q.tail

  pub size : Queue T → ℕ
  size q = sub64 q.tail q.head
