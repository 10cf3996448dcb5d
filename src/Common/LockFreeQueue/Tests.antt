-- ===== src/Common/LockFreeQueue/Tests.antt =====
-- A run of a producer and a consumer on a ring of two slots.
use native.Mathlib.Nat.{dvd_of_mod-eq-zero}
use remote_play.Prelude.{ℕ, ◌^◌, ◌+◌, ◌≤◌, ◌≡◌, refl, [], ◌∷◌, arith, length, take}
use remote_play.Common.LockFreeQueue.Interleave.{
  System, push, load_own_tail, load_head, has_room, write, publish, load_own_head, load_tail,
  has_item, read, release, Reach, start, later,
}
use remote_play.Common.LockFreeQueue.Fifo.{Reach-fifo}

abbrev zeros : ℕ → ℕ
zeros slot = 0

record Run : Type 0 where
  last : System ℕ
  reach : Reach 2 zeros last

abbrev pushed : Run
pushed = record {
  last = _;
  reach =
      later
        (later
          (later (later (later (later start (push 7 refl)) (load_own_tail refl)) (load_head refl))
            (has_room refl refl))
          (write refl))
        (publish refl);
}

-- The producer writes 8 while the consumer is between its two loads and its store.
abbrev crossed : Run
crossed = record {
  last = _;
  reach =
      later
        (later
          (later
            (later
              (later
                (later
                  (later
                    (later
                      (later (later (later pushed.reach (load_own_head refl)) (push 8 refl))
                        (load_own_tail refl))
                      (load_tail refl))
                    (load_head refl))
                  (has_item refl refl))
                (has_room refl refl))
              (write refl))
            (read refl))
          (publish refl))
        (release refl);
}

crossed_items : (crossed.last.sent ≡ 7 ∷ 8 ∷ []) × (crossed.last.got ≡ 7 ∷ [])
crossed_items = (refl, refl)

Reach-fifo_example :
    (crossed.last.got ≡ take (length crossed.last.got) crossed.last.sent)
    × (length crossed.last.sent ≤ length crossed.last.got + 2)
Reach-fifo_example =
    Reach-fifo 2 (dvd_of_mod-eq-zero 2 {n = 2 ^ 64} refl) (omega arith) (omega arith) zeros
      crossed.last crossed.reach
