-- ===== src/Common/SafeQueue/Order.antt =====
-- The order in which items leave the queue, and what a stopped queue does.
use mathlib.Core.List.{append_assoc, append-nil}
use remote_play.Prelude.{
  ◌≡◌, refl, sym, ap, ◌∙◌, List, [], ◌∷◌, ◌++◌, Bool, true, false, length, replicate,
}
use remote_play.Common.SafeQueue.{
  Queue, finished, push, pop, wait_and_pop, stop, Call, push_call, pop_call, wait_call, stop_call,
  pushed_by, given, waited, step, outputs, final, inputs,
}

module _ {ℓ} {T : Type ℓ} where
  -- What `pop` and a wait hand out was at the front.
  front_pop :
      (xs : List T) (b : Bool)
      → let (o, q') = pop (record { items = xs; stopped = b }) in given o ++ q'.items ≡ xs
  unfolding pop
  front_pop [] b = refl
  front_pop (x ∷ xs) b = refl

  front_wait :
      (xs : List T) (b : Bool)
      → let (o, q') = wait_and_pop (record { items = xs; stopped = b }) in waited o ++ q'.items ≡ xs
  unfolding wait_and_pop
  front_wait [] true = refl
  front_wait [] false = refl
  front_wait (x ∷ xs) b = refl

  step-items :
      (q : Queue T) (c : Call T) → (step q c).0 ++ (step q c).1.items ≡ q.items ++ pushed_by c
  unfolding step push stop
  step-items q (push_call x) = refl
  step-items q pop_call = front_pop q.items q.stopped ∙ sym (append-nil q.items)
  step-items q wait_call = front_wait q.items q.stopped ∙ sym (append-nil q.items)
  step-items q stop_call = sym (append-nil q.items)

  -- In every history of calls the items handed out, followed by those still queued, are the items
  -- queued at the start followed by those pushed, in the order of the pushes.
  pub outputs-append-final :
      (cs : List (Call T)) (q : Queue T) → outputs q cs ++ (final q cs).items ≡ q.items ++ inputs cs
  unfolding outputs final inputs
  outputs-append-final [] q = sym (append-nil q.items)
  outputs-append-final (c ∷ cs) q =
      append_assoc (step q c).0 _ _
      ∙ ap (λ t. (step q c).0 ++ t) (outputs-append-final cs (step q c).1)
      ∙ sym (append_assoc (step q c).0 _ _)
      ∙ ap (λ t. t ++ inputs cs) (step-items q c)
      ∙ append_assoc q.items _ _

  drain :
      (xs : List T)
      → (outputs (record { items = xs; stopped = true }) (replicate (length xs) wait_call) ≡ xs)
        × (final (record { items = xs; stopped = true }) (replicate (length xs) wait_call)
            ≡ record { items = []; stopped = true })
  unfolding outputs final step wait_and_pop
  drain [] = (refl, refl)
  drain (x ∷ xs) = (ap (◌∷◌ x) (drain xs).0, (drain xs).1)

  -- A stopped queue is drained by waits: as many waits as it holds items return them all in order,
  -- and the next wait ends with the answer that the queue is finished, without blocking.
  pub stop-drains :
      (q : Queue T)
      → let waits = replicate (length q.items) wait_call in
        (outputs (stop q) waits ≡ q.items) × ((wait_and_pop (final (stop q) waits)).0 ≡ finished)
  unfolding stop wait_and_pop
  stop-drains q = ((drain q.items).0, rw (drain q.items).1)
