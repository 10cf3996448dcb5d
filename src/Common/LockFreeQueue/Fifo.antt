-- ===== src/Common/LockFreeQueue/Fifo.antt =====
-- The ring of one producer and one consumer is a queue, whatever the interleaving of its accesses.
use mathlib.Core.Path.{subst}
use Prim.Native.Nat.{◌∣◌}
use remote_play.Prelude.{
  ℕ, suc, ◌+◌, ◌-◌, ◌%◌, ◌^◌, ◌≤◌, ◌<◌, ◌≡◌, refl, sym, ap, ◌∙◌, List, [], ◌∷◌, ◌++◌, true, false,
  some, arith, ◌==◌, if◌then◌else◌, u64, length, length-append, take, get_elem?,
  get_elem?-append_left, get_elem?-append_end, take-append_left, take-next, Bool-cases, inl, inr,
  ==_of_ne, ==_iff, leb_false→lt,
}
use remote_play.Common.LockFreeQueue.Refine.{slot_apart, slot_of_word}
use remote_play.Common.LockFreeQueue.Interleave.{
  Producer, Consumer, System, Step, push, load_own_tail, load_head, is_full, has_room, write,
  publish, load_own_head, load_tail, is_empty, has_item, read, release, Reach, start, later,
}

forward : (k t : ℕ) → k < t → k + (t - k) ≡ t
forward k t lt = omega arith

module _ {T : Type 0} (c : ℕ) where
  -- What the producer's locals say, at `h` items taken and `t` items sent.
  abbrev IsAware : (ℕ → T) → ℕ → ℕ → Producer T → Type 0
  IsAware buffer h t Producer.idle = Unit {0}
  IsAware buffer h t (Producer.entered x) = Unit {0}
  IsAware buffer h t (Producer.loaded_tail x tail) = tail ≡ u64 t
  IsAware buffer h t (Producer.loaded x tail head) =
      (tail ≡ u64 t) × (h0 : ℕ) × (head ≡ u64 h0) × (h0 ≤ h) × (t ≤ h0 + c)
  IsAware buffer h t (Producer.writing x tail) = (tail ≡ u64 t) × (t < h + c)
  IsAware buffer h t (Producer.publishing x tail) =
      (tail ≡ u64 t) × (t < h + c) × (buffer (t % c) ≡ x)

  -- What the consumer's locals say.
  abbrev IsInformed : List T → ℕ → Consumer T → Type 0
  IsInformed sent h Consumer.idle = Unit {0}
  IsInformed sent h (Consumer.loaded_head head) = head ≡ u64 h
  IsInformed sent h (Consumer.loaded head tail) =
      (head ≡ u64 h) × (t0 : ℕ) × (tail ≡ u64 t0) × (h ≤ t0) × (t0 ≤ length sent)
  IsInformed sent h (Consumer.reading head) = (head ≡ u64 h) × (h < length sent)
  IsInformed sent h (Consumer.releasing x head) =
      (head ≡ u64 h) × (h < length sent) × (get_elem? sent h ≡ some x)

  record IsFifo (s : System T) : Type 0 where
    head_word : s.ring.head ≡ u64 (length s.got)
    tail_word : s.ring.tail ≡ u64 (length s.sent)
    behind : length s.got ≤ length s.sent
    fits : length s.sent ≤ length s.got + c
    slots :
        (k : ℕ)
        → length s.got ≤ k
        → k < length s.sent
        → get_elem? s.sent k ≡ some (s.ring.buffer (k % c))
    in_order : s.got ≡ take (length s.got) s.sent
    aware : IsAware s.ring.buffer (length s.got) (length s.sent) s.producer
    informed : IsInformed s.sent (length s.got) s.consumer

  IsAware-at :
      (s : System T) {p : Producer T}
      → s.producer ≡ p
      → IsFifo s
      → IsAware s.ring.buffer (length s.got) (length s.sent) p
  IsAware-at s e v = subst (IsAware s.ring.buffer (length s.got) (length s.sent)) e v.aware

  IsInformed-at :
      (s : System T) {p : Consumer T}
      → s.consumer ≡ p
      → IsFifo s
      → IsInformed s.sent (length s.got) p
  IsInformed-at s e v = subst (IsInformed s.sent (length s.got)) e v.informed

  -- The consumer's progress keeps what the producer knows, and the other way round.
  IsAware-progress :
      (buffer : ℕ → T) (h t : ℕ) (p : Producer T)
      → IsAware buffer h t p
      → IsAware buffer (h + 1) t p
  IsAware-progress buffer h t Producer.idle a = tt
  IsAware-progress buffer h t (Producer.entered x) a = tt
  IsAware-progress buffer h t (Producer.loaded_tail x tail) a = a
  IsAware-progress buffer h t (Producer.loaded x tail head) (e, h0, e', le, le') =
      (e, h0, e', omega (arith, le), le')
  IsAware-progress buffer h t (Producer.writing x tail) (e, lt) = (e, omega (arith, lt))
  IsAware-progress buffer h t (Producer.publishing x tail) (e, lt, w) = (e, omega (arith, lt), w)

  IsInformed-progress :
      (sent : List T) (x : T) (h : ℕ) (p : Consumer T)
      → IsInformed sent h p
      → IsInformed (sent ++ x ∷ []) h p
  IsInformed-progress sent x h Consumer.idle a = tt
  IsInformed-progress sent x h (Consumer.loaded_head head) a = a
  IsInformed-progress sent x h (Consumer.loaded head tail) (e, t0, e', le, le') =
      (e, t0, e', le, omega (arith, le', length-append sent (x ∷ [])))
  IsInformed-progress sent x h (Consumer.reading head) (e, lt) =
      (e, omega (arith, lt, length-append sent (x ∷ [])))
  IsInformed-progress sent x h (Consumer.releasing y head) (e, lt, at) = (
    e,
    omega (arith, lt, length-append sent (x ∷ [])),
    get_elem?-append_left sent (x ∷ []) h lt ∙ at,
  )

  module _ (divides : c ∣ 2 ^ 64) (positive : 0 < c) (word : c < 2 ^ 64) where
    -- The write goes to a slot that no item occupies.
    write-IsFifo :
        (s : System T) {x : T} {tail : ℕ}
        → s.producer ≡ Producer.writing x tail
        → IsFifo s
        → IsFifo (record s {
          producer = Producer.publishing x tail;
          ring = record s.ring {
            buffer = λ slot. if slot == tail % c then x else s.ring.buffer slot;
          };
        })
    write-IsFifo s {x} {tail} e v =
        let t = length s.sent in
        let (at, room) = IsAware-at s e v in
        let slot : tail % c ≡ t % c = ap (λ m. m % c) at ∙ slot_of_word c t divides in
        record {
          head_word = v.head_word;
          tail_word = v.tail_word;
          behind = v.behind;
          fits = v.fits;
          slots = λ k le lt.
              let apart : (k % c == tail % c) ≡ false = ==_of_ne (k % c) (tail % c) (λ q.
                slot_apart c k (t - k) (omega (arith, lt)) (omega (arith, le, lt, room))
                  (ap (λ m. m % c) (forward k t lt) ∙ sym slot ∙ sym q)) in
              rw apart (v.slots k le lt);
          in_order = v.in_order;
          aware = (
            at,
            room,
            (let same : (t % c == tail % c) ≡ true = (==_iff (t % c) (tail % c)).1 (sym slot) in
                rw same refl),
          );
          informed = v.informed;
        }

    publish-IsFifo :
        (s : System T) {x : T} {tail : ℕ}
        → s.producer ≡ Producer.publishing x tail
        → IsFifo s
        → IsFifo (record s {
          producer = Producer.idle;
          ring = record s.ring { tail = u64 (tail + 1) };
          sent = s.sent ++ x ∷ [];
        })
    publish-IsFifo s {x} {tail} e v =
        let t = length s.sent in
        let longer : length (s.sent ++ x ∷ []) ≡ t + 1 = length-append s.sent (x ∷ []) in
        let (at, room, here) = IsAware-at s e v in
        record {
          head_word = v.head_word;
          tail_word = omega (arith, at, longer);
          behind = omega (arith, longer, v.behind);
          fits = omega (arith, longer, room);
          slots = λ k le lt. elim (Bool-cases (k == t)) [
            | inl last ↦
                let q : k ≡ t = (==_iff k t).0 last in
                ap (get_elem? (s.sent ++ x ∷ [])) q
                ∙ get_elem?-append_end s.sent x
                ∙ ap some (sym here)
                ∙ ap (λ m. some (s.ring.buffer (m % c))) (sym q)
            | inr earlier ↦
                let before : k < t = ground (arith, earlier, lt, longer) in
                get_elem?-append_left s.sent (x ∷ []) k before ∙ v.slots k le before
          ];
          in_order = v.in_order ∙ sym (take-append_left (length s.got) s.sent (x ∷ []) v.behind);
          aware = tt;
          informed = IsInformed-progress s.sent x (length s.got) s.consumer v.informed;
        }

    release-IsFifo :
        (s : System T) {x : T} {head : ℕ}
        → s.consumer ≡ Consumer.releasing x head
        → IsFifo s
        → IsFifo (record s {
          consumer = Consumer.idle;
          ring = record s.ring { head = u64 (head + 1) };
          got = s.got ++ x ∷ [];
        })
    release-IsFifo s {x} {head} e v =
        let h = length s.got in
        let longer : length (s.got ++ x ∷ []) ≡ h + 1 = length-append s.got (x ∷ []) in
        let (at, lt, item) = IsInformed-at s e v in
        record {
          head_word = omega (arith, at, longer);
          tail_word = v.tail_word;
          behind = omega (arith, longer, lt);
          fits = omega (arith, longer, v.fits);
          slots = λ k le lt. v.slots k (omega (arith, le, longer)) lt;
          in_order =
              ap (λ q. q ++ x ∷ []) v.in_order
              ∙ sym (take-next h s.sent x item)
              ∙ ap (λ n. take n s.sent) {x = suc h} (omega (arith, longer));
          aware =
              subst (λ n. IsAware s.ring.buffer n (length s.sent) s.producer) (sym longer)
                (IsAware-progress s.ring.buffer h (length s.sent) s.producer v.aware);
          informed = tt;
        }

    producer-IsFifo :
        (s : System T) (p : Producer T)
        → IsAware s.ring.buffer (length s.got) (length s.sent) p
        → IsFifo s
        → IsFifo (record s { producer = p })
    producer-IsFifo s p a v = record {
      head_word = v.head_word;
      tail_word = v.tail_word;
      behind = v.behind;
      fits = v.fits;
      slots = v.slots;
      in_order = v.in_order;
      aware = a;
      informed = v.informed;
    }

    consumer-IsFifo :
        (s : System T) (p : Consumer T)
        → IsInformed s.sent (length s.got) p
        → IsFifo s
        → IsFifo (record s { consumer = p })
    consumer-IsFifo s p a v = record {
      head_word = v.head_word;
      tail_word = v.tail_word;
      behind = v.behind;
      fits = v.fits;
      slots = v.slots;
      in_order = v.in_order;
      aware = v.aware;
      informed = a;
    }

    Step-IsFifo : {s t : System T} → Step c s t → IsFifo s → IsFifo t
    Step-IsFifo {s} (push x e) v = producer-IsFifo s _ tt v
    Step-IsFifo {s} (load_own_tail {x} e) v = producer-IsFifo s _ v.tail_word v
    Step-IsFifo {s} (load_head e) v =
        producer-IsFifo s _ (IsAware-at s e v, length s.got, v.head_word, omega arith, v.fits) v
    Step-IsFifo {s} (is_full e full) v = producer-IsFifo s _ tt v
    Step-IsFifo {s} (has_room e free) v =
        let (at, h0, at', le, near) = IsAware-at s e v in
        producer-IsFifo s _
          (at, omega (arith, leb_false→lt _ _ free, at, at', le, near, v.behind, word)) v
    Step-IsFifo {s} (write e) v = write-IsFifo s e v
    Step-IsFifo {s} (publish e) v = publish-IsFifo s e v
    Step-IsFifo {s} (load_own_head e) v = consumer-IsFifo s _ v.head_word v
    Step-IsFifo {s} (load_tail e) v =
        consumer-IsFifo s _ (IsInformed-at s e v, length s.sent, v.tail_word, v.behind, omega arith)
          v
    Step-IsFifo {s} (is_empty e empty) v = consumer-IsFifo s _ tt v
    Step-IsFifo {s} (has_item {head} {tail} e more) v =
        let (at, t0, at', le, le') = IsInformed-at s e v in
        consumer-IsFifo s _ (at, ground (arith, more, at, at', le, le')) v
    Step-IsFifo {s} (read {head} e) v =
        let (at, lt) = IsInformed-at s e v in
        let h = length s.got in
        let slot : h % c ≡ head % c = sym (ap (λ m. m % c) at ∙ slot_of_word c h divides) in
        consumer-IsFifo s _
          (at, lt, v.slots h (omega arith) lt ∙ ap (λ m. some (s.ring.buffer m)) slot) v
    Step-IsFifo {s} (release e) v = release-IsFifo s e v

    Reach-IsFifo : {buffer : ℕ → T} {s : System T} → Reach c buffer s → IsFifo s
    Reach-IsFifo start = record {
      head_word = refl;
      tail_word = refl;
      behind = omega arith;
      fits = omega arith;
      slots = λ k le lt. absurd (omega (arith, lt));
      in_order = refl;
      aware = tt;
      informed = tt;
    }
    Reach-IsFifo (later r st) = Step-IsFifo st (Reach-IsFifo r)

-- In every state that a producer and a consumer reach on a fresh ring, whatever the interleaving of
-- their accesses and however often the counters wrap, the items popped are the first of the items
-- pushed, in order, and the pushes are ahead by at most the capacity, for a capacity of at least one
-- that divides 2⁶⁴ and is below it.
pub Reach-fifo :
    {T : Type 0} (c : ℕ) (divides : c ∣ 2 ^ 64) (positive : 0 < c) (word : c < 2 ^ 64)
    (buffer : ℕ → T) (s : System T)
    → Reach c buffer s
    → (s.got ≡ take (length s.got) s.sent) × (length s.sent ≤ length s.got + c)
Reach-fifo c divides positive word buffer s r =
    let v = Reach-IsFifo c divides positive word r in (v.in_order, v.fits)
