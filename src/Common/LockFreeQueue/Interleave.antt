-- ===== src/Common/LockFreeQueue/Interleave.antt =====
-- cpp/common/lock_free_queue.hpp: one producer and one consumer on the ring, a shared access at a
-- time, in any order. A release store and the acquire load that reads it order the accesses to the
-- slots, so the accesses are interleaved as they stand.
use remote_play.Prelude.{
  ℕ, ◌+◌, ◌%◌, ◌≡◌, List, [], ◌∷◌, ◌++◌, true, false, leb, ◌==◌, if◌then◌else◌, u64, sub64,
}
use remote_play.Common.LockFreeQueue.{Queue}

module _ (T : Type 0) where
  -- Where push stands, with the locals that are live there.
  pub data Producer : Type 0 where
    idle : Producer
    entered : T → Producer
    loaded_tail : T → ℕ → Producer
    loaded : T → ℕ → ℕ → Producer
    writing : T → ℕ → Producer
    publishing : T → ℕ → Producer

  -- Where pop stands.
  pub data Consumer : Type 0 where
    idle : Consumer
    loaded_head : ℕ → Consumer
    loaded : ℕ → ℕ → Consumer
    reading : ℕ → Consumer
    releasing : T → ℕ → Consumer

  -- The ring and the two threads; `sent` are the items of the pushes that returned true and `got`
  -- those of the pops, in order.
  pub record System : Type 0 where
    pub ring : Queue T
    pub producer : Producer
    pub consumer : Consumer
    pub sent : List T
    pub got : List T

module _ {T : Type 0} (capacity : ℕ) where
  pub data Step (s : System T) : System T → Type 0 where
    push :
        (x : T) → s.producer ≡ Producer.idle → Step s (record s { producer = Producer.entered x })
    load_own_tail :
        {x : T}
        → s.producer ≡ Producer.entered x
        → Step s (record s { producer = Producer.loaded_tail x s.ring.tail })
    load_head :
        {x : T} {tail : ℕ}
        → s.producer ≡ Producer.loaded_tail x tail
        → Step s (record s { producer = Producer.loaded x tail s.ring.head })
    is_full :
        {x : T} {tail head : ℕ}
        → s.producer ≡ Producer.loaded x tail head
        → leb capacity (sub64 tail head) ≡ true
        → Step s (record s { producer = Producer.idle })
    has_room :
        {x : T} {tail head : ℕ}
        → s.producer ≡ Producer.loaded x tail head
        → leb capacity (sub64 tail head) ≡ false
        → Step s (record s { producer = Producer.writing x tail })
    write :
        {x : T} {tail : ℕ}
        → s.producer ≡ Producer.writing x tail
        → Step s (record s {
          producer = Producer.publishing x tail;
          ring = record s.ring {
            buffer = λ slot. if slot == tail % capacity then x else s.ring.buffer slot;
          };
        })
    publish :
        {x : T} {tail : ℕ}
        → s.producer ≡ Producer.publishing x tail
        → Step s (record s {
          producer = Producer.idle;
          ring = record s.ring { tail = u64 (tail + 1) };
          sent = s.sent ++ x ∷ [];
        })
    load_own_head :
        s.consumer ≡ Consumer.idle
        → Step s (record s { consumer = Consumer.loaded_head s.ring.head })
    load_tail :
        {head : ℕ}
        → s.consumer ≡ Consumer.loaded_head head
        → Step s (record s { consumer = Consumer.loaded head s.ring.tail })
    is_empty :
        {head tail : ℕ}
        → s.consumer ≡ Consumer.loaded head tail
        → (head == tail) ≡ true
        → Step s (record s { consumer = Consumer.idle })
    has_item :
        {head tail : ℕ}
        → s.consumer ≡ Consumer.loaded head tail
        → (head == tail) ≡ false
        → Step s (record s { consumer = Consumer.reading head })
    read :
        {head : ℕ}
        → s.consumer ≡ Consumer.reading head
        → Step s (record s { consumer = Consumer.releasing (s.ring.buffer (head % capacity)) head })
    release :
        {x : T} {head : ℕ}
        → s.consumer ≡ Consumer.releasing x head
        → Step s (record s {
          consumer = Consumer.idle;
          ring = record s.ring { head = u64 (head + 1) };
          got = s.got ++ x ∷ [];
        })

  -- The constructor's ring, whatever its slots hold.
  abbrev pub fresh : (ℕ → T) → System T
  fresh buffer = record {
    ring = record { buffer = buffer; head = 0; tail = 0 };
    producer = Producer.idle;
    consumer = Consumer.idle;
    sent = [];
    got = [];
  }

  pub data Reach (buffer : ℕ → T) : System T → Type 0 where
    start : Reach buffer (fresh buffer)
    later : {s t : System T} → Reach buffer s → Step s t → Reach buffer t
