-- ===== src/RingBuffer/Threads.antt =====
-- src/common/ring_buffer.hpp under two threads: one that calls try_push and one that calls try_pop,
-- a load, store or array access at a time, interleaved in any order. A load of the other thread's
-- index with acquire may read an old value, but none older than an earlier load has read. The array
-- is plain memory.
pub mod Slots
pub mod Invariant
pub mod Safety
use mockex.Prelude.{ℕ, suc, ◌+◌, ◌-◌, ◌^◌, ◌≤◌, ◌≡◌, ◌≢◌, List, [], ◌∷◌, ◌++◌}
use mockex.FlatHashMap.{update}
use mockex.RingBuffer.{next_index}

-- A `std::atomic<size_t>` that one thread stores to: its values in the order of the stores, from the
-- one it is made with on.
pub record Atomic : Type 0 where
  pub stores : ℕ
  pub value : ℕ → ℕ

-- What the storing thread itself loads.
abbrev pub latest : Atomic → ℕ
latest a = a.value a.stores

abbrev pub store : Atomic → ℕ → Atomic
store a v = record { stores = suc a.stores; value = update a.value (suc a.stores) v }

-- Where the producer stands in `try_push(item)`, with its local variables.
pub data Producer {ℓ} (T : Type ℓ) : Type ℓ where
  outside : Producer T
  loaded_head : (item : T) (head next : ℕ) → Producer T
  has_room : (item : T) (head next : ℕ) → Producer T
  wrote_item : (item : T) (head next : ℕ) → Producer T

-- Where the consumer stands in `try_pop(out)`.
pub data Consumer {ℓ} (T : Type ℓ) : Type ℓ where
  outside : Consumer T
  loaded_tail : (tail : ℕ) → Consumer T
  has_item : (tail : ℕ) → Consumer T
  took_item : (out : T) (tail : ℕ) → Consumer T

-- `seen_tail` and `seen_head` are the latest stores that the producer and the consumer have read of the
-- other's index. `sent` and `got` are the items of the calls that have stored their index.
pub record System {ℓ} (T : Type ℓ) : Type ℓ where
  pub head : Atomic
  pub tail : Atomic
  pub buf : ℕ → T
  pub producer : Producer T
  pub consumer : Consumer T
  pub seen_tail : ℕ
  pub seen_head : ℕ
  pub sent : List T
  pub got : List T

abbrev new_atomic : Atomic
new_atomic = record { stores = 0; value = λ _. 0 }

module _ {ℓ} {T : Type ℓ} where
  -- `head_(0), tail_(0)`
  abbrev pub init : T → System T
  init blank = record {
    head = new_atomic;
    tail = new_atomic;
    buf = λ _. blank;
    producer = Producer.outside;
    consumer = Consumer.outside;
    seen_tail = 0;
    seen_head = 0;
    sent = [];
    got = [];
  }

  -- One step of `try_push`; the producer offers any item.
  pub data Push (mask : ℕ) (s : System T) : Producer T → System T → Type ℓ where
    load_head :
        (item : T)
        → Push mask s Producer.outside (record s {
          producer = loaded_head item (latest s.head) (next_index mask (latest s.head));
        })
    is_full :
        {item : T} {head next : ℕ} (i : ℕ)
        → s.seen_tail ≤ i
        → i ≤ s.tail.stores
        → next ≡ s.tail.value i
        → Push mask s
            (loaded_head item head next)
            (record s { producer = Producer.outside; seen_tail = i })
    is_free :
        {item : T} {head next : ℕ} (i : ℕ)
        → s.seen_tail ≤ i
        → i ≤ s.tail.stores
        → next ≢ s.tail.value i
        → Push mask s
            (loaded_head item head next)
            (record s { producer = has_room item head next; seen_tail = i })
    write_item :
        {item : T} {head next : ℕ}
        → Push mask s
            (has_room item head next)
            (record s { buf = update s.buf head item; producer = wrote_item item head next })
    store_head :
        {item : T} {head next : ℕ}
        → Push mask s (wrote_item item head next) (record s {
          head = store s.head next;
          producer = Producer.outside;
          sent = s.sent ++ (item ∷ []);
        })

  -- One step of `try_pop`.
  pub data Pop (mask : ℕ) (s : System T) : Consumer T → System T → Type ℓ where
    load_tail : Pop mask s Consumer.outside (record s { consumer = loaded_tail (latest s.tail) })
    is_empty :
        {tail : ℕ} (i : ℕ)
        → s.seen_head ≤ i
        → i ≤ s.head.stores
        → tail ≡ s.head.value i
        → Pop mask s (loaded_tail tail) (record s { consumer = Consumer.outside; seen_head = i })
    is_filled :
        {tail : ℕ} (i : ℕ)
        → s.seen_head ≤ i
        → i ≤ s.head.stores
        → tail ≢ s.head.value i
        → Pop mask s (loaded_tail tail) (record s { consumer = has_item tail; seen_head = i })
    read_item :
        {tail : ℕ}
        → Pop mask s (has_item tail) (record s { consumer = took_item (s.buf tail) tail })
    store_tail :
        {out : T} {tail : ℕ}
        → Pop mask s (took_item out tail) (record s {
          tail = store s.tail (next_index mask tail);
          consumer = Consumer.outside;
          got = s.got ++ (out ∷ []);
        })

  pub data Step (mask : ℕ) (s : System T) : System T → Type ℓ where
    push : {t : System T} → Push mask s s.producer t → Step mask s t
    pop : {t : System T} → Pop mask s s.consumer t → Step mask s t

  -- The states of a ring of 2 ^ `bits` slots.
  pub data Reach (blank : T) (bits : ℕ) : System T → Type ℓ where
    start : Reach blank bits (init blank)
    later : {s t : System T} → Reach blank bits s → Step (2 ^ bits - 1) s t → Reach blank bits t
