-- ===== src/Common/SpscQueue/Threads.antt =====
-- hft/common/spsc_queue.h with its two threads. Each load or store of a position that the other
-- thread reads is a step of its own, and the steps of the two threads come in any order; the orders
-- acquire and release are taken to make each store seen with the writes before it.
use hft.Prelude.{
  ℕ, ◌+◌, ◌%◌, ◌<◌, ◌≤◌, ◌≡◌, List, [], ◌∷◌, ◌++◌, length, set, get_or, ◌==◌, if◌then◌else◌,
}
use hft.Common.SpscQueue.{SpscQueue, word, sub_word, next_word, empty_queue}
use hft.Common.SpscQueue.Fifo.{Holds}

-- Where the producer is in `enqueue`: outside, with the tail loaded, or with the element written.
pub data Producer (A : Type 0) : Type 0 where
  outside : Producer A
  loaded_tail : A → ℕ → Producer A
  wrote : A → Producer A

-- Where the consumer is in `dequeue`: outside, with the head loaded, or with the element read.
pub data Consumer (A : Type 0) : Type 0 where
  away : Consumer A
  loaded_head : ℕ → Consumer A
  took : A → Consumer A

-- `sent` and `received` are what the two threads have finished with `true`, oldest first.
pub record System (A : Type 0) : Type 0 where
  pub queue : SpscQueue A
  pub producer : Producer A
  pub consumer : Consumer A
  pub sent : List A
  pub received : List A

module _ {A : Type 0} (capacity : ℕ) where
  -- One step of the producer; `item` is what it sends if it begins a call.
  unfoldable pub produce : A → Producer A → System A → System A
  produce item outside s = record s { producer = loaded_tail item s.queue.tail }
  produce item (loaded_tail x t) s =
      if sub_word s.queue.head t == capacity then record s { producer = outside } else record s {
        queue = record s.queue { buffer = set s.queue.buffer (s.queue.head % capacity) x };
        producer = wrote x;
      }
  produce item (wrote x) s = record s {
    queue = record s.queue { head = next_word s.queue.head };
    producer = outside;
    sent = s.sent ++ x ∷ [];
  }

  -- One step of the consumer; `var` is what its variable holds.
  unfoldable pub consume : A → Consumer A → System A → System A
  consume var away s = record s { consumer = loaded_head s.queue.head }
  consume var (loaded_head h) s =
      if s.queue.tail == h
      then record s { consumer = away }
      else record s { consumer = took (get_or s.queue.buffer (s.queue.tail % capacity) var) }
  consume var (took y) s = record s {
    queue = record s.queue { tail = next_word s.queue.tail };
    consumer = away;
    received = s.received ++ y ∷ [];
  }

  abbrev pub start : A → System A
  start d = record {
    queue = empty_queue capacity d;
    producer = outside;
    consumer = away;
    sent = [];
    received = [];
  }

  pub data Step (s : System A) : System A → Type 0 where
    producing : (item : A) → Step s (produce item s.producer s)
    consuming : (var : A) → Step s (consume var s.consumer s)

  pub data Reach (d : A) : System A → Type 0 where
    begin : Reach d (start d)
    next : {s t : System A} → Reach d s → Step s t → Reach d t

  -- What the producer knows: its tail is not newer than the real one; the element that it wrote
  -- stands where there is room for it.
  abbrev pub ProducerKnows : SpscQueue A → ℕ → List A → Producer A → Type 0
  ProducerKnows q from xs outside = Unit
  ProducerKnows q from xs (loaded_tail x t) =
      (length xs ≤ sub_word q.head t) × (sub_word q.head t ≤ capacity)
  ProducerKnows q from xs (wrote x) =
      (length xs < capacity) × ((d : A) → get_or q.buffer ((from + length xs) % capacity) d ≡ x)

  -- What the consumer knows: its head is not newer than the real one; the element that it read is
  -- the first one.
  abbrev pub ConsumerKnows : ℕ → List A → Consumer A → Type 0
  ConsumerKnows from xs away = Unit
  ConsumerKnows from xs (loaded_head h) = (m : ℕ) × (m ≤ length xs) × (h ≡ (from + m) % word)
  ConsumerKnows from xs (took y) = (ys : List A) × (xs ≡ y ∷ ys)

  -- The ring holds exactly what was sent and not received yet.
  pub record InOrder (s : System A) : Type 0 where
    pub from : ℕ
    pub contents : List A
    pub holds : Holds capacity s.queue from contents
    pub order : s.sent ≡ s.received ++ contents
    pub producing : ProducerKnows s.queue from contents s.producer
    pub consuming : ConsumerKnows from contents s.consumer
