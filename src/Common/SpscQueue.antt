-- ===== src/Common/SpscQueue.antt =====
-- hft/common/spsc_queue.h: the ring of one producer and one consumer. `head & kMask` is the remainder
-- by the capacity, which is a power of two; positions wrap in 64 bits.
pub mod Index
pub mod Fifo
pub mod Threads
pub mod Order
use hft.Prelude.{
  ℕ, ◌+◌, ◌-◌, ◌%◌, ◌^◌, ◌≡◌, Bool, true, false, List, set, get_or, replicate, ◌==◌, if◌then◌else◌,
}

pub record SpscQueue {ℓ} (A : Type ℓ) : Type ℓ where
  pub buffer : List A
  pub head : ℕ
  pub tail : ℕ

abbrev pub word : ℕ
word = 2 ^ 64

-- `a - b` and `a + 1` in 64 bits
abbrev pub sub_word : ℕ → ℕ → ℕ
sub_word a b = (a + (word - b)) % word

abbrev pub next_word : ℕ → ℕ
next_word a = (a + 1) % word

module _ {ℓ} {A : Type ℓ} (capacity : ℕ) where
  -- `SPSCQueue()`, where every element is the default one
  unfoldable pub empty_queue : A → SpscQueue A
  empty_queue d = record { buffer = replicate capacity d; head = 0; tail = 0 }

  unfoldable pub enqueue : SpscQueue A → A → SpscQueue A × Bool
  enqueue q item = if sub_word q.head q.tail == capacity then (q, false) else (
    record q { buffer = set q.buffer (q.head % capacity) item; head = next_word q.head },
    true,
  )

  -- `item` is what the caller's variable holds before.
  unfoldable pub dequeue : SpscQueue A → A → SpscQueue A × A × Bool
  dequeue q item =
      if q.tail == q.head
      then (q, item, false)
      else (record q { tail = next_word q.tail }, get_or q.buffer (q.tail % capacity) item, true)

  unfoldable pub is_empty : SpscQueue A → Bool
  is_empty q = q.head == q.tail

  unfoldable pub is_full : SpscQueue A → Bool
  is_full q = sub_word q.head q.tail == capacity
