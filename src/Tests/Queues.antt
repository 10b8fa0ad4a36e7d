-- ===== src/Tests/Queues.antt =====
-- The ring of two threads on concrete inputs.
use Prim.Native.Nat.{◌∣◌}
use hft.Prelude.{ℕ, ◌^◌, ◌-◌, ◌<◌, ◌≡◌, refl, ◌⊎◌, true, false, List, [], ◌∷◌, ◌++◌, length, arith}
use hft.Common.SpscQueue.{SpscQueue, empty_queue, enqueue, dequeue}
use hft.Common.SpscQueue.Fifo.{IsCapacity, Holds, enqueue_fifo, dequeue_fifo}
use hft.Common.SpscQueue.Threads.{
  System, outside, loaded_tail, away, produce, consume, start, Reach, begin, next, producing,
  consuming, InOrder,
}
use hft.Common.SpscQueue.Order.{Reach-InOrder}

two-IsCapacity : IsCapacity 2
two-IsCapacity = record {
  at_least_two = omega arith;
  divides = ∣ (2 ^ 63, refl) ∣₁;
  below = omega arith;
}

-- One element, in the last position before the positions wrap.
abbrev one_item : SpscQueue ℕ
one_item = record { buffer = 5 ∷ 6 ∷ []; head = 0; tail = 2 ^ 64 - 1 }

abbrev one_left : List ℕ
one_left = 6 ∷ []

one_item-Holds : Holds 2 one_item (2 ^ 64 - 1) one_left
one_item-Holds = record {
  size = refl;
  front = refl;
  back = refl;
  fits = omega arith;
  held = λ d i b. let e : i ≡ 0 = omega arith in rw e refl;
}

enqueue_fifo_example :
    ((length one_left ≡ 2) × (enqueue 2 one_item 9 ≡ (one_item, false)))
    ⊎ ((length one_left < 2)
        × ((enqueue 2 one_item 9).1 ≡ true)
        × Holds 2 (enqueue 2 one_item 9).0 (2 ^ 64 - 1) (one_left ++ 9 ∷ []))
enqueue_fifo_example = enqueue_fifo 2 two-IsCapacity one_item (2 ^ 64 - 1) one_left 9 one_item-Holds

dequeue_fifo_example :
    ((one_left ≡ []) × (dequeue 2 one_item 0 ≡ (one_item, 0, false)))
    ⊎ ((y : ℕ) × (ys : List ℕ) × (one_left ≡ y ∷ ys)
        × ((dequeue 2 one_item 0).1 ≡ y)
        × ((dequeue 2 one_item 0).2 ≡ true)
        × Holds 2 (dequeue 2 one_item 0).0 (2 ^ 64) ys)
dequeue_fifo_example = dequeue_fifo 2 two-IsCapacity one_item (2 ^ 64 - 1) one_left 0 one_item-Holds

-- The consumer looks while the producer is between its load and its store.
abbrev looked : System ℕ
looked =
    let s1 = produce 2 7 outside (start 2 0) in
    let s2 = consume 2 0 away s1 in produce 2 7 (loaded_tail 7 0) s2

looked-Reach : Reach 2 0 looked
unfolding produce consume empty_queue
looked-Reach = next (next (next begin (producing 7)) (consuming 0)) (producing 7)

Reach-InOrder_example : InOrder 2 looked
Reach-InOrder_example = Reach-InOrder 2 two-IsCapacity 0 looked looked-Reach
