-- ===== src/Common/SpscQueue/Order.antt =====
-- The ring of hft/common/spsc_queue.h under the interleavings of its two threads.
use hft.Prelude.{
  ℕ, suc, ◌+◌, ◌%◌, ◌<◌, ◌≤◌, ◌≡◌, ◌∙◌, sym, ap, refl, ◌⊎◌, inl, inr, true, false, List, [], ◌∷◌,
  ◌++◌, length, length-replicate, get_or, length-append, ◌==◌, Bool-cases, arith,
}
use mathlib.Core.List.{append_assoc}
use mathlib.Core.Path.{subst}
use hft.Common.SpscQueue.{SpscQueue, word, sub_word, next_word, empty_queue, enqueue, dequeue}
use hft.Common.SpscQueue.Fifo.{
  IsCapacity, Holds, occupancy, written, published, taken, tail_element,
}
use hft.Common.SpscQueue.Threads.{
  Producer, outside, loaded_tail, wrote, Consumer, away, loaded_head, took, System, produce,
  consume, start, producing, consuming, Reach, begin, next, ProducerKnows, ConsumerKnows, InOrder,
}

-- A new element at the end changes nothing that the consumer knows.
still_first :
    {A : Type 0} (capacity : ℕ) (c : Consumer A) (from : ℕ) (xs : List A) (x : A)
    → ConsumerKnows capacity from xs c
    → ConsumerKnows capacity from (xs ++ x ∷ []) c
still_first capacity away from xs x k = tt
still_first capacity (loaded_head h) from xs x (m, le, at) =
    (m, omega (arith, length-append xs (x ∷ [])), at)
still_first capacity (took y) from xs x (ys, e) = (ys ++ x ∷ [], ap (λ l. l ++ x ∷ []) e)

-- Taking the first element off leaves true all that the producer knows.
still_room :
    {A : Type 0} (capacity : ℕ) (q : SpscQueue A) (from : ℕ) (y : A) (ys : List A) (p : Producer A)
    → ProducerKnows capacity q from (y ∷ ys) p
    → ProducerKnows capacity (record q { tail = next_word q.tail }) (suc from) ys p
still_room capacity q from y ys outside k = tt
still_room capacity q from y ys (loaded_tail x t) (some_left, fits) = (omega arith, fits)
still_room capacity q from y ys (wrote x) (room, there) =
    (omega arith, λ d. ap (λ n. get_or q.buffer (n % capacity) d) (omega arith) ∙ there d)

-- A tail that differs from a head that the consumer loaded stands for the first element.
read_first :
    {A : Type 0} (capacity : ℕ) (ok : IsCapacity capacity) (q : SpscQueue A) (from : ℕ)
    (xs : List A) (var : A) (h m : ℕ)
    → Holds capacity q from xs
    → m ≤ length xs
    → h ≡ (from + m) % word
    → (q.tail == h) ≡ false
    → (ys : List A) × (xs ≡ get_or q.buffer (q.tail % capacity) var ∷ ys)
read_first capacity ok q from [] var h m o le at other =
    let none_left : (from + m) % word ≡ from % word = ap (λ n. n % word) (omega arith) in
    let same : q.tail ≡ h = o.front ∙ sym none_left ∙ sym at in absurd (ground (arith, other, same))
read_first capacity ok q from (y ∷ ys) var h m o le at other =
    let e = tail_element capacity ok q from (y ∷ ys) o in
    let first : get_or q.buffer (q.tail % capacity) var ≡ y =
      ap (λ n. get_or q.buffer n var) (e ∙ ap (λ n. n % capacity) (omega arith))
      ∙ o.held var 0 (omega arith) in
    (ys, ap (λ z. z ∷ ys) (sym first))

module _ {A : Type 0} (capacity : ℕ) (ok : IsCapacity capacity) where
  produce-InOrder :
      (item : A) (p : Producer A) (s : System A)
      → s.producer ≡ p
      → InOrder capacity s
      → InOrder capacity (produce capacity item p s)
  unfolding produce
  produce-InOrder item outside s e o = record {
    from = o.from;
    contents = o.contents;
    holds = o.holds;
    order = o.order;
    producing =
        let f = o.holds.fits in
        rw (occupancy capacity ok s.queue o.from o.contents o.holds) (omega arith, f);
    consuming = o.consuming;
  }
  produce-InOrder item (loaded_tail x t) s e o =
      let k = subst (ProducerKnows capacity s.queue o.from o.contents) e o.producing in
      elim (Bool-cases (sub_word s.queue.head t == capacity)) [
        | inl full ↦
            rw (full, produce)
              (record {
                from = o.from;
                contents = o.contents;
                holds = o.holds;
                order = o.order;
                producing = tt;
                consuming = o.consuming;
              })
        | inr room ↦
            let less : length o.contents < capacity = ground (arith, k, room) in
            let (w, there) = written capacity ok s.queue o.from o.contents x o.holds less in
            rw (room, produce)
              (record {
                from = o.from;
                contents = o.contents;
                holds = w;
                order = o.order;
                producing = (less, there);
                consuming = o.consuming;
              })
      ]
  produce-InOrder item (wrote x) s e o =
      let (room, there) = subst (ProducerKnows capacity s.queue o.from o.contents) e o.producing in
      record {
        from = o.from;
        contents = o.contents ++ x ∷ [];
        holds = published capacity ok s.queue o.from o.contents x o.holds room there;
        order = ap (λ l. l ++ x ∷ []) o.order ∙ append_assoc s.received o.contents (x ∷ []);
        producing = tt;
        consuming = still_first capacity s.consumer o.from o.contents x o.consuming;
      }

  consume-InOrder :
      (var : A) (c : Consumer A) (s : System A)
      → s.consumer ≡ c
      → InOrder capacity s
      → InOrder capacity (consume capacity var c s)
  unfolding consume
  consume-InOrder var away s e o = record {
    from = o.from;
    contents = o.contents;
    holds = o.holds;
    order = o.order;
    producing = o.producing;
    consuming = (length o.contents, omega arith, o.holds.back);
  }
  consume-InOrder var (loaded_head h) s e o =
      let (m, le, at) = subst (ConsumerKnows capacity o.from o.contents) e o.consuming in
      elim (Bool-cases (s.queue.tail == h)) [
        | inl same ↦
            rw (same, consume)
              (record {
                from = o.from;
                contents = o.contents;
                holds = o.holds;
                order = o.order;
                producing = o.producing;
                consuming = tt;
              })
        | inr other ↦
            rw (other, consume)
              (record {
                from = o.from;
                contents = o.contents;
                holds = o.holds;
                order = o.order;
                producing = o.producing;
                consuming =
                    read_first capacity ok s.queue o.from o.contents var h m o.holds le at other;
              })
      ]
  consume-InOrder var (took y) s e o =
      let (ys, first) = subst (ConsumerKnows capacity o.from o.contents) e o.consuming in
      record {
        from = suc o.from;
        contents = ys;
        holds =
            taken capacity ok s.queue o.from y ys
              (subst (Holds capacity s.queue o.from) first o.holds);
        order =
            o.order ∙ ap (λ l. s.received ++ l) first ∙ sym (append_assoc s.received (y ∷ []) ys);
        producing =
            still_room capacity s.queue o.from y ys s.producer
              (subst (λ l. ProducerKnows capacity s.queue o.from l s.producer) first o.producing);
        consuming = tt;
      }

  start-InOrder : (d : A) → InOrder capacity (start capacity d)
  unfolding empty_queue
  start-InOrder d = record {
    from = 0;
    contents = [];
    holds = record {
      size = length-replicate capacity d;
      front = refl;
      back = refl;
      fits = omega arith;
      held = λ e i b. absurd (omega arith);
    };
    order = refl;
    producing = tt;
    consuming = tt;
  }

  -- For a capacity that is a power of two from 2 on and below 2^64: however the steps of the two
  -- threads are interleaved, what has been received is the beginning of
  -- what has been sent, in order and with nothing lost or repeated, and the rest, at most as many as
  -- the capacity, is what the ring holds.
  pub Reach-InOrder : (d : A) (s : System A) → Reach capacity d s → InOrder capacity s
  Reach-InOrder d _ begin = start-InOrder d
  Reach-InOrder d _ (next {s} r (producing item)) =
      produce-InOrder item s.producer s refl (Reach-InOrder d s r)
  Reach-InOrder d _ (next {s} r (consuming var)) =
      consume-InOrder var s.consumer s refl (Reach-InOrder d s r)

module _ {A : Type 0} (capacity : ℕ) where
  -- A call of `enqueue` that the consumer does not interrupt: after two steps it either is over, with
  -- the ring as it was, or one step more moves the head; `enqueue` gives the same ring and answer.
  pub enqueue_steps :
      (s : System A) (x : A)
      → let two = produce capacity x (loaded_tail x s.queue.tail) (produce capacity x outside s) in
        ((two.producer ≡ outside) × (enqueue capacity s.queue x ≡ (two.queue, false)))
        ⊎ ((two.producer ≡ wrote x)
            × (enqueue capacity s.queue x ≡ ((produce capacity x (wrote x) two).queue, true)))
  unfolding produce enqueue
  enqueue_steps s x = elim (Bool-cases (sub_word s.queue.head s.queue.tail == capacity)) [
    | inl e ↦ inl (rw e refl, rw e refl)
    | inr e ↦ inr (rw e refl, rw e refl)
  ]

  -- A call of `dequeue` that the producer does not interrupt, in the same way.
  pub dequeue_steps :
      (s : System A) (d : A)
      → let two = consume capacity d (loaded_head s.queue.head) (consume capacity d away s) in
        ((two.consumer ≡ away) × (dequeue capacity s.queue d ≡ (two.queue, d, false)))
        ⊎ ((y : A) × (two.consumer ≡ took y)
            × (dequeue capacity s.queue d ≡ ((consume capacity d (took y) two).queue, y, true)))
  unfolding consume dequeue
  dequeue_steps s d = elim (Bool-cases (s.queue.tail == s.queue.head)) [
    | inl e ↦ inl (rw e refl, rw e refl)
    | inr e ↦ inr (get_or s.queue.buffer (s.queue.tail % capacity) d, rw e refl, rw e refl)
  ]
