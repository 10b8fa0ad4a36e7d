-- ===== src/Common/SpscQueue/Fifo.antt =====
-- hft/common/spsc_queue.h, one call at a time: the ring holds a sequence, first in, first out.
use Prim.Native.Nat.{◌∣◌}
use hft.Prelude.{
  ℕ, zero, suc, ◌+◌, ◌%◌, ◌<◌, ◌≤◌, ◌≡◌, ◌∙◌, sym, ap, refl, ◌⊎◌, inl, inr, true, false, List, [],
  ◌∷◌, ◌++◌, length, set, get_or, length-append, length-set, get_or-set_self, get_or-set_ne, ◌==◌,
  ==_iff, ==_self, Bool-cases, arith,
}
use hft.Common.SpscQueue.{SpscQueue, word, sub_word, next_word, enqueue, dequeue}
use hft.Common.SpscQueue.Index.{apart, next, same_element, other_element, together}

-- A power of two from 2 on, below 2^64.
pub record IsCapacity (capacity : ℕ) : Type 0 where
  pub at_least_two : 2 ≤ capacity
  pub divides : capacity ∣ word
  pub below : capacity < word

module _ {ℓ} {A : Type ℓ} where
  pub get_or-append_left :
      (xs ys : List A) (i : ℕ) (d : A) → i < length xs → get_or (xs ++ ys) i d ≡ get_or xs i d
  get_or-append_left [] ys i d h = absurd (omega arith)
  get_or-append_left (x ∷ xs) ys zero d h = refl
  get_or-append_left (x ∷ xs) ys (suc i) d h = get_or-append_left xs ys i d (omega arith)

  pub get_or-append_last : (xs : List A) (x d : A) → get_or (xs ++ x ∷ []) (length xs) d ≡ x
  get_or-append_last [] x d = refl
  get_or-append_last (y ∷ xs) x d = get_or-append_last xs x d

  -- The ring holds the sequence, from position `start` on.
  pub record Holds (capacity : ℕ) (q : SpscQueue A) (start : ℕ) (xs : List A) : Type ℓ where
    pub size : length q.buffer ≡ capacity
    pub front : q.tail ≡ start % word
    pub back : q.head ≡ (start + length xs) % word
    pub fits : length xs ≤ capacity
    pub held :
        (d : A) (i : ℕ) → i < length xs → get_or q.buffer ((start + i) % capacity) d ≡ get_or xs i d

element_below : (c n : ℕ) → 2 ≤ c → n % c < c
element_below c n h = grind arith

module _ {ℓ} {A : Type ℓ} (capacity : ℕ) (ok : IsCapacity capacity) where
  pub occupancy :
      (q : SpscQueue A) (start : ℕ) (xs : List A)
      → Holds capacity q start xs
      → sub_word q.head q.tail ≡ length xs
  occupancy q start xs h =
      let b = ok.below in
      let f = h.fits in rw (h.front, h.back) (apart start (length xs) (omega arith))

  -- Where the next element is written.
  pub head_element :
      (q : SpscQueue A) (start : ℕ) (xs : List A)
      → Holds capacity q start xs
      → q.head % capacity ≡ (start + length xs) % capacity
  head_element q start xs h = rw h.back (same_element capacity (start + length xs) ok.divides)

  pub tail_element :
      (q : SpscQueue A) (start : ℕ) (xs : List A)
      → Holds capacity q start xs
      → q.tail % capacity ≡ start % capacity
  tail_element q start xs h = rw h.front (same_element capacity start ok.divides)

  -- Writing the element at the head, where there is room, keeps the sequence, and the element is
  -- there.
  pub written :
      (q : SpscQueue A) (start : ℕ) (xs : List A) (x : A)
      → Holds capacity q start xs
      → length xs < capacity
      → let buffer = set q.buffer (q.head % capacity) x in
        Holds capacity (record q { buffer = buffer }) start xs
        × ((d : A) → get_or buffer ((start + length xs) % capacity) d ≡ x)
  written q start xs x h room =
      let e = head_element q start xs h in
      rw e (
        record {
          size = length-set q.buffer ((start + length xs) % capacity) x ∙ h.size;
          front = h.front;
          back = h.back;
          fits = h.fits;
          held = λ d i b.
              get_or-set_ne q.buffer ((start + length xs) % capacity) ((start + i) % capacity) x d
                (other_element capacity start i (length xs) b (omega arith))
              ∙ h.held d i b;
        },
        λ d.
            let s = h.size in
            let b = element_below capacity (start + length xs) ok.at_least_two in
            get_or-set_self q.buffer ((start + length xs) % capacity) x d (omega arith),
      )

  -- Moving the head over an element that has been written appends it.
  pub published :
      (q : SpscQueue A) (start : ℕ) (xs : List A) (x : A)
      → Holds capacity q start xs
      → length xs < capacity
      → ((d : A) → get_or q.buffer ((start + length xs) % capacity) d ≡ x)
      → Holds capacity (record q { head = next_word q.head }) start (xs ++ x ∷ [])
  published q start xs x h room there = record {
    size = h.size;
    front = h.front;
    back =
        ap next_word h.back
        ∙ next start (length xs)
        ∙ ap (λ n. (start + n) % word) (sym (omega (arith, length-append xs (x ∷ []))));
    fits = omega (arith, length-append xs (x ∷ []));
    held = λ d i b. elim (Bool-cases (i == length xs)) [
      | inl e ↦
          let same = (==_iff i (length xs)).0 e in
          rw same (there d ∙ sym (get_or-append_last xs x d))
      | inr e ↦
          let small : i < length xs = ground (arith, length-append xs (x ∷ []), b, e) in
          h.held d i small ∙ sym (get_or-append_left xs (x ∷ []) i d small)
    ];
  }

  -- Moving the tail takes the first element off.
  pub taken :
      (q : SpscQueue A) (start : ℕ) (x : A) (xs : List A)
      → Holds capacity q start (x ∷ xs)
      → Holds capacity (record q { tail = next_word q.tail }) (suc start) xs
  taken q start x xs h = record {
    size = h.size;
    front = ap next_word h.front ∙ (omega arith);
    back = h.back ∙ ap (λ n. n % word) (omega arith);
    fits = let f = h.fits in omega arith;
    held = λ d i b.
        ap (λ n. get_or q.buffer (n % capacity) d) (omega arith) ∙ h.held d (suc i) (omega arith);
  }

  -- Where a ring, of a capacity that is a power of two below 2^64, holds a sequence:
  -- an element is taken in exactly if there is room: it then comes last, and otherwise the ring is as
  -- it was.
  pub enqueue_fifo :
      (q : SpscQueue A) (start : ℕ) (xs : List A) (x : A)
      → Holds capacity q start xs
      → ((length xs ≡ capacity) × (enqueue capacity q x ≡ (q, false)))
        ⊎ ((length xs < capacity)
            × ((enqueue capacity q x).1 ≡ true)
            × Holds capacity (enqueue capacity q x).0 start (xs ++ x ∷ []))
  unfolding enqueue
  enqueue_fifo q start xs x h =
      let o = occupancy q start xs h in
      elim (Bool-cases (length xs == capacity)) [
        | inl e ↦ inl ((==_iff (length xs) capacity).0 e, rw (o, e) refl)
        | inr e ↦
            let f = h.fits in
            let room : length xs < capacity = ground (arith, e, f) in
            let (w, there) = written q start xs x h room in
            inr (room, rw (o, e) refl, rw (o, e) (published _ start xs x w room there))
      ]

  pub not_empty :
      (q : SpscQueue A) (start : ℕ) (y : A) (ys : List A)
      → Holds capacity q start (y ∷ ys)
      → (q.tail == q.head) ≡ false
  not_empty q start y ys h = elim (Bool-cases (q.tail == q.head)) [
    | inl e ↦
        let same = sym h.front ∙ (==_iff q.tail q.head).0 e ∙ h.back in
        let b = ok.below in
        let f = h.fits in
        absurd (omega (arith, together start (suc (length ys)) (omega arith) same))
    | inr e ↦ e
  ]

  -- Where a ring, of a capacity that is a power of two below 2^64, holds a sequence:
  -- the first element comes out, if there is one; else the ring and the caller's variable are as they
  -- were.
  pub dequeue_fifo :
      (q : SpscQueue A) (start : ℕ) (xs : List A) (d : A)
      → Holds capacity q start xs
      → ((xs ≡ []) × (dequeue capacity q d ≡ (q, d, false)))
        ⊎ ((y : A) × (ys : List A) × (xs ≡ y ∷ ys)
            × ((dequeue capacity q d).1 ≡ y)
            × ((dequeue capacity q d).2 ≡ true)
            × Holds capacity (dequeue capacity q d).0 (suc start) ys)
  unfolding dequeue
  dequeue_fifo q start [] d h =
      let same : q.tail ≡ q.head = h.front ∙ ap (λ n. n % word) (omega arith) ∙ sym h.back in
      inl (refl, rw (same, ==_self q.head) refl)
  dequeue_fifo q start (y ∷ ys) d h =
      let filled = not_empty q start y ys h in
      let e = tail_element q start (y ∷ ys) h in
      let first : get_or q.buffer (q.tail % capacity) d ≡ y =
        ap (λ n. get_or q.buffer n d) (e ∙ ap (λ n. n % capacity) (omega arith))
        ∙ h.held d 0 (omega arith) in
      inr (y, ys, refl, rw filled first, rw filled refl, rw filled (taken q start y ys h))
