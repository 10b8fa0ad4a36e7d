-- ===== src/Trading/OrderBook/Levels.antt =====
-- One side of the book of hft/src/order_book.hpp: the bitmaps and the summary against the levels.
use hft.Prelude.{
  ℕ, suc, ◌/◌, ◌%◌, ◌<◌, ◌≡◌, refl, ◌∙◌, inl, inr, true, false, none, some, ◌==◌, ==_self,
  if◌then◌else◌, is_some, arith, Bool-cases, Option-cases, first_index, first_index-some,
  first_index-none,
}
use hft.Prelude.Bits.{write, Word, word_bits, one_bit, and_word, or_word, not_word}
use hft.Prelude.Int.{ℤ}
use hft.Trading.OrderBook.{
  bucket_size, bucket_words, is_nonzero, is_active_qty, Bucket, empty_bucket, is_empty_bucket, Half,
  set_summary, clear_summary, add_level, remove_level, update_bucket,
}
use hft.Trading.OrderBook.Find.{is_nonzero-hit}

-- The bits of a bucket are those of its active levels.
abbrev pub BitsFit : Bucket → Type 0
BitsFit k =
    (off : ℕ)
    → off < bucket_size
    → k.bitmap (off / word_bits) (off % word_bits) ≡ is_active_qty (k.orders off)

-- Every bucket's bits fit, no bucket is empty, and the summary names the buckets there are.
pub record IsValidHalf (h : Half) : Type 0 where
  pub bits : (b : ℕ) (k : Bucket) → h.buckets b ≡ some k → BitsFit k
  pub filled : (b : ℕ) (k : Bucket) → h.buckets b ≡ some k → is_empty_bucket k ≡ false
  pub named : (b : ℕ) → h.summary (b / word_bits) (b % word_bits) ≡ is_some (h.buckets b)

same_index : (m i j : ℕ) → 0 < m → i / m ≡ j / m → i % m ≡ j % m → i ≡ j
same_index m i j h e f = grind arith

set_bit :
    (f : ℕ → Word) (i j : ℕ)
    → write f
        (i / word_bits)
        (or_word (f (i / word_bits)) (one_bit (i % word_bits)))
        (j / word_bits)
        (j % word_bits)
      ≡ (if i == j then true else f (j / word_bits) (j % word_bits))
set_bit f i j = ground (arith, same_index word_bits i j (omega arith))

clear_bit :
    (f : ℕ → Word) (i j : ℕ)
    → write f
        (i / word_bits)
        (and_word (f (i / word_bits)) (not_word (one_bit (i % word_bits))))
        (j / word_bits)
        (j % word_bits)
      ≡ (if i == j then false else f (j / word_bits) (j % word_bits))
clear_bit f i j = ground (arith, same_index word_bits i j (omega arith))

active_not_empty :
    (k : Bucket) (off : ℕ)
    → off < bucket_size
    → k.bitmap (off / word_bits) (off % word_bits) ≡ true
    → is_empty_bucket k ≡ false
active_not_empty k off b h =
    let w = is_nonzero-hit (k.bitmap (off / word_bits)) (off % word_bits) (omega arith) h in
    elim (Option-cases (first_index (λ i. is_nonzero (k.bitmap i)) bucket_words)) [
      | inl e ↦
          let gone =
            first_index-none (λ i. is_nonzero (k.bitmap i)) bucket_words (off / word_bits) e
              (omega arith) in
          absurd (ground (arith, gone, w))
      | inr (i, e) ↦ rw e refl
    ]

pub empty_inactive :
    (k : Bucket)
    → BitsFit k
    → is_empty_bucket k ≡ true
    → (off : ℕ) → off < bucket_size
    → is_active_qty (k.orders off) ≡ false
empty_inactive k f e off b = elim (Bool-cases (is_active_qty (k.orders off))) [
  | inr idle ↦ idle
  | inl on ↦
      let filled = active_not_empty k off b (f off b ∙ on) in absurd (ground (arith, e, filled))
]

-- A bucket that one level was written to.
pub added_fits :
    (k : Bucket) (off : ℕ) (q : ℤ)
    → BitsFit k
    → is_active_qty q ≡ true
    → BitsFit (add_level k off q)
added_fits k off q f on j b = set_bit k.bitmap off j ∙ ground (arith, on, f j b)

pub removed_fits :
    (k : Bucket) (off : ℕ) (q : ℤ)
    → BitsFit k
    → is_active_qty q ≡ false
    → BitsFit (remove_level k off q)
removed_fits k off q f idle j b = clear_bit k.bitmap off j ∙ ground (arith, idle, f j b)

idle_is_empty : (k : Bucket) → ((i o : ℕ) → k.bitmap i o ≡ false) → is_empty_bucket k ≡ true
idle_is_empty k idle =
    elim (Option-cases (first_index (λ i. is_nonzero (k.bitmap i)) bucket_words)) [
      | inl e ↦ rw e refl
      | inr (i, e) ↦ elim (Option-cases (first_index (k.bitmap i) word_bits)) [
        | inl z ↦
            let hit = (first_index-some (λ i. is_nonzero (k.bitmap i)) bucket_words i e).1 in
            absurd (ground (arith, hit, z))
        | inr (o, z) ↦
            let on = (first_index-some (k.bitmap i) word_bits o z).1 in
            absurd (ground (arith, on, idle i o))
      ]
    ]

emptied : (off : ℕ) (q : ℤ) → is_empty_bucket (remove_level empty_bucket off q) ≡ true
emptied off q = idle_is_empty (remove_level empty_bucket off q) (λ i o. ground arith)

-- A bucket in its place: what the side then holds.
put_valid :
    (h : Half) (b : ℕ) (k : Bucket) (s : ℕ → Word) (n : ℕ)
    → IsValidHalf h
    → BitsFit k
    → is_empty_bucket k ≡ false
    → ((c : ℕ)
        → s (c / word_bits) (c % word_bits)
          ≡ (if b == c then true else h.summary (c / word_bits) (c % word_bits)))
    → IsValidHalf (record h { buckets = write h.buckets b (some k); summary = s; free_buckets = n })
put_valid h b k s n v f full e = record {
  bits = λ c j is off lt. elim (Bool-cases (b == c)) [
    | inl same ↦ let q : k ≡ j = ground (arith, is, same) in rw (← q) (f off lt)
    | inr other ↦ v.bits c j (ground (arith, is, other)) off lt
  ];
  filled = λ c j is. elim (Bool-cases (b == c)) [
    | inl same ↦ let q : k ≡ j = ground (arith, is, same) in rw (← q) full
    | inr other ↦ v.filled c j (ground (arith, is, other))
  ];
  named = λ c. e c ∙ ground (arith, v.named c);
}

drop_valid :
    (h : Half) (b n : ℕ)
    → IsValidHalf h
    → IsValidHalf (record h {
      buckets = write h.buckets b none;
      summary = clear_summary h.summary b;
      free_buckets = n;
    })
drop_valid h b n v = record {
  bits = λ c j is off lt. elim (Bool-cases (b == c)) [
    | inl same ↦ absurd (ground (arith, is, same))
    | inr other ↦ v.bits c j (ground (arith, is, other)) off lt
  ];
  filled = λ c j is. elim (Bool-cases (b == c)) [
    | inl same ↦ absurd (ground (arith, is, same))
    | inr other ↦ v.filled c j (ground (arith, is, other))
  ];
  named = λ c. clear_bit h.summary b c ∙ ground (arith, v.named c);
}

-- The bucket that is written to: the one in its place, or a fresh one where there was none.
pub data Source (h : Half) (b : ℕ) (k : Bucket) : Type 0 where
  present : h.buckets b ≡ some k → Source h b k
  fresh : h.buckets b ≡ none → k ≡ empty_bucket → Source h b k

pub Source-fits : (h : Half) (b : ℕ) (k : Bucket) → IsValidHalf h → Source h b k → BitsFit k
Source-fits h b k v (present e) off lt = v.bits b k e off lt
Source-fits h b k v (fresh e f) off lt = ground (arith, f)

pub update_bucket-valid :
    (h : Half) (b off : ℕ) (q : ℤ) (k : Bucket)
    → off < bucket_size
    → IsValidHalf h
    → Source h b k
    → IsValidHalf (update_bucket h b off q k)
unfolding update_bucket
update_bucket-valid h b off q k lt v src = elim (Bool-cases (is_active_qty q)) [
  | inl on ↦
      let f = added_fits k off q (Source-fits h b k v src) on in
      let bit : (add_level k off q).bitmap (off / word_bits) (off % word_bits) ≡ true =
        set_bit k.bitmap off off ∙ rw (==_self off) refl in
      rw (on, update_bucket)
        (put_valid h b (add_level k off q) (set_summary h.summary b) h.free_buckets v f
          (active_not_empty (add_level k off q) off lt bit) (set_bit h.summary b))
  | inr idle ↦ elim (Bool-cases (is_empty_bucket (remove_level k off q))) [
    | inl none_left ↦ rw (idle, none_left, update_bucket) (drop_valid h b (suc h.free_buckets) v)
    | inr left ↦
        rw (idle, left, update_bucket)
          (put_valid h b (remove_level k off q) h.summary h.free_buckets v
            (removed_fits k off q (Source-fits h b k v src) idle) left (kept src left))
  ]
]
  where
    kept :
        Source h b k
        → is_empty_bucket (remove_level k off q) ≡ false
        → (c : ℕ)
        → h.summary (c / word_bits) (c % word_bits)
          ≡ (if b == c then true else h.summary (c / word_bits) (c % word_bits))
    kept (present e) left c = ground (arith, e, v.named c)
    kept (fresh e f) left c = let gone = emptied off q in absurd (ground (arith, f, left, gone))
