-- ===== src/Trading/OrderBook/Next.antt =====
-- `next_active_impl` of hft/src/order_book.hpp in the bucket that it starts in.
use hft.Prelude.{
  ℕ, ◌+◌, ◌*◌, ◌/◌, ◌%◌, ◌<◌, ◌≡◌, sym, ◌∙◌, inl, inr, true, false, none, some, arith, Option-cases,
}
use hft.Prelude.Bits.{Word, word_bits, and_word}
use hft.Trading.OrderBook.{
  Search, bucket_size, bucket_words, find_bit, find_after, make_mask, is_nonzero, is_active_qty,
  Bucket, next_in_bucket,
}
use hft.Trading.OrderBook.Find.{
  Next, Past, find_best-Best, find_after-Next, find_after-none, find_masked-Next, find_masked-none,
}
use hft.Trading.OrderBook.Blocks.{Best-ext, Next-ext, Next-same_block, Next-later_block, Next-none}
use hft.Trading.OrderBook.Levels.{BitsFit}
use hft.Trading.OrderBook.Best.{bit_at, bit_in_word, word_covers, nonzero_bit}

-- The next bit over words: in the same word, or the best one of the next word that is not 0.
module _ (d : Search) (f : ℕ → Word) (n w s : ℕ) (lw : w < n) (ls : s < word_bits) where
  pub Next-bit_here :
      (o : ℕ)
      → find_bit d (and_word (f w) (make_mask d s)) ≡ some o
      → Next d (bit_at f) (n * word_bits) (w * word_bits + s) (w * word_bits + o)
  Next-bit_here o e =
      Next-same_block d word_bits n (omega arith) (bit_at f) (λ i. is_nonzero (f i))
        (λ c i lc li h. word_covers f c i li h) w s o lw ls
        (Next-ext d (f w) (λ i. bit_at f (w * word_bits + i)) word_bits s o (bit_in_word f w)
          (find_masked-Next d (f w) s o e))

  no_more_here :
      find_bit d (and_word (f w) (make_mask d s)) ≡ none
      → (i : ℕ) → i < word_bits
      → Past d s i
      → bit_at f (w * word_bits + i) ≡ false
  no_more_here e i li x = sym (bit_in_word f w i li) ∙ find_masked-none d (f w) s i e li x

  pub Next-bit_after :
      (c o : ℕ)
      → find_bit d (and_word (f w) (make_mask d s)) ≡ none
      → find_after d (λ i. is_nonzero (f i)) w n ≡ some c
      → find_bit d (f c) ≡ some o
      → Next d (bit_at f) (n * word_bits) (w * word_bits + s) (c * word_bits + o)
  Next-bit_after c o e after g =
      Next-later_block d word_bits n (omega arith) (bit_at f) (λ i. is_nonzero (f i))
        (λ c i lc li h. word_covers f c i li h) w s c o lw ls (no_more_here e)
        (find_after-Next d (λ i. is_nonzero (f i)) w n c lw after)
        (Best-ext d (f c) (λ i. bit_at f (c * word_bits + i)) word_bits o (bit_in_word f c)
          (find_best-Best d (f c) word_bits o g))

  pub Next-bit_none :
      find_bit d (and_word (f w) (make_mask d s)) ≡ none
      → find_after d (λ i. is_nonzero (f i)) w n ≡ none
      → (j : ℕ) → j < n * word_bits
      → Past d (w * word_bits + s) j
      → bit_at f j ≡ false
  Next-bit_none e after =
      Next-none d word_bits n (omega arith) (bit_at f) (λ i. is_nonzero (f i))
        (λ c i lc li h. word_covers f c i li h) w s lw ls (no_more_here e)
        (λ c lc x. find_after-none d (λ i. is_nonzero (f i)) w n c lw after lc x)

pub after_nonzero :
    (d : Search) (f : ℕ → Word) (w n c : ℕ)
    → w < n
    → find_after d (λ i. is_nonzero (f i)) w n ≡ some c
    → is_nonzero (f c) ≡ true
after_nonzero d f w n c lw e = (find_after-Next d (λ i. is_nonzero (f i)) w n c lw e).hit

-- In the bucket of the level.
pub next_in_bucket-Next :
    (d : Search) (k : Bucket) (s o : ℕ)
    → BitsFit k
    → s < bucket_size
    → next_in_bucket d k s ≡ some o
    → Next d (λ i. is_active_qty (k.orders i)) bucket_size s o
unfolding next_in_bucket
next_in_bucket-Next d k s o fit lt e =
    let w = s / word_bits in
    let b = s % word_bits in
    let whole : w * word_bits + b ≡ s = omega arith in
    Next-ext d (bit_at k.bitmap) (λ i. is_active_qty (k.orders i)) bucket_size s o fit
      (rw (← whole) (elim (Option-cases (find_bit d (and_word (k.bitmap w) (make_mask d b)))) [
        | inr (i, x) ↦
            let same : w * word_bits + i ≡ o = ground (arith, e, x) in
            rw (← same) (Next-bit_here d k.bitmap bucket_words w b (omega arith) (omega arith) i x)
        | inl x ↦ elim (Option-cases (find_after d (λ i. is_nonzero (k.bitmap i)) w bucket_words)) [
          | inl y ↦ absurd (ground (arith, e, x, y))
          | inr (c, y) ↦ elim (Option-cases (find_bit d (k.bitmap c))) [
            | inl z ↦ absurd (ground (arith, e, x, y, z))
            | inr (i, z) ↦
                let same : c * word_bits + i ≡ o = ground (arith, e, x, y, z) in
                rw (← same)
                  (Next-bit_after d k.bitmap bucket_words w b (omega arith) (omega arith) c i x y z)
          ]
        ]
      ]))

pub next_in_bucket-none :
    (d : Search) (k : Bucket) (s : ℕ)
    → BitsFit k
    → s < bucket_size
    → next_in_bucket d k s ≡ none
    → (j : ℕ) → j < bucket_size
    → Past d s j
    → is_active_qty (k.orders j) ≡ false
unfolding next_in_bucket
next_in_bucket-none d k s fit lt e j lj past =
    let w = s / word_bits in
    let b = s % word_bits in
    let whole : w * word_bits + b ≡ s = omega arith in
    sym (fit j lj) ∙ elim (Option-cases (find_bit d (and_word (k.bitmap w) (make_mask d b)))) [
      | inr (i, x) ↦ absurd (ground (arith, e, x))
      | inl x ↦ elim (Option-cases (find_after d (λ i. is_nonzero (k.bitmap i)) w bucket_words)) [
        | inl y ↦
            Next-bit_none d k.bitmap bucket_words w b (omega arith) (omega arith) x y j lj
              (rw whole past)
        | inr (c, y) ↦ elim (Option-cases (find_bit d (k.bitmap c))) [
          | inl z ↦ absurd (
              nonzero_bit d (k.bitmap c) (after_nonzero d k.bitmap w bucket_words c (omega arith) y)
                z)
          | inr (i, z) ↦ absurd (ground (arith, e, x, y, z))
        ]
      ]
    ]
