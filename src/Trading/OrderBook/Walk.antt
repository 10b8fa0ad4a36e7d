-- ===== src/Trading/OrderBook/Walk.antt =====
-- `next_active_impl` of hft/src/order_book.hpp: the next active level after one, from the best side
-- on.
use hft.Prelude.{
  ℕ, ◌+◌, ◌*◌, ◌/◌, ◌%◌, ◌<◌, ◌≡◌, sym, subst, ◌∙◌, inl, inr, Bool, true, false, none, some, arith,
  Bool-cases, Option-cases,
}
use hft.Prelude.Bits.{Word, word_bits, and_word}
use hft.Trading.OrderBook.{
  Search, bucket_size, find_after, make_mask, is_nonzero, is_active_qty, Half, is_valid,
  next_by_summary, next_in_half, next_active,
}
use hft.Trading.OrderBook.Find.{Best, Next, Past}
use hft.Trading.OrderBook.Blocks.{Next-ext, Next-same_block, Next-later_block, Next-none}
use hft.Trading.OrderBook.Levels.{IsValidHalf}
use hft.Trading.OrderBook.Best.{
  bit_at, valid_in, level_covers, in_summary, level_of_word-InWord, zero_find,
}
use hft.Trading.OrderBook.Next.{
  Next-bit_here, Next-bit_after, Next-bit_none, after_nonzero, next_in_bucket-Next,
  next_in_bucket-none,
}

-- What the search of the summary from bucket `b` on ends at: the next bucket, and its best level.
pub record InSummary (d : Search) (h : Half) (n b idx : ℕ) : Type 0 where
  pub bucket : ℕ
  pub off : ℕ
  pub next : Next d (bit_at h.summary) (n * word_bits) b bucket
  pub best_off : Best d (λ o. is_valid h (bucket * bucket_size + o)) bucket_size off
  pub whole : idx ≡ bucket * bucket_size + off

masked_bit : (a m : Word) (i : ℕ) → and_word a m i ≡ true → a i ≡ true
masked_bit a m i on = ground arith

from_start : (d : Search) (p : ℕ → Bool) (n s t k : ℕ) → s ≡ t → Next d p n s k → Next d p n t k
from_start d p n s t k e x = subst (λ i. Next d p n i k) e x

next_by_summary-InSummary :
    (d : Search) (h : Half) (b n idx : ℕ)
    → IsValidHalf h
    → b < n * word_bits
    → next_by_summary d h b n ≡ some idx
    → InSummary d h n b idx
unfolding next_by_summary
next_by_summary-InSummary d h b n idx v lb e =
    let w = b / word_bits in
    let s = b % word_bits in
    let whole : w * word_bits + s ≡ b = omega arith in
    let masked = and_word (h.summary w) (make_mask d s) in
    elim (Bool-cases (is_nonzero masked)) [
      | inl nz ↦
          let (j, f, at) =
            level_of_word-InWord d h w masked v
              (λ i li on. in_summary h v w i li (masked_bit (h.summary w) (make_mask d s) i on))
              nz in
          record {
            bucket = w * word_bits + at.bit;
            off = at.off;
            next =
                from_start d (bit_at h.summary) (n * word_bits) (w * word_bits + s) b
                  (w * word_bits + at.bit) whole
                  (Next-bit_here d h.summary n w s (omega arith) (omega arith) at.bit at.found);
            best_off = at.best_off;
            whole = (let same : idx ≡ j = ground (arith, e, nz, f) in same ∙ at.whole);
          }
      | inr z ↦ elim (Option-cases (find_after d (λ i. is_nonzero (h.summary i)) w n)) [
        | inl y ↦ absurd (ground (arith, e, z, y))
        | inr (c, y) ↦
            let (j, f, at) =
              level_of_word-InWord d h c (h.summary c) v (in_summary h v c)
                (after_nonzero d h.summary w n c (omega arith) y) in
            record {
              bucket = c * word_bits + at.bit;
              off = at.off;
              next =
                  from_start d (bit_at h.summary) (n * word_bits) (w * word_bits + s) b
                    (c * word_bits + at.bit) whole
                    (Next-bit_after d h.summary n w s (omega arith) (omega arith) c at.bit
                      (zero_find d masked z) y at.found);
              best_off = at.best_off;
              whole = (let same : idx ≡ j = ground (arith, e, z, y, f) in same ∙ at.whole);
            }
      ]
    ]

next_by_summary-none :
    (d : Search) (h : Half) (b n c : ℕ)
    → IsValidHalf h
    → b < n * word_bits
    → next_by_summary d h b n ≡ none
    → c < n * word_bits
    → Past d b c
    → bit_at h.summary c ≡ false
unfolding next_by_summary
next_by_summary-none d h b n c v lb e lc past =
    let w = b / word_bits in
    let s = b % word_bits in
    let whole : w * word_bits + s ≡ b = omega arith in
    let masked = and_word (h.summary w) (make_mask d s) in
    elim (Bool-cases (is_nonzero masked)) [
      | inl nz ↦
          let (j, f, at) =
            level_of_word-InWord d h w masked v
              (λ i li on. in_summary h v w i li (masked_bit (h.summary w) (make_mask d s) i on))
              nz in
          absurd (ground (arith, e, nz, f))
      | inr z ↦ elim (Option-cases (find_after d (λ i. is_nonzero (h.summary i)) w n)) [
        | inl y ↦
            Next-bit_none d h.summary n w s (omega arith) (omega arith) (zero_find d masked z) y c
              lc (rw whole past)
        | inr (q, y) ↦
            let (j, f, at) =
              level_of_word-InWord d h q (h.summary q) v (in_summary h v q)
                (after_nonzero d h.summary w n q (omega arith) y) in
            absurd (ground (arith, e, z, y, f))
      ]
    ]

in_half-Next :
    (d : Search) (h : Half) (b s o : ℕ)
    → IsValidHalf h
    → s < bucket_size
    → next_in_half d h b s ≡ some o
    → Next d (λ i. is_valid h (b * bucket_size + i)) bucket_size s o
in_half-Next d h b s o v lt e = elim (Option-cases (h.buckets b)) [
  | inl z ↦ absurd (ground (arith, e, z))
  | inr (k, z) ↦
      Next-ext d (λ j. is_active_qty (k.orders j)) (λ j. is_valid h (b * bucket_size + j))
        bucket_size s o (λ j lj. sym (valid_in h b j k z lj))
        (next_in_bucket-Next d k s o (v.bits b k z) lt (ground (arith, e, z)))
]

in_half-none :
    (d : Search) (h : Half) (b s : ℕ)
    → IsValidHalf h
    → s < bucket_size
    → next_in_half d h b s ≡ none
    → (j : ℕ) → j < bucket_size
    → Past d s j
    → is_valid h (b * bucket_size + j) ≡ false
in_half-none d h b s v lt e j lj past = elim (Option-cases (h.buckets b)) [
  | inl z ↦ elim (Bool-cases (is_valid h (b * bucket_size + j))) [
    | inr off ↦ off
    | inl on ↦ let there = level_covers h b j lj on in absurd (ground (arith, there, z))
  ]
  | inr (k, z) ↦
      valid_in h b j k z lj
      ∙ next_in_bucket-none d k s (v.bits b k z) lt (ground (arith, e, z)) j lj past
]

-- The level that follows `s`, if any, is the next active one of the side.
pub next_active-Next :
    (d : Search) (h : Half) (n s idx : ℕ)
    → IsValidHalf h
    → s < n * word_bits * bucket_size
    → next_active d h s n ≡ some idx
    → Next d (is_valid h) (n * word_bits * bucket_size) s idx
unfolding next_active
next_active-Next d h n s idx v lt e =
    let b = s / bucket_size in
    let o = s % bucket_size in
    let whole : b * bucket_size + o ≡ s = omega arith in
    let lb : b < n * word_bits = omega arith in
    from_start d (is_valid h) (n * word_bits * bucket_size) (b * bucket_size + o) s idx whole
      (elim (Option-cases (next_in_half d h b o)) [
        | inr (j, x) ↦
            let same : b * bucket_size + j ≡ idx = ground (arith, e, x) in
            rw (← same) (
              Next-same_block d bucket_size (n * word_bits) (omega arith) (is_valid h)
                (bit_at h.summary) (λ c i lc li on. v.named c ∙ level_covers h c i li on) b o j lb
                (omega arith) (in_half-Next d h b o j v (omega arith) x))
        | inl x ↦
            let at = next_by_summary-InSummary d h b n idx v lb (ground (arith, e, x)) in
            rw at.whole (
              Next-later_block d bucket_size (n * word_bits) (omega arith) (is_valid h)
                (bit_at h.summary) (λ c i lc li on. v.named c ∙ level_covers h c i li on) b o
                at.bucket at.off lb (omega arith) (in_half-none d h b o v (omega arith) x) at.next
                at.best_off)
      ])

-- If no level follows, no level after `s` is active.
pub next_active-none :
    (d : Search) (h : Half) (n s : ℕ)
    → IsValidHalf h
    → s < n * word_bits * bucket_size
    → next_active d h s n ≡ none
    → (j : ℕ) → j < n * word_bits * bucket_size
    → Past d s j
    → is_valid h j ≡ false
unfolding next_active
next_active-none d h n s v lt e j lj past =
    let b = s / bucket_size in
    let o = s % bucket_size in
    let whole : b * bucket_size + o ≡ s = omega arith in
    let lb : b < n * word_bits = omega arith in
    elim (Option-cases (next_in_half d h b o)) [
      | inr (i, x) ↦ absurd (ground (arith, e, x))
      | inl x ↦
          let by_summary : next_by_summary d h b n ≡ none = ground (arith, e, x) in
          Next-none d bucket_size (n * word_bits) (omega arith) (is_valid h) (bit_at h.summary)
            (λ c i lc li on. v.named c ∙ level_covers h c i li on) b o lb (omega arith)
            (in_half-none d h b o v (omega arith) x)
            (λ c lc later. next_by_summary-none d h b n c v lb by_summary lc later) j lj
            (subst (λ t. Past d t j) (sym whole) past)
    ]
