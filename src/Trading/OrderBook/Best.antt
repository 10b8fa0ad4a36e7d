-- ===== src/Trading/OrderBook/Best.antt =====
-- `find_in_bucket`, and the searches for the best level of hft/src/order_book.hpp.
use hft.Prelude.{
  ℕ, ◌+◌, ◌*◌, ◌/◌, ◌%◌, ◌<◌, ◌≡◌, ◌≢◌, refl, sym, ◌∙◌, inl, inr, Bool, true, false, none, some,
  is_some, arith, first_index, first_index-some, Bool-cases, Option-cases,
}
use hft.Prelude.Bits.{Word, word_bits}
use hft.Trading.OrderBook.{
  Search, bucket_size, bucket_words, find_best, find_bit, is_nonzero, is_active_qty, Bucket,
  is_empty_bucket, Half, order_in, is_valid, find_in_bucket, level_of_word, search_best,
}
use hft.Trading.OrderBook.Find.{Best, find_best-Best, find_best-none, is_nonzero-hit}
use hft.Trading.OrderBook.Blocks.{Best-ext, Best-blocks, blocks-none}
use hft.Trading.OrderBook.Levels.{BitsFit, IsValidHalf}

-- The bit of a level, and of a bucket.
abbrev pub bit_at : (ℕ → Word) → ℕ → Bool
bit_at f i = f (i / word_bits) (i % word_bits)

pub bit_in_word : (f : ℕ → Word) (b i : ℕ) → i < word_bits → f b i ≡ bit_at f (b * word_bits + i)
bit_in_word f b i h =
    let x : (b * word_bits + i) / word_bits ≡ b = omega arith in
    let y : (b * word_bits + i) % word_bits ≡ i = omega arith in rw (x, y) refl

pub word_covers :
    (f : ℕ → Word) (b i : ℕ)
    → i < word_bits
    → bit_at f (b * word_bits + i) ≡ true
    → is_nonzero (f b) ≡ true
word_covers f b i lt h = is_nonzero-hit (f b) i lt (bit_in_word f b i lt ∙ h)

-- A best word and the best bit in it.
Best-bit :
    (d : Search) (f : ℕ → Word) (n b o : ℕ)
    → Best d (λ i. is_nonzero (f i)) n b
    → find_bit d (f b) ≡ some o
    → Best d (bit_at f) (n * word_bits) (b * word_bits + o)
Best-bit d f n b o outer e =
    Best-blocks d word_bits n (omega arith) (bit_at f) (λ i. is_nonzero (f i))
      (λ c i lc li h. word_covers f c i li h) b o outer
      (Best-ext d (f b) (λ i. bit_at f (b * word_bits + i)) word_bits o (bit_in_word f b)
        (find_best-Best d (f b) word_bits o e))

pub nonzero_bit : (d : Search) (w : Word) → is_nonzero w ≡ true → find_bit d w ≢ none
nonzero_bit d w h e = elim (Option-cases (first_index w word_bits)) [
  | inl z ↦ absurd (ground (arith, h, z))
  | inr (i, z) ↦
      let (lt, on, before) = first_index-some w word_bits i z in
      let gone = find_best-none d w word_bits i e lt in absurd (ground (arith, gone, on))
]

-- What is found in a bucket is its best level, and nothing is found only if it has none.
pub find_in_bucket-Best :
    (d : Search) (k : Bucket) (off : ℕ)
    → BitsFit k
    → find_in_bucket d k ≡ some off
    → Best d (λ o. is_active_qty (k.orders o)) bucket_size off
unfolding find_in_bucket
find_in_bucket-Best d k off fit e =
    elim (Option-cases (find_best d (λ i. is_nonzero (k.bitmap i)) bucket_words)) [
      | inl a ↦ absurd (ground (arith, e, a))
      | inr (w, a) ↦ elim (Option-cases (find_bit d (k.bitmap w))) [
        | inl b ↦ absurd (ground (arith, e, a, b))
        | inr (o, b) ↦
            let same : w * word_bits + o ≡ off = ground (arith, e, a, b) in
            rw (← same) (
              Best-ext d (bit_at k.bitmap) (λ i. is_active_qty (k.orders i)) bucket_size
                (w * word_bits + o) fit
                (Best-bit d k.bitmap bucket_words w o
                  (find_best-Best d (λ i. is_nonzero (k.bitmap i)) bucket_words w a) b))
      ]
    ]

pub find_in_bucket-none :
    (d : Search) (k : Bucket) → find_in_bucket d k ≡ none → is_empty_bucket k ≡ true
unfolding find_in_bucket
find_in_bucket-none d k e =
    elim (Option-cases (find_best d (λ i. is_nonzero (k.bitmap i)) bucket_words)) [
      | inr (w, a) ↦
          let found = find_best-Best d (λ i. is_nonzero (k.bitmap i)) bucket_words w a in
          elim (Option-cases (find_bit d (k.bitmap w))) [
            | inl b ↦ absurd (nonzero_bit d (k.bitmap w) found.hit b)
            | inr (o, b) ↦ absurd (ground (arith, e, a, b))
          ]
      | inl a ↦ elim (Option-cases (first_index (λ i. is_nonzero (k.bitmap i)) bucket_words)) [
        | inl z ↦ rw z refl
        | inr (i, z) ↦
            let (lt, on, before) =
              first_index-some (λ i. is_nonzero (k.bitmap i)) bucket_words i z in
            let gone = find_best-none d (λ i. is_nonzero (k.bitmap i)) bucket_words i a lt in
            absurd (ground (arith, gone, on))
      ]
    ]

-- The levels of a bucket in its place.
pub valid_in :
    (h : Half) (b o : ℕ) (k : Bucket)
    → h.buckets b ≡ some k
    → o < bucket_size
    → is_valid h (b * bucket_size + o) ≡ is_active_qty (k.orders o)
unfolding order_in
valid_in h b o k e lt =
    let x : (b * bucket_size + o) / bucket_size ≡ b = omega arith in
    let y : (b * bucket_size + o) % bucket_size ≡ o = omega arith in rw (x, y, e) refl

pub level_covers :
    (h : Half) (b o : ℕ)
    → o < bucket_size
    → is_valid h (b * bucket_size + o) ≡ true
    → is_some (h.buckets b) ≡ true
unfolding order_in
level_covers h b o lt v = elim (Option-cases (h.buckets b)) [
  | inr (k, e) ↦ rw e refl
  | inl e ↦
      let x : (b * bucket_size + o) / bucket_size ≡ b = omega arith in
      let gone : h.buckets ((b * bucket_size + o) / bucket_size) ≡ none = rw x e in
      absurd (ground (arith, gone, v))
]

-- What a word of the summary leads to: its best bit, and the best level of the bucket it names.
pub record InWord (d : Search) (h : Half) (sw : ℕ) (w : Word) (idx : ℕ) : Type 0 where
  pub bit : ℕ
  pub off : ℕ
  pub found : find_bit d w ≡ some bit
  pub best_off : Best d (λ o. is_valid h ((sw * word_bits + bit) * bucket_size + o)) bucket_size off
  pub whole : idx ≡ (sw * word_bits + bit) * bucket_size + off

-- A word all of whose bits name buckets leads to a level, unless it is 0.
pub level_of_word-InWord :
    (d : Search) (h : Half) (sw : ℕ) (w : Word)
    → IsValidHalf h
    → ((i : ℕ) → i < word_bits → w i ≡ true → is_some (h.buckets (sw * word_bits + i)) ≡ true)
    → is_nonzero w ≡ true
    → (idx : ℕ) × (level_of_word d h sw w ≡ some idx) × InWord d h sw w idx
unfolding level_of_word
level_of_word-InWord d h sw w v names nz = elim (Option-cases (find_bit d w)) [
  | inl z ↦ absurd (nonzero_bit d w nz z)
  | inr (i, z) ↦
      let b = find_best-Best d w word_bits i z in
      elim (Option-cases (h.buckets (sw * word_bits + i))) [
        | inl gone ↦ let there = names i b.within b.hit in absurd (ground (arith, gone, there))
        | inr (k, there) ↦ elim (Option-cases (find_in_bucket d k)) [
          | inl none_in ↦
              let full = v.filled (sw * word_bits + i) k there in
              let empty = find_in_bucket-none d k none_in in absurd (ground (arith, full, empty))
          | inr (o, e) ↦ (
            (sw * word_bits + i) * bucket_size + o,
            ground (arith, z, there, e),
            record {
              bit = i;
              off = o;
              found = z;
              best_off =
                  Best-ext d (λ j. is_active_qty (k.orders j))
                    (λ j. is_valid h ((sw * word_bits + i) * bucket_size + j)) bucket_size o
                    (λ j lt. sym (valid_in h (sw * word_bits + i) j k there lt))
                    (find_in_bucket-Best d k o (v.bits (sw * word_bits + i) k there) e);
              whole = refl;
            },
          )
        ]
      ]
]

pub level_of_word-zero :
    (d : Search) (h : Half) (sw : ℕ) (w : Word)
    → is_nonzero w ≡ false
    → level_of_word d h sw w ≡ none
unfolding level_of_word
level_of_word-zero d h sw w z = elim (Option-cases (find_bit d w)) [
  | inl e ↦ ground (arith, e)
  | inr (i, e) ↦
      let b = find_best-Best d w word_bits i e in
      let on = is_nonzero-hit w i b.within b.hit in absurd (ground (arith, on, z))
]

-- The best word of the summary leads to the best level.
pub in_summary :
    (h : Half)
    → IsValidHalf h
    → (sw i : ℕ) → i < word_bits
    → h.summary sw i ≡ true
    → is_some (h.buckets (sw * word_bits + i)) ≡ true
in_summary h v sw i lt on =
    sym (v.named (sw * word_bits + i)) ∙ sym (bit_in_word h.summary sw i lt) ∙ on

leads :
    (d : Search) (h : Half)
    → IsValidHalf h
    → (sw : ℕ) → is_some (level_of_word d h sw (h.summary sw)) ≡ is_nonzero (h.summary sw)
leads d h v sw = elim (Bool-cases (is_nonzero (h.summary sw))) [
  | inl nz ↦
      let (idx, e, at) = level_of_word-InWord d h sw (h.summary sw) v (in_summary h v sw) nz in
      rw (e, nz) refl
  | inr z ↦ let e = level_of_word-zero d h sw (h.summary sw) z in rw (e, z) refl
]

-- A bucket that a search of the summary ends at, and the best level in it.
pub Best-level :
    (d : Search) (h : Half) (n b o : ℕ)
    → IsValidHalf h
    → Best d (bit_at h.summary) n b
    → Best d (λ i. is_valid h (b * bucket_size + i)) bucket_size o
    → Best d (is_valid h) (n * bucket_size) (b * bucket_size + o)
Best-level d h n b o v outer inner =
    Best-blocks d bucket_size n (omega arith) (is_valid h) (bit_at h.summary)
      (λ c i lc li on. v.named c ∙ level_covers h c i li on) b o outer inner

-- The slow search ends at the best active level of the side, and ends with nothing only if no level
-- is active.
pub search_best-Best :
    (d : Search) (h : Half) (n idx : ℕ)
    → IsValidHalf h
    → search_best d h n ≡ some idx
    → Best d (is_valid h) (n * word_bits * bucket_size) idx
unfolding search_best
search_best-Best d h n idx v e =
    elim (Option-cases (find_best d (λ sw. is_some (level_of_word d h sw (h.summary sw))) n)) [
      | inl z ↦ absurd (ground (arith, e, z))
      | inr (sw, z) ↦
          let first =
            Best-ext d (λ i. is_some (level_of_word d h i (h.summary i)))
              (λ i. is_nonzero (h.summary i)) n sw (λ i lt. leads d h v i)
              (find_best-Best d (λ i. is_some (level_of_word d h i (h.summary i))) n sw z) in
          let (j, f, at) =
            level_of_word-InWord d h sw (h.summary sw) v (in_summary h v sw) first.hit in
          let same : idx ≡ (sw * word_bits + at.bit) * bucket_size + at.off =
            ground (arith, e, z, f, at.whole) in
          rw same (
            Best-level d h (n * word_bits) (sw * word_bits + at.bit) at.off v
              (Best-bit d h.summary n sw at.bit first at.found) at.best_off)
    ]

pub search_best-none :
    (d : Search) (h : Half) (n j : ℕ)
    → IsValidHalf h
    → search_best d h n ≡ none
    → j < n * word_bits * bucket_size
    → is_valid h j ≡ false
unfolding search_best
search_best-none d h n j v e lt =
    elim (Option-cases (find_best d (λ sw. is_some (level_of_word d h sw (h.summary sw))) n)) [
      | inr (sw, z) ↦
          let hit =
            (find_best-Best d (λ i. is_some (level_of_word d h i (h.summary i))) n sw z).hit in
          absurd (ground (arith, e, z, hit))
      | inl z ↦
          blocks-none d bucket_size (n * word_bits) (omega arith) (is_valid h) (bit_at h.summary)
            (λ c i lc li on. v.named c ∙ level_covers h c i li on)
            (λ b lb.
              blocks-none d word_bits n (omega arith) (bit_at h.summary)
                (λ i. is_nonzero (h.summary i)) (λ c i lc li on. word_covers h.summary c i li on)
                (λ sw ls.
                  sym (leads d h v sw)
                  ∙ find_best-none d (λ i. is_some (level_of_word d h i (h.summary i))) n sw z ls)
                b lb)
            j lt
    ]

pub zero_find : (d : Search) (w : Word) → is_nonzero w ≡ false → find_bit d w ≡ none
zero_find d w z = elim (Option-cases (find_bit d w)) [
  | inl e ↦ e
  | inr (i, e) ↦
      let b = find_best-Best d w word_bits i e in
      let on = is_nonzero-hit w i b.within b.hit in absurd (ground (arith, on, z))
]
