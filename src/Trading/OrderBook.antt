-- ===== src/Trading/OrderBook.antt =====
-- hft/src/order_book.hpp, the bucket based book: per side, buckets of 4096 levels with a bitmap of
-- the active ones, and a summary bitmap of the buckets there are. The code of the bid side and of the
-- ask side is one text here, with the direction of the search as an argument. A null bucket pointer
-- is `none`; of the pool of buckets only how many are left counts, and a null bucket that is written
-- through makes the result `none`. The index -1 is `none`.
pub mod Best
pub mod Blocks
pub mod Clear
pub mod Depth
pub mod Find
pub mod History
pub mod Invariant
pub mod Levels
pub mod Market
pub mod Next
pub mod Peek
pub mod Pool
pub mod Refine
pub mod Recompute
pub mod SameConfig
pub mod Snapshot
pub mod Stock
pub mod Top
pub mod Update
pub mod Walk
pub mod Wings
use hft.Prelude.{
  ℕ, zero, suc, ◌+◌, ◌-◌, ◌*◌, ◌/◌, ◌%◌, Bool, true, false, not, ◌&&◌, Option, none, some, ltb,
  ◌==◌, if◌then◌else◌, is_some, first_index, first_from, last_index,
}
use hft.Prelude.Bits.{
  write, Word, word_bits, zero_word, one_bit, bits_below, bits_above, and_word, or_word, not_word,
}
use hft.Prelude.Int.{ℤ, pos, ltb_ℤ}

-- `SearchHighest`, for bids, and `SearchLowest`, for asks
pub data Search : Type 0 where
  highest lowest : Search

-- `kBucketSize` and `kBucketBitmapWords`
abbrev pub bucket_size : ℕ
bucket_size = 4096

abbrev pub bucket_words : ℕ
bucket_words = 64

-- A loop over all indices, from the best one on.
abbrev pub find_best : Search → (ℕ → Bool) → ℕ → Option ℕ
find_best highest p n = last_index p n
find_best lowest p n = first_index p n

-- `find_bit`, where `none` says that the word is 0
abbrev pub find_bit : Search → Word → Option ℕ
find_bit d w = find_best d w word_bits

-- `make_mask`
abbrev pub make_mask : Search → ℕ → Word
make_mask highest bit_offset = bits_below bit_offset
make_mask lowest bit_offset = bits_above bit_offset

-- `iterate_words` and `iterate_summary`, up to an `end` of `n`
abbrev pub find_after : Search → (ℕ → Bool) → ℕ → ℕ → Option ℕ
find_after highest p start n = last_index p start
find_after lowest p start n = first_from p (suc start) (n - suc start)

abbrev pub is_nonzero : Word → Bool
is_nonzero w = is_some (first_index w word_bits)

abbrev pub is_active_qty : ℤ → Bool
is_active_qty qty = ltb_ℤ (pos 0) qty

pub record Bucket : Type 0 where
  pub bitmap : ℕ → Word
  pub orders : ℕ → ℤ

-- What `allocate` and the two fills leave.
abbrev pub empty_bucket : Bucket
empty_bucket = record { bitmap = λ _. zero_word; orders = λ _. pos 0 }

-- `Bucket::empty`
abbrev pub is_empty_bucket : Bucket → Bool
is_empty_bucket k = not (is_some (first_index (λ i. is_nonzero (k.bitmap i)) bucket_words))

-- One side of a book: its buckets, its summary, the cached index of the best level, and how many
-- buckets its pool has left.
pub record Half : Type 0 where
  pub buckets : ℕ → Option Bucket
  pub summary : ℕ → Word
  pub cached_best : Option ℕ
  pub free_buckets : ℕ

abbrev pub set_summary : (ℕ → Word) → ℕ → ℕ → Word
set_summary s b = write s (b / word_bits) (or_word (s (b / word_bits)) (one_bit (b % word_bits)))

abbrev pub clear_summary : (ℕ → Word) → ℕ → ℕ → Word
clear_summary s b =
    write s (b / word_bits) (and_word (s (b / word_bits)) (not_word (one_bit (b % word_bits))))

-- A level is written, and its bit is set or cleared.
abbrev pub add_level : Bucket → ℕ → ℤ → Bucket
add_level k off qty =
    let word = off / word_bits in
    record {
      bitmap = write k.bitmap word (or_word (k.bitmap word) (one_bit (off % word_bits)));
      orders = write k.orders off qty;
    }

abbrev pub remove_level : Bucket → ℕ → ℤ → Bucket
remove_level k off qty =
    let word = off / word_bits in
    record {
      bitmap =
          write k.bitmap word (and_word (k.bitmap word) (not_word (one_bit (off % word_bits))));
      orders = write k.orders off qty;
    }

-- `update_bid` and `update_ask` once the bucket is there
unfoldable pub update_bucket : Half → ℕ → ℕ → ℤ → Bucket → Half
update_bucket h b off qty k =
    if is_active_qty qty
    then record h {
      buckets = write h.buckets b (some (add_level k off qty));
      summary = set_summary h.summary b;
    }
    else if is_empty_bucket (remove_level k off qty)
    then record h {
      buckets = write h.buckets b none;
      summary = clear_summary h.summary b;
      free_buckets = suc h.free_buckets;
    }
    else record h { buckets = write h.buckets b (some (remove_level k off qty)) }

-- `update_bid`, `update_ask`
unfoldable pub update : Half → ℕ → ℤ → Option Half
update h idx qty =
    let b = idx / bucket_size in
    let off = idx % bucket_size in
    elim (h.buckets b) [
      | some k ↦ some (update_bucket h b off qty k)
      | none ↦ elim h.free_buckets [
        | zero ↦ none
        | suc n ↦ some (update_bucket (record h { free_buckets = n }) b off qty empty_bucket)
      ]
    ]

-- The quantity of a level, as `is_bid_idx_valid` and `best_bid_qty` read it: 0 where there is no
-- bucket.
unfoldable pub order_in : Option Bucket → ℕ → ℤ
order_in none off = pos 0
order_in (some k) off = k.orders off

abbrev pub order_at : Half → ℕ → ℤ
order_at h idx = order_in (h.buckets (idx / bucket_size)) (idx % bucket_size)

-- `is_bid_idx_valid`, `is_ask_idx_valid`
abbrev pub is_valid : Half → ℕ → Bool
is_valid h idx = is_active_qty (order_at h idx)

-- `find_in_bucket`, and the inner loop of `best_bid_idx`: the best level of a bucket
unfoldable pub find_in_bucket : Search → Bucket → Option ℕ
find_in_bucket d k = elim (find_best d (λ i. is_nonzero (k.bitmap i)) bucket_words) [
  | none ↦ none
  | some word ↦ elim (find_bit d (k.bitmap word)) [
    | none ↦ none
    | some bit ↦ some (word * word_bits + bit)
  ]
]

-- The level that one word of the summary leads to, if any: the best bucket that it names, and the
-- best level there. A bucket that is named and is null gives `none` here, where the source asserts
-- that there is none such, or reads through it; so does one without a bit in `next_active_impl`.
unfoldable pub level_of_word : Search → Half → ℕ → Word → Option ℕ
level_of_word d h sw w = elim (find_bit d w) [
  | none ↦ none
  | some bit ↦
      let b = sw * word_bits + bit in
      elim (h.buckets b) [
        | none ↦ none
        | some k ↦ elim (find_in_bucket d k) [
          | none ↦ none
          | some off ↦ some (b * bucket_size + off)
        ]
      ]
]

-- The slow path of `best_bid_idx` and `best_ask_idx`: the first word of the summary from the best one
-- on that leads to a level.
unfoldable pub search_best : Search → Half → ℕ → Option ℕ
search_best d h summary_words =
    elim (find_best d (λ sw. is_some (level_of_word d h sw (h.summary sw))) summary_words) [
      | none ↦ none
      | some sw ↦ level_of_word d h sw (h.summary sw)
    ]

abbrev pub cached_valid : Half → Bool
cached_valid h = elim h.cached_best [ none ↦ false | some i ↦ is_valid h i ]

-- `best_bid_idx`, `best_ask_idx`: the index, and the half with the new cache
unfoldable pub best_idx : Search → Half → ℕ → Option ℕ × Half
best_idx d h summary_words =
    if cached_valid h
    then (h.cached_best, h)
    else let found = search_best d h summary_words in (found, record h { cached_best = found })

-- `next_active_impl` in the bucket of the level: the masked word, then the words after it.
unfoldable pub next_in_bucket : Search → Bucket → ℕ → Option ℕ
next_in_bucket d k off =
    let word = off / word_bits in
    elim (find_bit d (and_word (k.bitmap word) (make_mask d (off % word_bits)))) [
      | some bit ↦ some (word * word_bits + bit)
      | none ↦ elim (find_after d (λ i. is_nonzero (k.bitmap i)) word bucket_words) [
        | none ↦ none
        | some i ↦ elim (find_bit d (k.bitmap i)) [
          | none ↦ none
          | some bit ↦ some (i * word_bits + bit)
        ]
      ]
    ]

-- `next_active_impl` over the summary: the masked word, then the words after it.
unfoldable pub next_by_summary : Search → Half → ℕ → ℕ → Option ℕ
next_by_summary d h b summary_words =
    let word = b / word_bits in
    let masked = and_word (h.summary word) (make_mask d (b % word_bits)) in
    if is_nonzero masked
    then level_of_word d h word masked
    else elim (find_after d (λ sw. is_nonzero (h.summary sw)) word summary_words) [
      | none ↦ none
      | some sw ↦ level_of_word d h sw (h.summary sw)
    ]

abbrev pub next_in_half : Search → Half → ℕ → ℕ → Option ℕ
next_in_half d h b off = elim (h.buckets b) [ none ↦ none | some k ↦ next_in_bucket d k off ]

-- `next_active_impl`, and with it `next_active_bid` and `next_active_ask`
unfoldable pub next_active : Search → Half → ℕ → ℕ → Option ℕ
next_active d h start_idx summary_words =
    let b = start_idx / bucket_size in
    elim (next_in_half d h b (start_idx % bucket_size)) [
      | some off ↦ some (b * bucket_size + off)
      | none ↦ next_by_summary d h b summary_words
    ]
