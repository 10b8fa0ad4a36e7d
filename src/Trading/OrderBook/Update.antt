-- ===== src/Trading/OrderBook/Update.antt =====
-- What an update of hft/src/order_book.hpp does to the levels of one side.
use hft.Prelude.{
  ℕ, zero, suc, ◌+◌, ◌*◌, ◌/◌, ◌%◌, ◌<◌, ◌≡◌, refl, ap, ◌∙◌, ◌⊎◌, inl, inr, true, false, Option,
  none, some, ◌==◌, ==_iff, if◌then◌else◌, arith, Bool-cases, Option-cases,
}
use hft.Prelude.Bits.{write}
use hft.Prelude.Int.{ℤ, pos}
use hft.Trading.OrderBook.{
  bucket_size, is_active_qty, Bucket, empty_bucket, is_empty_bucket, Half, set_summary,
  clear_summary, add_level, remove_level, update_bucket, update,
}
use hft.Trading.OrderBook.Levels.{
  IsValidHalf, Source, present, fresh, Source-fits, update_bucket-valid, empty_inactive,
  removed_fits,
}

-- The quantity offered: what is not positive is nothing.
unfoldable pub offered : ℤ → ℤ
offered q = if is_active_qty q then q else pos 0

-- What a side promises: the quantity at each level, 0 where there is no bucket.
unfoldable pub level_in : Option Bucket → ℕ → ℤ
level_in none off = pos 0
level_in (some k) off = offered (k.orders off)

abbrev pub level : Half → ℕ → ℤ
level h j = level_in (h.buckets (j / bucket_size)) (j % bucket_size)

-- One level is the one that was written, and the others are as before.
abbrev pub written : Half → ℕ → ℤ → ℕ → ℤ
written h idx q j = if idx == j then offered q else level h j

-- The levels after the write of one place.
put_level :
    (h : Half) (b j : ℕ) (o : Option Bucket)
    → level_in (write h.buckets b o (j / bucket_size)) (j % bucket_size)
      ≡ (if b == j / bucket_size then level_in o (j % bucket_size) else level h j)
put_level h b j o = elim (Bool-cases (b == j / bucket_size)) [
  | inl e ↦ rw e refl
  | inr e ↦ rw e refl
]

Source-level :
    (h : Half) (b j : ℕ) (k : Bucket)
    → Source h b k
    → b ≡ j / bucket_size
    → offered (k.orders (j % bucket_size)) ≡ level h j
unfolding level_in offered
Source-level h b j k (present e) same =
    let there : h.buckets (j / bucket_size) ≡ some k = rw (← same) e in rw there refl
Source-level h b j k (fresh e f) same =
    let there : h.buckets (j / bucket_size) ≡ none = rw (← same) e in rw (there, f) refl

offered-written :
    (h : Half) (b off j : ℕ) (q : ℤ) (k : Bucket)
    → off < bucket_size
    → Source h b k
    → (if b == j / bucket_size then offered (write k.orders off q (j % bucket_size)) else level h j)
      ≡ written h (b * bucket_size + off) q j
offered-written h b off j q k lt src = elim (Bool-cases (b == j / bucket_size)) [
  | inr e ↦ let ne : (b * bucket_size + off == j) ≡ false = ground arith in rw (e, ne) refl
  | inl e ↦ elim (Bool-cases (off == j % bucket_size)) [
    | inl f ↦ let eq : (b * bucket_size + off == j) ≡ true = ground arith in rw (e, f, eq) refl
    | inr f ↦
        let ne : (b * bucket_size + off == j) ≡ false = ground arith in
        rw (e, f, ne) (Source-level h b j k src ((==_iff b (j / bucket_size)).0 e))
  ]
]

update_bucket-level :
    (h : Half) (b off j : ℕ) (q : ℤ) (k : Bucket)
    → off < bucket_size
    → IsValidHalf h
    → Source h b k
    → level (update_bucket h b off q k) j ≡ written h (b * bucket_size + off) q j
unfolding update_bucket level_in offered
update_bucket-level h b off j q k lt v src = elim (Bool-cases (is_active_qty q)) [
  | inl on ↦
      ap (λ x. level_in (x.buckets (j / bucket_size)) (j % bucket_size)) (one on)
      ∙ put_level h b j (some (add_level k off q))
      ∙ offered-written h b off j q k lt src
  | inr idle ↦ elim (Bool-cases (is_empty_bucket (remove_level k off q))) [
    | inl none_left ↦
        ap (λ x. level_in (x.buckets (j / bucket_size)) (j % bucket_size)) (two idle none_left)
        ∙ put_level h b j none
        ∙ gone none_left idle
        ∙ offered-written h b off j q k lt src
    | inr left ↦
        ap (λ x. level_in (x.buckets (j / bucket_size)) (j % bucket_size)) (three idle left)
        ∙ put_level h b j (some (remove_level k off q))
        ∙ offered-written h b off j q k lt src
  ]
]
  where
    one :
        is_active_qty q ≡ true
        → update_bucket h b off q k ≡ record h {
          buckets = write h.buckets b (some (add_level k off q));
          summary = set_summary h.summary b;
        }
    one on = rw on refl

    two :
        is_active_qty q ≡ false
        → is_empty_bucket (remove_level k off q) ≡ true
        → update_bucket h b off q k ≡ record h {
          buckets = write h.buckets b none;
          summary = clear_summary h.summary b;
          free_buckets = suc h.free_buckets;
        }
    two idle e = rw (idle, e) refl

    three :
        is_active_qty q ≡ false
        → is_empty_bucket (remove_level k off q) ≡ false
        → update_bucket h b off q k
          ≡ record h { buckets = write h.buckets b (some (remove_level k off q)) }
    three idle e = rw (idle, e) refl

    gone :
        is_empty_bucket (remove_level k off q) ≡ true
        → is_active_qty q ≡ false
        → (if b == j / bucket_size then level_in none (j % bucket_size) else level h j) ≡ (
            if b == j / bucket_size
            then offered (write k.orders off q (j % bucket_size))
            else level h j)
    gone none_left idle =
        let off_level : is_active_qty (write k.orders off q (j % bucket_size)) ≡ false =
          empty_inactive (remove_level k off q)
            (removed_fits k off q (Source-fits h b k v src) idle) none_left (j % bucket_size)
            (omega arith) in
        rw off_level refl

pub ℕ-cases : (n : ℕ) → (n ≡ zero) ⊎ ((m : ℕ) × (n ≡ suc m))
ℕ-cases zero = inl refl
ℕ-cases (suc m) = inr (m, refl)

-- What an update promises: a valid side stays valid, the level is the one written, the other levels
-- and the cached index are as before.
pub record Updated (h : Half) (idx : ℕ) (q : ℤ) (h' : Half) : Type 0 where
  pub valid : IsValidHalf h'
  pub levels : (j : ℕ) → level h' j ≡ written h idx q j
  pub cached : h'.cached_best ≡ h.cached_best

update_bucket-cached :
    (h : Half) (b off : ℕ) (q : ℤ) (k : Bucket)
    → (update_bucket h b off q k).cached_best ≡ h.cached_best
unfolding update_bucket
update_bucket-cached h b off q k = ground arith

update_bucket-Updated :
    (h : Half) (idx : ℕ) (q : ℤ) (k : Bucket)
    → IsValidHalf h
    → Source h (idx / bucket_size) k
    → Updated h idx q (update_bucket h (idx / bucket_size) (idx % bucket_size) q k)
update_bucket-Updated h idx q k v src =
    let whole : idx / bucket_size * bucket_size + idx % bucket_size ≡ idx = omega arith in
    record {
      valid = update_bucket-valid h (idx / bucket_size) (idx % bucket_size) q k (omega arith) v src;
      levels = λ j.
          update_bucket-level h (idx / bucket_size) (idx % bucket_size) j q k (omega arith) v src
          ∙ ap (λ i. written h i q j) whole;
      cached = update_bucket-cached h (idx / bucket_size) (idx % bucket_size) q k;
    }

-- An update of a valid side that succeeds writes its level and no other, keeps the bitmaps and the
-- summary in step with the levels, and leaves the cached index alone.
pub update-Updated :
    (h h' : Half) (idx : ℕ) (q : ℤ) → IsValidHalf h → update h idx q ≡ some h' → Updated h idx q h'
unfolding update
update-Updated h h' idx q v e = elim (Option-cases (h.buckets (idx / bucket_size))) [
  | inr (k, there) ↦
      let same : update_bucket h (idx / bucket_size) (idx % bucket_size) q k ≡ h' =
        ground (arith, e, there) in
      rw (← same) (update_bucket-Updated h idx q k v (present there))
  | inl none_there ↦ elim (ℕ-cases h.free_buckets) [
    | inl gone ↦ absurd (ground (arith, e, none_there, gone))
    | inr (n, left) ↦
        let same : update_bucket (record h { free_buckets = n }) (idx / bucket_size)
              (idx % bucket_size) q empty_bucket
            ≡ h' =
          ground (arith, e, none_there, left) in
        let u =
          update_bucket-Updated (record h { free_buckets = n }) idx q empty_bucket
            (record { bits = v.bits; filled = v.filled; named = v.named })
            (fresh none_there refl) in
        rw (← same) (record { valid = u.valid; levels = u.levels; cached = u.cached })
  ]
]
