-- ===== src/Trading/OrderBook/Pool.antt =====
-- The pool of buckets of hft/src/order_book.hpp: a bucket is either free or in its place.
use hft.Prelude.{
  ℕ, zero, suc, ◌+◌, ◌*◌, ◌/◌, ◌%◌, ◌<◌, ◌≤◌, ◌≡◌, refl, ap, inl, inr, Bool, false, Option, none,
  some, ◌==◌, arith, Bool-cases, Option-cases,
}
use hft.Prelude.Bits.{write}
use hft.Prelude.Int.{ℤ}
use hft.Trading.OrderBook.{
  bucket_size, is_active_qty, Bucket, empty_bucket, is_empty_bucket, add_level, remove_level,
  set_summary, clear_summary, Half, update_bucket, update,
}
use hft.Trading.OrderBook.Update.{ℕ-cases}
use hft.Trading.OrderBook.Market.{one_if, count_buckets}

pub one_if-bound : (o : Option Bucket) → one_if o ≤ 1
unfolding one_if
one_if-bound none = omega arith
one_if-bound (some k) = omega arith

pub count_bound : (f : ℕ → Option Bucket) (n : ℕ) → count_buckets f n ≤ n
unfolding count_buckets
count_bound f zero = omega arith
count_bound f (suc n) = let ih = count_bound f n in let one = one_if-bound (f n) in omega arith

count_above :
    (f : ℕ → Option Bucket) (b : ℕ) (o : Option Bucket) (n : ℕ)
    → n ≤ b
    → count_buckets (write f b o) n ≡ count_buckets f n
unfolding count_buckets
count_above f b o zero h = refl
count_above f b o (suc n) h =
    let ih = count_above f b o n (omega arith) in
    let ne : (b == n) ≡ false = ground (arith, h) in
    let same : write f b o n ≡ f n = rw ne refl in
    let one : one_if (write f b o n) ≡ one_if (f n) = ap one_if same in omega arith

-- A write of one place changes the count by that place.
pub count_write :
    (f : ℕ → Option Bucket) (b : ℕ) (o : Option Bucket) (n : ℕ)
    → b < n
    → count_buckets (write f b o) n + one_if (f b) ≡ count_buckets f n + one_if o
unfolding count_buckets
count_write f b o zero h = absurd (omega arith)
count_write f b o (suc n) h = elim (Bool-cases (b == n)) [
  | inl e ↦
      let same : b ≡ n = ground (arith, e) in
      let above = count_above f b o n (omega arith) in
      let here : write f b o n ≡ o = rw e refl in
      let one : one_if (write f b o n) ≡ one_if o = ap one_if here in
      let two : one_if (f b) ≡ one_if (f n) = ap (λ i. one_if (f i)) same in omega arith
  | inr e ↦
      let ih = count_write f b o n (ground (arith, h, e)) in
      let same : write f b o n ≡ f n = rw e refl in
      let one : one_if (write f b o n) ≡ one_if (f n) = ap one_if same in omega arith
]

-- All buckets of the pool are free or in a place below `n`.
pub record IsPooled (n size : ℕ) (h : Half) : Type 0 where
  pub within : (b : ℕ) → n ≤ b → h.buckets b ≡ none
  pub counted : h.free_buckets + count_buckets h.buckets n ≡ size

-- A place that is empty leaves the count below the number of places.
count_room : (f : ℕ → Option Bucket) (b n : ℕ) → b < n → f b ≡ none → count_buckets f n < n
unfolding one_if
count_room f b n lt e =
    let w = count_write f b (some empty_bucket) n lt in
    let bound = count_bound (write f b (some empty_bucket)) n in
    let one : one_if (f b) ≡ 0 = ap one_if e in omega arith

-- Where the pool has a bucket per place, an update succeeds.
pub update-total :
    (h : Half) (n size idx : ℕ) (q : ℤ)
    → IsPooled n size h
    → n ≤ size
    → idx < n * bucket_size
    → (h' : Half) × (update h idx q ≡ some h')
unfolding update
update-total h n size idx q p enough lt = elim (Option-cases (h.buckets (idx / bucket_size))) [
  | inr (k, there) ↦
      (update_bucket h (idx / bucket_size) (idx % bucket_size) q k, ground (arith, there))
  | inl gone ↦
      let room = count_room h.buckets (idx / bucket_size) n (omega arith) gone in
      let c = p.counted in
      elim (ℕ-cases h.free_buckets) [
        | inl z ↦ absurd (omega arith)
        | inr (m, left) ↦ (
          update_bucket (record h { free_buckets = m }) (idx / bucket_size) (idx % bucket_size) q
              empty_bucket,
          ground (arith, gone, left),
        )
      ]
]

-- A place that is written, with the free buckets that go with it.
put-IsPooled :
    (h : Half) (n size b : ℕ) (o : Option Bucket) (s : ℕ → ℕ → Bool) (free : ℕ)
    → IsPooled n size h
    → b < n
    → free + one_if o ≡ h.free_buckets + one_if (h.buckets b)
    → IsPooled n size (record h { buckets = write h.buckets b o; summary = s; free_buckets = free })
put-IsPooled h n size b o s free p lt e = record {
  within = λ c le. (let ne : (b == c) ≡ false = ground (arith, lt, le) in rw ne (p.within c le));
  counted = (let w = count_write h.buckets b o n lt in let c = p.counted in omega arith);
}

-- Here `h` has the buckets of `h0`, and `k` is taken from the place, or from the pool.
update_bucket-IsPooled :
    (h : Half) (n size b off : ℕ) (q : ℤ) (k : Bucket) (left : ℕ)
    → IsPooled n size h
    → b < n
    → left + 1 ≡ h.free_buckets + one_if (h.buckets b)
    → IsPooled n size (update_bucket (record h { free_buckets = left }) b off q k)
unfolding update_bucket one_if
update_bucket-IsPooled h n size b off q k left p lt e = elim (Bool-cases (is_active_qty q)) [
  | inl on ↦
      rw on
        (put-IsPooled h n size b (some (add_level k off q)) (set_summary h.summary b) left p lt e)
  | inr idle ↦ elim (Bool-cases (is_empty_bucket (remove_level k off q))) [
    | inl none_left ↦
        rw (idle, none_left)
          (put-IsPooled h n size b none (clear_summary h.summary b) (suc left) p lt (omega arith))
    | inr some_left ↦
        rw (idle, some_left)
          (put-IsPooled h n size b (some (remove_level k off q)) h.summary left p lt e)
  ]
]

pub update-IsPooled :
    (h h' : Half) (n size idx : ℕ) (q : ℤ)
    → IsPooled n size h
    → idx < n * bucket_size
    → update h idx q ≡ some h'
    → IsPooled n size h'
unfolding update one_if
update-IsPooled h h' n size idx q p lt e = elim (Option-cases (h.buckets (idx / bucket_size))) [
  | inr (k, there) ↦
      let same : update_bucket h (idx / bucket_size) (idx % bucket_size) q k ≡ h' =
        ground (arith, e, there) in
      let one : one_if (h.buckets (idx / bucket_size)) ≡ 1 = ap one_if there in
      rw (← same) (
        update_bucket-IsPooled h n size (idx / bucket_size) (idx % bucket_size) q k h.free_buckets p
          (omega arith) (omega arith))
  | inl gone ↦ elim (ℕ-cases h.free_buckets) [
    | inl z ↦ absurd (ground (arith, e, gone, z))
    | inr (m, left) ↦
        let same : update_bucket (record h { free_buckets = m }) (idx / bucket_size)
              (idx % bucket_size) q empty_bucket
            ≡ h' =
          ground (arith, e, gone, left) in
        let one : one_if (h.buckets (idx / bucket_size)) ≡ 0 = ap one_if gone in
        rw (← same) (
          update_bucket-IsPooled h n size (idx / bucket_size) (idx % bucket_size) q empty_bucket m p
            (omega arith) (omega arith))
  ]
]
