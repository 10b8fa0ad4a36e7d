-- ===== src/Trading/OrderBook/Stock.antt =====
-- `on_market_data_updated` of hft/src/order_book.hpp against the pools: no null bucket is written
-- through where a pool has a bucket per place.
use hft.Prelude.{
  ℕ, zero, suc, ◌*◌, ◌<◌, ◌≤◌, ◌≡◌, refl, ap, inl, inr, Option, none, some, ltb, if◌then◌else◌,
  arith, Bool-cases,
}
use hft.Prelude.Int.{ℤ, pos}
use hft.Common.Types.{Side, is_buy}
use hft.Trading.OrderBook.{
  Search, highest, lowest, bucket_size, Bucket, Half, update, best_idx, cached_valid, search_best,
}
use hft.Trading.OrderBook.Recompute.{set_cached}
use hft.Trading.OrderBook.Pool.{IsPooled, update-total, update-IsPooled}
use hft.Trading.OrderBook.Invariant.{IsConfig}
use hft.Trading.OrderBook.Market.{
  OrderBookConfig, Wing, recompute, on_some, after_delete, delete_in, after_add, add_in, MarketBook,
  put_bid, put_ask, add_order, delete_order, one_if, count_buckets, clear_wing, leading, is_cached,
}

abbrev pub Stocked : OrderBookConfig → Wing → Type 0
Stocked c w = IsPooled c.bucket_count c.bucket_pool_size w.half

-- Both pools have a bucket per place, and account for all their buckets.
pub record IsStocked (b : MarketBook) : Type 0 where
  pub config : IsConfig b.config
  pub enough : b.config.bucket_count ≤ b.config.bucket_pool_size
  pub bid : Stocked b.config b.bid
  pub ask : Stocked b.config b.ask

pub best_idx-set_cached :
    (d : Search) (h : Half) (n : ℕ) → (o : Option ℕ) × (best_idx d h n ≡ (o, set_cached h o))
unfolding best_idx
best_idx-set_cached d h n = elim (Bool-cases (cached_valid h)) [
  | inl e ↦ (h.cached_best, rw e refl)
  | inr e ↦ (search_best d h n, rw e refl)
]

recached :
    (n size : ℕ) (h : Half) (o : Option ℕ) → IsPooled n size h → IsPooled n size (set_cached h o)
recached n size h o p = record { within = p.within; counted = p.counted }

recompute-Stocked :
    (d : Search) (c : OrderBookConfig) (h : Half)
    → IsPooled c.bucket_count c.bucket_pool_size h
    → Stocked c (recompute d c h)
unfolding recompute
recompute-Stocked d c h p =
    let (o, e) = best_idx-set_cached d h c.summary_words in
    let (o', e') = best_idx-set_cached d (set_cached h o) c.summary_words in
    rw (e, e') (recached c.bucket_count c.bucket_pool_size h o' p)

after_delete-Stocked :
    (d : Search) (c : OrderBookConfig) (w : Wing) (idx : ℕ) (h : Half)
    → IsPooled c.bucket_count c.bucket_pool_size h
    → Stocked c (after_delete d c w idx h)
unfolding after_delete
after_delete-Stocked d c w idx h p = elim (Bool-cases (is_cached h idx)) [
  | inl e ↦ rw e (
      recompute-Stocked d c (set_cached h none)
        (recached c.bucket_count c.bucket_pool_size h none p))
  | inr e ↦ rw e p
]

after_add-Stocked :
    (d : Search) (c : OrderBookConfig) (w : Wing) (idx : ℕ) (q : ℤ) (h : Half)
    → IsPooled c.bucket_count c.bucket_pool_size h
    → Stocked c (after_add d c w idx q h)
unfolding after_add
after_add-Stocked d c w idx q h p = elim (Bool-cases (leading d h idx)) [
  | inl e ↦ rw e (recached c.bucket_count c.bucket_pool_size h (some idx) p)
  | inr e ↦ elim (Bool-cases (is_cached h idx)) [ inl f ↦ rw (e, f) p | inr f ↦ rw (e, f) p ]
]

-- An operation that succeeds, and what it leaves.
abbrev pub Succeeds : {A : Type 0} → (A → Type 0) → Option A → Type 0
Succeeds {A} P o = (a : A) × (o ≡ some a) × P a

pub on_some-Succeeds :
    {A B : Type 0} (P : A → Type 0) (Q : B → Type 0) (f : A → B) (o : Option A)
    → Succeeds P o
    → ((a : A) → P a → Q (f a))
    → Succeeds Q (on_some f o)
unfolding on_some
on_some-Succeeds P Q f o (a, e, p) g = (f a, rw e refl, g a p)

update-Succeeds :
    (c : OrderBookConfig) (w : Wing) (idx : ℕ) (q : ℤ)
    → Stocked c w
    → c.bucket_count ≤ c.bucket_pool_size
    → idx < c.bucket_count * bucket_size
    → Succeeds (IsPooled c.bucket_count c.bucket_pool_size) (update w.half idx q)
update-Succeeds c w idx q p enough lt =
    let (h, e) = update-total w.half c.bucket_count c.bucket_pool_size idx q p enough lt in
    (h, e, update-IsPooled w.half h c.bucket_count c.bucket_pool_size idx q p lt e)

pub add_in-Succeeds :
    (d : Search) (c : OrderBookConfig) (w : Wing) (idx : ℕ) (q : ℤ)
    → Stocked c w
    → c.bucket_count ≤ c.bucket_pool_size
    → idx < c.bucket_count * bucket_size
    → Succeeds (Stocked c) (add_in d c w idx q)
unfolding add_in
add_in-Succeeds d c w idx q p enough lt =
    on_some-Succeeds (IsPooled c.bucket_count c.bucket_pool_size) (Stocked c)
      (after_add d c w idx q) (update w.half idx q) (update-Succeeds c w idx q p enough lt)
      (λ h k. after_add-Stocked d c w idx q h k)

delete_in-Succeeds :
    (d : Search) (c : OrderBookConfig) (w : Wing) (idx : ℕ)
    → Stocked c w
    → c.bucket_count ≤ c.bucket_pool_size
    → idx < c.bucket_count * bucket_size
    → Succeeds (Stocked c) (delete_in d c w idx)
unfolding delete_in
delete_in-Succeeds d c w idx p enough lt =
    on_some-Succeeds (IsPooled c.bucket_count c.bucket_pool_size) (Stocked c)
      (after_delete d c w idx) (update w.half idx (pos 0))
      (update-Succeeds c w idx (pos 0) p enough lt) (λ h k. after_delete-Stocked d c w idx h k)

pub add_order-Succeeds :
    (b : MarketBook) (s : Side) (idx : ℕ) (q : ℤ)
    → IsStocked b
    → idx < b.config.bucket_count * bucket_size
    → Succeeds IsStocked (add_order b s idx q)
unfolding add_order
add_order-Succeeds b s idx q p lt = elim (Bool-cases (is_buy s)) [
  | inl buys ↦ rw buys (
      on_some-Succeeds (Stocked b.config) IsStocked (put_bid b)
        (add_in highest b.config b.bid idx q)
        (add_in-Succeeds highest b.config b.bid idx q p.bid p.enough lt)
        (λ w k. record { config = p.config; enough = p.enough; bid = k; ask = p.ask }))
  | inr sells ↦ rw sells (
      on_some-Succeeds (Stocked b.config) IsStocked (put_ask b) (add_in lowest b.config b.ask idx q)
        (add_in-Succeeds lowest b.config b.ask idx q p.ask p.enough lt)
        (λ w k. record { config = p.config; enough = p.enough; bid = p.bid; ask = k }))
]

pub delete_order-Succeeds :
    (b : MarketBook) (s : Side) (idx : ℕ)
    → IsStocked b
    → idx < b.config.bucket_count * bucket_size
    → Succeeds IsStocked (delete_order b s idx)
unfolding delete_order
delete_order-Succeeds b s idx p lt = elim (Bool-cases (is_buy s)) [
  | inl buys ↦ rw buys (
      on_some-Succeeds (Stocked b.config) IsStocked (put_bid b)
        (delete_in highest b.config b.bid idx)
        (delete_in-Succeeds highest b.config b.bid idx p.bid p.enough lt)
        (λ w k. record { config = p.config; enough = p.enough; bid = k; ask = p.ask }))
  | inr sells ↦ rw sells (
      on_some-Succeeds (Stocked b.config) IsStocked (put_ask b)
        (delete_in lowest b.config b.ask idx)
        (delete_in-Succeeds lowest b.config b.ask idx p.ask p.enough lt)
        (λ w k. record { config = p.config; enough = p.enough; bid = p.bid; ask = k }))
]

pub count_none :
    (f : ℕ → Option Bucket) (n : ℕ) → ((i : ℕ) → i < n → f i ≡ none) → count_buckets f n ≡ 0
unfolding count_buckets one_if
count_none f zero h = refl
count_none f (suc n) h =
    let ih = count_none f n (λ i lt. h i (omega arith)) in
    let one : one_if (f n) ≡ 0 = ap one_if (h n (omega arith)) in omega arith

-- kClear gives every bucket back.
pub clear_wing-Stocked : (c : OrderBookConfig) (w : Wing) → Stocked c w → Stocked c (clear_wing c w)
unfolding clear_wing
clear_wing-Stocked c w p = record {
  within = λ b le. (let later = p.within b le in ground (arith, le, later));
  counted =
      (let none_left =
          count_none (λ i. if ltb i c.bucket_count then none else w.half.buckets i) c.bucket_count
            (λ i lt. ground (arith, lt)) in
        let counted = p.counted in omega arith);
}
