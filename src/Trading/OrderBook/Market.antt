-- ===== src/Trading/OrderBook/Market.antt =====
-- `MarketOrderBook` of hft/src/order_book.hpp: both sides, the best bid and offer, and the handling of
-- market data. The code of the bid side and of the ask side is one text here, over a side's half and
-- its two fields of the BBO, with the direction of the search as an argument.
use hft.Prelude.{
  ℕ, zero, suc, ◌+◌, ◌-◌, ◌/◌, Bool, true, false, ◌||◌, Option, none, some, List, [], ◌∷◌, not, ltb,
  ◌==◌, if◌then◌else◌, ◌^◌,
}
use hft.Prelude.Bits.{zero_word, word_bits}
use hft.Prelude.Int.{ℤ, pos, pos_part, ltb_ℤ}
use hft.Common.Types.{Side, is_buy}
use hft.Core.MarketData.{
  MarketData, invalid_update, clear, add, modify, cancel, trade_tick, book_ticker,
}
use hft.Trading.OrderBook.{
  Search, highest, lowest, bucket_size, Bucket, Half, update, order_at, best_idx, next_active,
}

-- `OrderBookConfig`, for prices that are not negative
pub record OrderBookConfig : Type 0 where
  pub min_price_int : ℕ
  pub max_price_int : ℕ
  pub num_levels : ℕ
  pub bucket_count : ℕ
  pub summary_words : ℕ
  pub bucket_pool_size : ℕ

-- `kMaxBucketPoolSize`
abbrev pub max_bucket_pool_size : ℕ
max_bucket_pool_size = 256

abbrev pub min_ℕ : ℕ → ℕ → ℕ
min_ℕ a b = if ltb b a then b else a

-- `OrderBookConfig::from_ini`, of the two values that it reads
unfoldable pub from_ini : ℕ → ℕ → OrderBookConfig
from_ini min_price max_price =
    let levels = max_price + 1 - min_price in
    let count = (levels + bucket_size - 1) / bucket_size in
    record {
      min_price_int = min_price;
      max_price_int = max_price;
      num_levels = levels;
      bucket_count = count;
      summary_words = (count + word_bits - 1) / word_bits;
      bucket_pool_size = min_ℕ count max_bucket_pool_size;
    }

-- `price_to_index`, at a price that is not below the least one, and `index_to_price`
abbrev pub price_to_index : OrderBookConfig → ℤ → ℕ
price_to_index c price = pos_part price - c.min_price_int

abbrev pub index_to_price : OrderBookConfig → ℕ → ℤ
index_to_price c idx = pos (c.min_price_int + idx)

-- `kInvalidValue` of prices and quantities
abbrev pub invalid_value : ℤ
invalid_value = pos (2 ^ 63 - 1)

-- One side's price and quantity in `BBO`.
pub record Quote : Type 0 where
  pub price : ℤ
  pub qty : ℤ

abbrev pub no_quote : Quote
no_quote = record { price = invalid_value; qty = invalid_value }

-- What the book keeps of one side.
pub record Wing : Type 0 where
  pub half : Half
  pub quote : Quote

pub record MarketBook : Type 0 where
  pub config : OrderBookConfig
  pub bid : Wing
  pub ask : Wing

abbrev pub empty_wing : OrderBookConfig → Wing
empty_wing c = record {
  half = record {
    buckets = λ _. none;
    summary = λ _. zero_word;
    cached_best = none;
    free_buckets = c.bucket_pool_size;
  };
  quote = no_quote;
}

-- The constructor.
abbrev pub new_book : OrderBookConfig → MarketBook
new_book c = record { config = c; bid = empty_wing c; ask = empty_wing c }

-- `best_bid_price`, `best_ask_price`, and `best_bid_qty`, `best_ask_qty`, of the index that was found
unfoldable pub price_of : OrderBookConfig → Option ℕ → ℤ
price_of c none = invalid_value
price_of c (some idx) = index_to_price c idx

unfoldable pub qty_of : Half → Option ℕ → ℤ
qty_of h none = invalid_value
qty_of h (some idx) = order_at h idx

-- The price is searched for, and then the quantity.
unfoldable pub recompute : Search → OrderBookConfig → Half → Wing
recompute d c h =
    let (p, h1) = best_idx d h c.summary_words in
    let (q, h2) = best_idx d h1 c.summary_words in
    record { half = h2; quote = record { price = price_of c p; qty = qty_of h2 q } }

abbrev pub is_cached : Half → ℕ → Bool
is_cached h idx = elim h.cached_best [ none ↦ false | some k ↦ idx == k ]

-- `idx > cached_best_bid_idx_`, `idx < cached_best_ask_idx_`
abbrev pub beats : Search → ℕ → ℕ → Bool
beats highest idx k = ltb k idx
beats lowest idx k = ltb idx k

unfoldable pub on_some : {A B : Type 0} → (A → B) → Option A → Option B
on_some f none = none
on_some f (some a) = some (f a)

-- One side of `delete_order`, before and after the level is gone
unfoldable pub after_delete : Search → OrderBookConfig → Wing → ℕ → Half → Wing
after_delete d c w idx h =
    if is_cached h idx
    then recompute d c (record h { cached_best = none })
    else record w { half = h }

unfoldable pub delete_in : Search → OrderBookConfig → Wing → ℕ → Option Wing
delete_in d c w idx = on_some (after_delete d c w idx) (update w.half idx (pos 0))

-- One side of `add_order`, before and after the level is written
abbrev pub leading : Search → Half → ℕ → Bool
leading d h idx = elim h.cached_best [ none ↦ true | some k ↦ beats d idx k ]

unfoldable pub after_add : Search → OrderBookConfig → Wing → ℕ → ℤ → Half → Wing
after_add d c w idx qty h =
    if leading d h idx
    then record {
      half = record h { cached_best = some idx };
      quote = record { price = index_to_price c idx; qty = qty };
    }
    else if is_cached h idx
    then record { half = h; quote = record { price = w.quote.price; qty = qty } }
    else record w { half = h }

unfoldable pub add_in : Search → OrderBookConfig → Wing → ℕ → ℤ → Option Wing
add_in d c w idx qty = on_some (after_add d c w idx qty) (update w.half idx qty)

abbrev pub put_bid : MarketBook → Wing → MarketBook
put_bid b w = record b { bid = w }

abbrev pub put_ask : MarketBook → Wing → MarketBook
put_ask b w = record b { ask = w }

unfoldable pub delete_order : MarketBook → Side → ℕ → Option MarketBook
delete_order b s idx =
    if is_buy s
    then on_some (put_bid b) (delete_in highest b.config b.bid idx)
    else on_some (put_ask b) (delete_in lowest b.config b.ask idx)

unfoldable pub add_order : MarketBook → Side → ℕ → ℤ → Option MarketBook
add_order b s idx qty =
    if is_buy s
    then on_some (put_bid b) (add_in highest b.config b.bid idx qty)
    else on_some (put_ask b) (add_in lowest b.config b.ask idx qty)

-- The buckets there are among the first `n`.
unfoldable pub one_if : Option Bucket → ℕ
one_if none = 0
one_if (some k) = 1

unfoldable pub count_buckets : (ℕ → Option Bucket) → ℕ → ℕ
count_buckets f zero = 0
count_buckets f (suc n) = one_if (f n) + count_buckets f n

-- What kClear does to a side: the cached index stays.
unfoldable pub clear_wing : OrderBookConfig → Wing → Wing
clear_wing c w = record {
  half = record w.half {
    buckets = λ i. if ltb i c.bucket_count then none else w.half.buckets i;
    summary = λ i. if ltb i c.summary_words then zero_word else w.half.summary i;
    free_buckets = w.half.free_buckets + count_buckets w.half.buckets c.bucket_count;
  };
  quote = no_quote;
}

-- The call of the trade engine that an entry leads to, if any; the engine is set.
pub data Notice : Type 0 where
  silent on_trade_updated on_book_ticker_updated on_orderbook_updated : Notice

abbrev pub with_notice : Notice → MarketBook → MarketBook × Notice
with_notice n b = (b, n)

-- The switch of `on_market_data_updated`
unfoldable pub apply_update : MarketBook → MarketData → ℕ → Option (MarketBook × Notice)
apply_update b m idx = elim m.update_type [
  | invalid_update ↦ some (b, on_orderbook_updated)
  | clear ↦
      some (record b { bid = clear_wing b.config b.bid; ask = clear_wing b.config b.ask }, silent)
  | add ↦ on_some (with_notice on_orderbook_updated) (add_order b m.side idx m.qty)
  | modify ↦ on_some (with_notice on_orderbook_updated) (add_order b m.side idx m.qty)
  | cancel ↦ on_some (with_notice on_orderbook_updated) (delete_order b m.side idx)
  | trade_tick ↦ some (b, on_trade_updated)
  | book_ticker ↦ some (b, on_book_ticker_updated)
]

abbrev pub in_price_range : OrderBookConfig → ℤ → Bool
in_price_range c price =
    not (ltb_ℤ (pos c.max_price_int) price || ltb_ℤ price (pos c.min_price_int))

unfoldable pub on_market_data_updated : MarketBook → MarketData → Option (MarketBook × Notice)
on_market_data_updated b m =
    if in_price_range b.config m.price
    then apply_update b m (price_to_index b.config m.price)
    else some (b, silent)

-- The levels after one, `m` at most.
unfoldable pub levels_after : Search → Half → ℕ → ℕ → ℕ → List ℕ
levels_after d h n zero idx = []
levels_after d h n (suc m) idx = elim (next_active d h idx n) [
  | none ↦ []
  | some k ↦ k ∷ levels_after d h n m k
]

-- `peek_levels`, with the half as the search for the best level leaves it
unfoldable pub peek_levels : Search → Half → ℕ → ℕ → List ℕ × Half
peek_levels d h n level =
    let (best, h') = best_idx d h n in
    elim best [ none ↦ ([], h') | some idx ↦ (idx ∷ levels_after d h' n (level - 1) idx, h') ]

-- A history of entries, one after the other.
unfoldable pub on_all_updated : MarketBook → List MarketData → Option MarketBook
on_all_updated b [] = some b
on_all_updated b (m ∷ ms) = elim (on_market_data_updated b m) [
  | none ↦ none
  | some r ↦ on_all_updated r.0 ms
]
