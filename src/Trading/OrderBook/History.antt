-- ===== src/Trading/OrderBook/History.antt =====
-- Histories of market data on the book of hft/src/order_book.hpp.
use hft.Prelude.{
  ℕ, ◌+◌, ◌*◌, ◌<◌, ◌≤◌, ◌≡◌, refl, subst, inl, inr, true, Option, none, some, List, [], ◌∷◌, arith,
  Bool-cases, Option-cases, All,
}
use hft.Prelude.Int.{ℤ}
use hft.Common.Types.{Side}
use hft.Core.MarketData.{
  MarketUpdateType, MarketData, invalid_update, clear, add, modify, cancel, trade_tick, book_ticker,
}
use hft.Trading.OrderBook.{bucket_size}
use hft.Trading.OrderBook.Invariant.{
  IsConfig, IsBook, is_regular, in_range-index, new_book-IsBook, on_market_data_updated-IsBook,
}
use hft.Trading.OrderBook.Stock.{
  IsStocked, Succeeds, on_some-Succeeds, add_order-Succeeds, delete_order-Succeeds,
  clear_wing-Stocked, count_none,
}
use hft.Trading.OrderBook.Market.{
  OrderBookConfig, price_to_index, on_some, new_book, count_buckets, MarketBook, add_order,
  delete_order, clear_wing, apply_update, Notice, silent, on_trade_updated, on_book_ticker_updated,
  with_notice, in_price_range, on_market_data_updated, on_orderbook_updated, on_all_updated,
}

abbrev pub KeptStock : MarketBook × Notice → Type 0
KeptStock r = IsStocked r.0

noticed-Succeeds :
    (n : Notice) (o : Option MarketBook)
    → Succeeds IsStocked o
    → Succeeds KeptStock (on_some (with_notice n) o)
noticed-Succeeds n o s = on_some-Succeeds IsStocked KeptStock (with_notice n) o s (λ b p. p)

apply_update-Succeeds :
    (b : MarketBook) (t : MarketUpdateType) (s : Side) (price qty : ℤ) (idx : ℕ)
    → IsStocked b
    → idx < b.config.bucket_count * bucket_size
    → Succeeds KeptStock
        (apply_update b (record { update_type = t; side = s; price = price; qty = qty }) idx)
unfolding apply_update
apply_update-Succeeds b invalid_update s price qty idx p lt = ((b, on_orderbook_updated), refl, p)
apply_update-Succeeds b clear s price qty idx p lt = (
  (record b { bid = clear_wing b.config b.bid; ask = clear_wing b.config b.ask }, silent),
  refl,
  record {
    config = p.config;
    enough = p.enough;
    bid = clear_wing-Stocked b.config b.bid p.bid;
    ask = clear_wing-Stocked b.config b.ask p.ask;
  },
)
apply_update-Succeeds b add s price qty idx p lt =
    noticed-Succeeds on_orderbook_updated (add_order b s idx qty)
      (add_order-Succeeds b s idx qty p lt)
apply_update-Succeeds b modify s price qty idx p lt =
    noticed-Succeeds on_orderbook_updated (add_order b s idx qty)
      (add_order-Succeeds b s idx qty p lt)
apply_update-Succeeds b cancel s price qty idx p lt =
    noticed-Succeeds on_orderbook_updated (delete_order b s idx)
      (delete_order-Succeeds b s idx p lt)
apply_update-Succeeds b trade_tick s price qty idx p lt = ((b, on_trade_updated), refl, p)
apply_update-Succeeds b book_ticker s price qty idx p lt = ((b, on_book_ticker_updated), refl, p)

pub on_market_data_updated-Succeeds :
    (b : MarketBook) (m : MarketData)
    → IsStocked b
    → Succeeds KeptStock (on_market_data_updated b m)
unfolding on_market_data_updated
on_market_data_updated-Succeeds b m p = elim (Bool-cases (in_price_range b.config m.price)) [
  | inl within ↦ rw within (
      apply_update-Succeeds b m.update_type m.side m.price m.qty (price_to_index b.config m.price) p
        (in_range-index b.config m.price p.config within).0)
  | inr outside ↦ ((b, silent), rw outside refl, p)
]

pub on_all_updated-Succeeds :
    (b : MarketBook) (ms : List MarketData) → IsStocked b → Succeeds IsStocked (on_all_updated b ms)
unfolding on_all_updated
on_all_updated-Succeeds b [] p = (b, refl, p)
on_all_updated-Succeeds b (m ∷ ms) p =
    let (r, e, q) = on_market_data_updated-Succeeds b m p in
    let (b', f, k) = on_all_updated-Succeeds r.0 ms q in (b', ground (arith, e, f), k)

all_free : (size n : ℕ) → size + count_buckets (λ _. none) n ≡ size
all_free size n = let z = count_none (λ _. none) n (λ i lt. refl) in omega arith

pub new_book-IsStocked :
    (c : OrderBookConfig)
    → IsConfig c
    → c.bucket_count ≤ c.bucket_pool_size
    → IsStocked (new_book c)
new_book-IsStocked c k enough = record {
  config = k;
  enough = enough;
  bid = record { within = λ b le. refl; counted = all_free c.bucket_pool_size c.bucket_count };
  ask = record { within = λ b le. refl; counted = all_free c.bucket_pool_size c.bucket_count };
}

-- A book whose pools have a bucket per place takes any history of market data: no entry, whatever its
-- type, price and quantity, finds its pool empty.
pub on_all_updated-total :
    (c : OrderBookConfig) (ms : List MarketData)
    → IsConfig c
    → c.bucket_count ≤ c.bucket_pool_size
    → (b : MarketBook) × (on_all_updated (new_book c) ms ≡ some b)
on_all_updated-total c ms k enough =
    let (b, e, p) = on_all_updated-Succeeds (new_book c) ms (new_book-IsStocked c k enough) in
    (b, e)

each-IsBook :
    (b b' : MarketBook) (ms : List MarketData)
    → IsBook b
    → All (λ m. is_regular m ≡ true) ms
    → on_all_updated b ms ≡ some b'
    → IsBook b'
unfolding on_all_updated
each-IsBook b b' [] v r e = let same : b ≡ b' = ground (arith, e) in subst IsBook same v
each-IsBook b b' (m ∷ ms) v (r, rs) e = elim (Option-cases (on_market_data_updated b m)) [
  | inl f ↦ absurd (ground (arith, e, f))
  | inr (x, f) ↦
      each-IsBook x.0 b' ms (on_market_data_updated-IsBook b x.0 m x.1 v r f) rs
        (ground (arith, e, f))
]

-- After any history of entries that neither clears the book nor adds a quantity that is not positive,
-- the bitmaps name exactly the active levels, and on each side the cached index and the BBO are those
-- of the best active level, or say that there is none.
pub on_all_updated-IsBook :
    (c : OrderBookConfig) (ms : List MarketData) (b : MarketBook)
    → IsConfig c
    → All (λ m. is_regular m ≡ true) ms
    → on_all_updated (new_book c) ms ≡ some b
    → IsBook b
on_all_updated-IsBook c ms b k r e = each-IsBook (new_book c) b ms (new_book-IsBook c k) r e
