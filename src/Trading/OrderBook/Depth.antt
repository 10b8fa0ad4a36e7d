-- ===== src/Trading/OrderBook/Depth.antt =====
-- What the book of hft/src/order_book.hpp stands for, the quantity offered at each price, and what an
-- entry of market data promises of it.
use hft.Prelude.{ℕ, ◌-◌, ◌≡◌, refl, ◌∙◌, inl, inr, true, none, some, if◌then◌else◌, Bool-cases}
use hft.Prelude.Int.{ℤ, pos, eqb_ℤ}
use hft.Common.Types.{Side, is_buy}
use hft.Core.MarketData.{
  MarketData, invalid_update, clear, add, modify, cancel, trade_tick, book_ticker,
}
use hft.Trading.OrderBook.{Search, Half, update}
use hft.Trading.OrderBook.Levels.{IsValidHalf}
use hft.Trading.OrderBook.Update.{offered, level, written, update-Updated}
use hft.Trading.OrderBook.Recompute.{set_cached}
use hft.Trading.OrderBook.Stock.{best_idx-set_cached}
use hft.Trading.OrderBook.Invariant.{on_some-some}
use hft.Trading.OrderBook.Market.{
  OrderBookConfig, Wing, recompute, after_delete, delete_in, after_add, add_in, leading, is_cached,
  MarketBook, in_price_range,
}

-- The quantities at each price, of the bids and of the asks.
pub record Depth : Type 0 where
  pub bids : ℕ → ℤ
  pub asks : ℕ → ℤ

abbrev pub set_price : (ℕ → ℤ) → ℤ → ℤ → ℕ → ℤ
set_price f price q p = if eqb_ℤ price (pos p) then q else f p

abbrev pub set_depth : Depth → Side → ℤ → ℤ → Depth
set_depth t s price q =
    if is_buy s
    then record { bids = set_price t.bids price q; asks = t.asks }
    else record { bids = t.bids; asks = set_price t.asks price q }

abbrev pub no_depth : Depth
no_depth = record { bids = λ _. pos 0; asks = λ _. pos 0 }

-- What an entry in the range of prices promises.
unfoldable pub depth_after : Depth → MarketData → Depth
depth_after t m = elim m.update_type [
  | invalid_update ↦ t
  | clear ↦ no_depth
  | add ↦ set_depth t m.side m.price (offered m.qty)
  | modify ↦ set_depth t m.side m.price (offered m.qty)
  | cancel ↦ set_depth t m.side m.price (pos 0)
  | trade_tick ↦ t
  | book_ticker ↦ t
]

unfoldable pub spec_step : OrderBookConfig → Depth → MarketData → Depth
spec_step c t m = if in_price_range c m.price then depth_after t m else t

-- The depth that a book stands for.
abbrev pub depth : MarketBook → Depth
depth b = record {
  bids = λ p. level b.bid.half (p - b.config.min_price_int);
  asks = λ p. level b.ask.half (p - b.config.min_price_int);
}

-- The same quantities at the prices of the range.
pub record Agrees (c : OrderBookConfig) (t u : Depth) : Type 0 where
  pub bids : (p : ℕ) → in_price_range c (pos p) ≡ true → t.bids p ≡ u.bids p
  pub asks : (p : ℕ) → in_price_range c (pos p) ≡ true → t.asks p ≡ u.asks p

pub after_add-level :
    (d : Search) (c : OrderBookConfig) (w : Wing) (idx j : ℕ) (q : ℤ) (h : Half)
    → level (after_add d c w idx q h).half j ≡ level h j
unfolding after_add
after_add-level d c w idx j q h = elim (Bool-cases (leading d h idx)) [
  | inl e ↦ rw e refl
  | inr e ↦ elim (Bool-cases (is_cached h idx)) [ inl f ↦ rw (e, f) refl | inr f ↦ rw (e, f) refl ]
]

pub after_delete-level :
    (d : Search) (c : OrderBookConfig) (w : Wing) (idx j : ℕ) (h : Half)
    → level (after_delete d c w idx h).half j ≡ level h j
unfolding after_delete recompute
after_delete-level d c w idx j h = elim (Bool-cases (is_cached h idx)) [
  | inr e ↦ rw e refl
  | inl e ↦
      let (o, f) = best_idx-set_cached d (set_cached h none) c.summary_words in
      let (o', f') = best_idx-set_cached d (set_cached h o) c.summary_words in rw (e, f, f') refl
]

pub add_in-level :
    (d : Search) (c : OrderBookConfig) (w w' : Wing) (idx j : ℕ) (q : ℤ)
    → IsValidHalf w.half
    → add_in d c w idx q ≡ some w'
    → level w'.half j ≡ written w.half idx q j
unfolding add_in
add_in-level d c w w' idx j q v e =
    let (h, done, same) = on_some-some (after_add d c w idx q) (update w.half idx q) w' e in
    rw (← same) (after_add-level d c w idx j q h ∙ (update-Updated w.half h idx q v done).levels j)

pub delete_in-level :
    (d : Search) (c : OrderBookConfig) (w w' : Wing) (idx j : ℕ)
    → IsValidHalf w.half
    → delete_in d c w idx ≡ some w'
    → level w'.half j ≡ written w.half idx (pos 0) j
unfolding delete_in
delete_in-level d c w w' idx j v e =
    let (h, done, same) = on_some-some (after_delete d c w idx) (update w.half idx (pos 0)) w' e in
    rw (← same)
      (after_delete-level d c w idx j h ∙ (update-Updated w.half h idx (pos 0) v done).levels j)
