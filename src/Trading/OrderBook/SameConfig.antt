-- ===== src/Trading/OrderBook/SameConfig.antt =====
-- The configuration of the book of hft/src/order_book.hpp under entries of market data.
use hft.Prelude.{ℕ, ◌≡◌, refl, sym, ap, ◌∙◌, inl, inr, Option, some, arith, Bool-cases}
use hft.Prelude.Int.{ℤ}
use hft.Common.Types.{Side, is_buy}
use hft.Core.MarketData.{
  MarketUpdateType, MarketData, invalid_update, add, modify, cancel, clear, trade_tick, book_ticker,
}
use hft.Trading.OrderBook.{highest, lowest}
use hft.Trading.OrderBook.Invariant.{on_some-some, noticed}
use hft.Trading.OrderBook.Market.{
  MarketBook, Notice, in_price_range, on_market_data_updated, Wing, on_some, put_bid, put_ask,
  add_order, delete_order, add_in, delete_in, clear_wing, apply_update, on_orderbook_updated,
  price_to_index,
}

bid_config :
    (b b' : MarketBook) (o : Option Wing) → on_some (put_bid b) o ≡ some b' → b'.config ≡ b.config
bid_config b b' o e =
    let (w, done, same) = on_some-some (put_bid b) o b' e in ap (λ x. x.config) (sym same)

ask_config :
    (b b' : MarketBook) (o : Option Wing) → on_some (put_ask b) o ≡ some b' → b'.config ≡ b.config
ask_config b b' o e =
    let (w, done, same) = on_some-some (put_ask b) o b' e in ap (λ x. x.config) (sym same)

add_config :
    (b b' : MarketBook) (s : Side) (idx : ℕ) (q : ℤ)
    → add_order b s idx q ≡ some b'
    → b'.config ≡ b.config
unfolding add_order
add_config b b' s idx q e = elim (Bool-cases (is_buy s)) [
  | inl buys ↦ bid_config b b' (add_in highest b.config b.bid idx q) (sym (rw buys refl) ∙ e)
  | inr sells ↦ ask_config b b' (add_in lowest b.config b.ask idx q) (sym (rw sells refl) ∙ e)
]

delete_config :
    (b b' : MarketBook) (s : Side) (idx : ℕ) → delete_order b s idx ≡ some b' → b'.config ≡ b.config
unfolding delete_order
delete_config b b' s idx e = elim (Bool-cases (is_buy s)) [
  | inl buys ↦ bid_config b b' (delete_in highest b.config b.bid idx) (sym (rw buys refl) ∙ e)
  | inr sells ↦ ask_config b b' (delete_in lowest b.config b.ask idx) (sym (rw sells refl) ∙ e)
]

apply_config :
    (b b' : MarketBook) (ty : MarketUpdateType) (s : Side) (price q : ℤ) (idx : ℕ) (n : Notice)
    → apply_update b (record { update_type = ty; side = s; price = price; qty = q }) idx
      ≡ some (b', n)
    → b'.config ≡ b.config
unfolding apply_update
apply_config b b' invalid_update s price q idx n e =
    let same : b ≡ b' = ground (arith, e) in ap (λ x. x.config) (sym same)
apply_config b b' clear s price q idx n e =
    let same : record b { bid = clear_wing b.config b.bid; ask = clear_wing b.config b.ask } ≡ b' =
      ground (arith, e) in
    ap (λ x. x.config) (sym same)
apply_config b b' add s price q idx n e =
    add_config b b' s idx q (noticed on_orderbook_updated n (add_order b s idx q) b' e)
apply_config b b' modify s price q idx n e =
    add_config b b' s idx q (noticed on_orderbook_updated n (add_order b s idx q) b' e)
apply_config b b' cancel s price q idx n e =
    delete_config b b' s idx (noticed on_orderbook_updated n (delete_order b s idx) b' e)
apply_config b b' trade_tick s price q idx n e =
    let same : b ≡ b' = ground (arith, e) in ap (λ x. x.config) (sym same)
apply_config b b' book_ticker s price q idx n e =
    let same : b ≡ b' = ground (arith, e) in ap (λ x. x.config) (sym same)

-- The configuration of a book stays.
pub same_config :
    (b b' : MarketBook) (m : MarketData) (n : Notice)
    → on_market_data_updated b m ≡ some (b', n)
    → b'.config ≡ b.config
unfolding on_market_data_updated
same_config b b' m n e = elim (Bool-cases (in_price_range b.config m.price)) [
  | inl within ↦
      apply_config b b' m.update_type m.side m.price m.qty (price_to_index b.config m.price) n
        (sym (rw within refl) ∙ e)
  | inr outside ↦ let same : b ≡ b' = ground (arith, e, outside) in ap (λ x. x.config) (sym same)
]
