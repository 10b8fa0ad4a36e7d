-- ===== src/Trading/OrderBook/Refine.antt =====
-- `on_market_data_updated` of hft/src/order_book.hpp against the quantities at each price.
use hft.Prelude.{
  ℕ, ◌-◌, ◌*◌, ◌/◌, ◌<◌, ◌≡◌, refl, sym, ◌∙◌, inl, inr, true, some, ltb, ◌==◌, arith, Bool-cases,
}
use hft.Prelude.Int.{ℤ, pos, negsuc, eqb_ℤ}
use hft.Common.Types.{Side, is_buy}
use hft.Core.MarketData.{
  MarketUpdateType, MarketData, invalid_update, clear, add, modify, cancel, trade_tick, book_ticker,
}
use hft.Trading.OrderBook.{highest, lowest, bucket_size, Half}
use hft.Trading.OrderBook.Levels.{IsValidHalf}
use hft.Trading.OrderBook.Update.{offered, level_in, level, written}
use hft.Trading.OrderBook.Invariant.{IsConfig, on_some-some, noticed, in_range-index}
use hft.Trading.OrderBook.Market.{
  OrderBookConfig, Wing, price_to_index, delete_in, add_in, MarketBook, put_bid, put_ask, add_order,
  delete_order, clear_wing, apply_update, Notice, in_price_range, on_market_data_updated,
  on_orderbook_updated,
}
use hft.Trading.OrderBook.Depth.{
  Depth, set_price, set_depth, no_depth, depth_after, spec_step, depth, Agrees, add_in-level,
  delete_in-level,
}

-- Prices of the range and their indices.
index_of_price :
    (c : OrderBookConfig) (price : ℤ) (p : ℕ)
    → in_price_range c price ≡ true
    → in_price_range c (pos p) ≡ true
    → (price_to_index c price == p - c.min_price_int) ≡ eqb_ℤ price (pos p)
index_of_price c (pos n) p r s = ground (arith, r, s)
index_of_price c (negsuc n) p r s = ground (arith, r, s)

written_price :
    (c : OrderBookConfig) (h : Half) (price q : ℤ) (p : ℕ)
    → in_price_range c price ≡ true
    → in_price_range c (pos p) ≡ true
    → written h (price_to_index c price) q (p - c.min_price_int)
      ≡ set_price (λ i. level h (i - c.min_price_int)) price (offered q) p
written_price c h price q p r s = rw (index_of_price c price p r s) refl

Agrees-self : (c : OrderBookConfig) (t : Depth) → Agrees c t t
Agrees-self c t = record { bids = λ p r. refl; asks = λ p r. refl }

add_order-Agrees :
    (b b' : MarketBook) (s : Side) (price q : ℤ)
    → IsValidHalf b.bid.half
    → IsValidHalf b.ask.half
    → in_price_range b.config price ≡ true
    → add_order b s (price_to_index b.config price) q ≡ some b'
    → Agrees b.config (depth b') (set_depth (depth b) s price (offered q))
unfolding add_order
add_order-Agrees b b' s price q v v' r e = elim (Bool-cases (is_buy s)) [
  | inl buys ↦
      let (w, done, same) =
        on_some-some (put_bid b) (add_in highest b.config b.bid (price_to_index b.config price) q)
          b' (sym (rw buys refl) ∙ e) in
      rw (← same, buys)
        (record {
          bids = λ p t.
              add_in-level highest b.config b.bid w (price_to_index b.config price)
                (p - b.config.min_price_int) q v done
              ∙ written_price b.config b.bid.half price q p r t;
          asks = λ p t. refl;
        })
  | inr sells ↦
      let (w, done, same) =
        on_some-some (put_ask b) (add_in lowest b.config b.ask (price_to_index b.config price) q) b'
          (sym (rw sells refl) ∙ e) in
      rw (← same, sells)
        (record {
          bids = λ p t. refl;
          asks = λ p t.
              add_in-level lowest b.config b.ask w (price_to_index b.config price)
                (p - b.config.min_price_int) q v' done
              ∙ written_price b.config b.ask.half price q p r t;
        })
]

delete_order-Agrees :
    (b b' : MarketBook) (s : Side) (price : ℤ)
    → IsValidHalf b.bid.half
    → IsValidHalf b.ask.half
    → in_price_range b.config price ≡ true
    → delete_order b s (price_to_index b.config price) ≡ some b'
    → Agrees b.config (depth b') (set_depth (depth b) s price (pos 0))
unfolding delete_order offered
delete_order-Agrees b b' s price v v' r e = elim (Bool-cases (is_buy s)) [
  | inl buys ↦
      let (w, done, same) =
        on_some-some (put_bid b) (delete_in highest b.config b.bid (price_to_index b.config price))
          b' (sym (rw buys refl) ∙ e) in
      rw (← same, buys)
        (record {
          bids = λ p t.
              delete_in-level highest b.config b.bid w (price_to_index b.config price)
                (p - b.config.min_price_int) v done
              ∙ written_price b.config b.bid.half price (pos 0) p r t;
          asks = λ p t. refl;
        })
  | inr sells ↦
      let (w, done, same) =
        on_some-some (put_ask b) (delete_in lowest b.config b.ask (price_to_index b.config price))
          b' (sym (rw sells refl) ∙ e) in
      rw (← same, sells)
        (record {
          bids = λ p t. refl;
          asks = λ p t.
              delete_in-level lowest b.config b.ask w (price_to_index b.config price)
                (p - b.config.min_price_int) v' done
              ∙ written_price b.config b.ask.half price (pos 0) p r t;
        })
]

clear_wing-level :
    (c : OrderBookConfig) (w : Wing) (j : ℕ)
    → j < c.bucket_count * bucket_size
    → level (clear_wing c w).half j ≡ pos 0
unfolding clear_wing level_in
clear_wing-level c w j lt =
    let b : ltb (j / bucket_size) c.bucket_count ≡ true =
      (let l : j / bucket_size < c.bucket_count = omega arith in ground (arith, l)) in
    rw b refl

cleared-Agrees :
    (b : MarketBook)
    → IsConfig b.config
    → Agrees b.config
        (depth (record b { bid = clear_wing b.config b.bid; ask = clear_wing b.config b.ask }))
        no_depth
cleared-Agrees b k = record {
  bids = λ p r.
      clear_wing-level b.config b.bid (p - b.config.min_price_int)
        (in_range-index b.config (pos p) k r).0;
  asks = λ p r.
      clear_wing-level b.config b.ask (p - b.config.min_price_int)
        (in_range-index b.config (pos p) k r).0;
}

apply_update-Agrees :
    (b b' : MarketBook) (t : MarketUpdateType) (s : Side) (price q : ℤ) (n : Notice)
    → IsConfig b.config
    → IsValidHalf b.bid.half
    → IsValidHalf b.ask.half
    → in_price_range b.config price ≡ true
    → apply_update b
        (record { update_type = t; side = s; price = price; qty = q })
        (price_to_index b.config price)
      ≡ some (b', n)
    → Agrees b.config
        (depth b')
        (depth_after (depth b) (record { update_type = t; side = s; price = price; qty = q }))
unfolding apply_update depth_after
apply_update-Agrees b b' invalid_update s price q n k v v' r e =
    let same : b ≡ b' = ground (arith, e) in rw (← same) (Agrees-self b.config (depth b))
apply_update-Agrees b b' clear s price q n k v v' r e =
    let same : record b { bid = clear_wing b.config b.bid; ask = clear_wing b.config b.ask } ≡ b' =
      ground (arith, e) in
    rw (← same) (cleared-Agrees b k)
apply_update-Agrees b b' add s price q n k v v' r e =
    add_order-Agrees b b' s price q v v' r
      (noticed on_orderbook_updated n (add_order b s (price_to_index b.config price) q) b' e)
apply_update-Agrees b b' modify s price q n k v v' r e =
    add_order-Agrees b b' s price q v v' r
      (noticed on_orderbook_updated n (add_order b s (price_to_index b.config price) q) b' e)
apply_update-Agrees b b' cancel s price q n k v v' r e =
    delete_order-Agrees b b' s price v v' r
      (noticed on_orderbook_updated n (delete_order b s (price_to_index b.config price)) b' e)
apply_update-Agrees b b' trade_tick s price q n k v v' r e =
    let same : b ≡ b' = ground (arith, e) in rw (← same) (Agrees-self b.config (depth b))
apply_update-Agrees b b' book_ticker s price q n k v v' r e =
    let same : b ≡ b' = ground (arith, e) in rw (← same) (Agrees-self b.config (depth b))

-- Where an entry is taken by a book with valid sides, the quantity offered at every price of the range
-- is the one that the entry promises: the price of the entry's side is set or emptied, or all are
-- emptied, and every other quantity is as before.
pub on_market_data_updated-Agrees :
    (b b' : MarketBook) (m : MarketData) (n : Notice)
    → IsConfig b.config
    → IsValidHalf b.bid.half
    → IsValidHalf b.ask.half
    → on_market_data_updated b m ≡ some (b', n)
    → Agrees b.config (depth b') (spec_step b.config (depth b) m)
unfolding on_market_data_updated spec_step
on_market_data_updated-Agrees b b' m n k v v' e =
    elim (Bool-cases (in_price_range b.config m.price)) [
      | inl within ↦ rw within (
          apply_update-Agrees b b' m.update_type m.side m.price m.qty n k v v' within
            (sym (rw within refl) ∙ e))
      | inr outside ↦
          let same : b ≡ b' = ground (arith, e, outside) in
          rw (outside, ← same) (Agrees-self b.config (depth b))
    ]
