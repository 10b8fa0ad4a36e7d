-- ===== src/Trading/OrderBook/Invariant.antt =====
-- `on_market_data_updated` of hft/src/order_book.hpp keeps the best bid and the best offer in step with
-- the levels.
use hft.Prelude.{
  ℕ, ◌+◌, ◌*◌, ◌<◌, ◌≤◌, ◌≡◌, refl, sym, subst, ap, ◌∙◌, inl, inr, Bool, true, false, Option, none,
  some, arith, Bool-cases,
}
use hft.Prelude.Bits.{word_bits}
use hft.Prelude.Int.{ℤ, pos}
use hft.Common.Types.{Side, is_buy}
use hft.Core.MarketData.{
  MarketUpdateType, MarketData, invalid_update, clear, add, modify, cancel, trade_tick, book_ticker,
}
use hft.Trading.OrderBook.{Search, highest, lowest, bucket_size, is_active_qty, order_in, update}
use hft.Trading.OrderBook.Update.{update-Updated}
use hft.Trading.OrderBook.Recompute.{reach}
use hft.Trading.OrderBook.Top.{IsWing, idle_wing}
use hft.Trading.OrderBook.Wings.{after_add-IsWing, after_delete-IsWing}
use hft.Trading.OrderBook.Market.{
  OrderBookConfig, from_ini, Wing, price_to_index, on_some, after_delete, delete_in, after_add,
  add_in, empty_wing, new_book, MarketBook, put_bid, put_ask, add_order, delete_order, apply_update,
  Notice, with_notice, in_price_range, on_market_data_updated, on_orderbook_updated,
}

-- The buckets reach to the greatest price, and the summary to the last bucket.
pub record IsConfig (c : OrderBookConfig) : Type 0 where
  pub prices : c.max_price_int + 1 ≤ c.min_price_int + c.bucket_count * bucket_size
  pub buckets : c.bucket_count ≤ c.summary_words * word_bits

pub record IsBook (b : MarketBook) : Type 0 where
  pub config : IsConfig b.config
  pub bid : IsWing highest b.config b.bid
  pub ask : IsWing lowest b.config b.ask

pub on_some-some :
    {A B : Type 0} (f : A → B) (o : Option A) (b : B)
    → on_some f o ≡ some b
    → (a : A) × (o ≡ some a) × (f a ≡ b)
unfolding on_some
on_some-some f none b e = absurd (ground (arith, e))
on_some-some f (some a) b e = (a, refl, ground (arith, e))

-- What the configuration reads leads to buckets and a summary that are large enough.
pub from_ini-IsConfig : (lo hi : ℕ) → IsConfig (from_ini lo hi)
unfolding from_ini
from_ini-IsConfig lo hi = record { prices = omega arith; buckets = omega arith }

-- A price in the range has an index that the buckets, and the summary, reach.
pub in_range-index :
    (c : OrderBookConfig) (price : ℤ)
    → IsConfig c
    → in_price_range c price ≡ true
    → (price_to_index c price < c.bucket_count * bucket_size)
      × (price_to_index c price < reach c.summary_words)
in_range-index c price k e =
    let below : price_to_index c price < c.bucket_count * bucket_size =
      elim_price price (k.prices) e in
    (below, (let x = k.buckets in omega arith))
  where
    elim_price :
        (price : ℤ)
        → c.max_price_int + 1 ≤ c.min_price_int + c.bucket_count * bucket_size
        → in_price_range c price ≡ true
        → price_to_index c price < c.bucket_count * bucket_size
    elim_price price h e = ground (arith, h, e)

add_in-IsWing :
    (d : Search) (c : OrderBookConfig) (w w' : Wing) (idx : ℕ) (q : ℤ)
    → IsWing d c w
    → idx < reach c.summary_words
    → is_active_qty q ≡ true
    → add_in d c w idx q ≡ some w'
    → IsWing d c w'
unfolding add_in
add_in-IsWing d c w w' idx q v lt a e =
    let (h, done, same) = on_some-some (after_add d c w idx q) (update w.half idx q) w' e in
    subst (λ x. IsWing d c x) same
      (after_add-IsWing d c w h idx v q lt a (update-Updated w.half h idx q v.valid done))

delete_in-IsWing :
    (d : Search) (c : OrderBookConfig) (w w' : Wing) (idx : ℕ)
    → IsWing d c w
    → delete_in d c w idx ≡ some w'
    → IsWing d c w'
unfolding delete_in
delete_in-IsWing d c w w' idx v e =
    let (h, done, same) = on_some-some (after_delete d c w idx) (update w.half idx (pos 0)) w' e in
    subst (λ x. IsWing d c x) same
      (after_delete-IsWing d c w h idx v (update-Updated w.half h idx (pos 0) v.valid done))

bid_kept :
    (b b' : MarketBook) (o : Option Wing)
    → IsBook b
    → on_some (put_bid b) o ≡ some b'
    → ((w : Wing) → o ≡ some w → IsWing highest b.config w)
    → IsBook b'
bid_kept b b' o v e keeps =
    let (w, done, same) = on_some-some (put_bid b) o b' e in
    subst IsBook same (record { config = v.config; bid = keeps w done; ask = v.ask })

ask_kept :
    (b b' : MarketBook) (o : Option Wing)
    → IsBook b
    → on_some (put_ask b) o ≡ some b'
    → ((w : Wing) → o ≡ some w → IsWing lowest b.config w)
    → IsBook b'
ask_kept b b' o v e keeps =
    let (w, done, same) = on_some-some (put_ask b) o b' e in
    subst IsBook same (record { config = v.config; bid = v.bid; ask = keeps w done })

add_order-IsBook :
    (b b' : MarketBook) (s : Side) (idx : ℕ) (q : ℤ)
    → IsBook b
    → idx < reach b.config.summary_words
    → is_active_qty q ≡ true
    → add_order b s idx q ≡ some b'
    → IsBook b'
unfolding add_order
add_order-IsBook b b' s idx q v lt a e = elim (Bool-cases (is_buy s)) [
  | inl buys ↦
      bid_kept b b' (add_in highest b.config b.bid idx q) v (sym (rw buys refl) ∙ e)
        (λ w done. add_in-IsWing highest b.config b.bid w idx q v.bid lt a done)
  | inr sells ↦
      ask_kept b b' (add_in lowest b.config b.ask idx q) v (sym (rw sells refl) ∙ e)
        (λ w done. add_in-IsWing lowest b.config b.ask w idx q v.ask lt a done)
]

delete_order-IsBook :
    (b b' : MarketBook) (s : Side) (idx : ℕ) → IsBook b → delete_order b s idx ≡ some b' → IsBook b'
unfolding delete_order
delete_order-IsBook b b' s idx v e = elim (Bool-cases (is_buy s)) [
  | inl buys ↦
      bid_kept b b' (delete_in highest b.config b.bid idx) v (sym (rw buys refl) ∙ e)
        (λ w done. delete_in-IsWing highest b.config b.bid w idx v.bid done)
  | inr sells ↦
      ask_kept b b' (delete_in lowest b.config b.ask idx) v (sym (rw sells refl) ∙ e)
        (λ w done. delete_in-IsWing lowest b.config b.ask w idx v.ask done)
]

-- An entry that does not clear the book, and adds or modifies with a positive quantity only.
abbrev pub is_regular : MarketData → Bool
is_regular m = elim m.update_type [
  | invalid_update ↦ true
  | clear ↦ false
  | add ↦ is_active_qty m.qty
  | modify ↦ is_active_qty m.qty
  | cancel ↦ true
  | trade_tick ↦ true
  | book_ticker ↦ true
]

pub noticed :
    (n n' : Notice) (o : Option MarketBook) (b' : MarketBook)
    → on_some (with_notice n) o ≡ some (b', n')
    → o ≡ some b'
noticed n n' o b' e =
    let (b, done, same) = on_some-some (with_notice n) o (b', n') e in
    done ∙ ap (λ x. some x) (ap (λ x. x.0) same)

apply_update-IsBook :
    (b b' : MarketBook) (t : MarketUpdateType) (s : Side) (price qty : ℤ) (idx : ℕ) (n : Notice)
    → IsBook b
    → idx < reach b.config.summary_words
    → is_regular (record { update_type = t; side = s; price = price; qty = qty }) ≡ true
    → apply_update b (record { update_type = t; side = s; price = price; qty = qty }) idx
      ≡ some (b', n)
    → IsBook b'
unfolding apply_update
apply_update-IsBook b b' invalid_update s price qty idx n v lt r e =
    let same : b ≡ b' = ground (arith, e) in subst IsBook same v
apply_update-IsBook b b' clear s price qty idx n v lt r e = absurd (ground (arith, r))
apply_update-IsBook b b' add s price qty idx n v lt r e =
    add_order-IsBook b b' s idx qty v lt r
      (noticed on_orderbook_updated n (add_order b s idx qty) b' e)
apply_update-IsBook b b' modify s price qty idx n v lt r e =
    add_order-IsBook b b' s idx qty v lt r
      (noticed on_orderbook_updated n (add_order b s idx qty) b' e)
apply_update-IsBook b b' cancel s price qty idx n v lt r e =
    delete_order-IsBook b b' s idx v (noticed on_orderbook_updated n (delete_order b s idx) b' e)
apply_update-IsBook b b' trade_tick s price qty idx n v lt r e =
    let same : b ≡ b' = ground (arith, e) in subst IsBook same v
apply_update-IsBook b b' book_ticker s price qty idx n v lt r e =
    let same : b ≡ b' = ground (arith, e) in subst IsBook same v

pub on_market_data_updated-IsBook :
    (b b' : MarketBook) (m : MarketData) (n : Notice)
    → IsBook b
    → is_regular m ≡ true
    → on_market_data_updated b m ≡ some (b', n)
    → IsBook b'
unfolding on_market_data_updated
on_market_data_updated-IsBook b b' m n v r e = elim (Bool-cases (in_price_range b.config m.price)) [
  | inl within ↦
      let (lb, lt) = in_range-index b.config m.price v.config within in
      apply_update-IsBook b b' m.update_type m.side m.price m.qty (price_to_index b.config m.price)
        n v lt r (sym (rw within refl) ∙ e)
  | inr outside ↦ let same : b ≡ b' = ground (arith, e, outside) in subst IsBook same v
]

empty_wing-IsWing : (d : Search) (c : OrderBookConfig) → IsWing d c (empty_wing c)
unfolding order_in
empty_wing-IsWing d c =
    idle_wing d c (empty_wing c)
      (record {
        bits = λ b k e off lt. ground (arith, e);
        filled = λ b k e. ground (arith, e);
        named = λ b. refl;
      })
      refl (λ j lj. refl) refl

pub new_book-IsBook : (c : OrderBookConfig) → IsConfig c → IsBook (new_book c)
new_book-IsBook c k = record {
  config = k;
  bid = empty_wing-IsWing highest c;
  ask = empty_wing-IsWing lowest c;
}
