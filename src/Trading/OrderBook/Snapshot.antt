-- ===== src/Trading/OrderBook/Snapshot.antt =====
-- Snapshots of binance_future_domain_converter.hpp on the book of hft/src/order_book.hpp.
use hft.Prelude.{
  ℕ, ◌<◌, ◌≡◌, refl, subst, ◌∙◌, inl, inr, true, false, some, List, [], ◌∷◌, ◌++◌, arith,
  Bool-cases, Option-cases, All, All-append,
}
use hft.Prelude.Int.{ℤ, pos, leb_ℤ, eqb_ℤ}
use hft.Common.Types.{Side, buy, sell, is_buy}
use hft.Core.MarketData.{
  MarketUpdateType, MarketData, invalid_update, add, modify, cancel, clear, trade_tick, book_ticker,
}
use hft.Core.DomainConverter.{make_entry, side_entries, clear_entry, snapshot_entries}
use hft.Trading.OrderBook.Depth.{Depth, set_depth, depth, spec_step, depth_after}
use hft.Trading.OrderBook.Update.{offered}
use hft.Trading.OrderBook.SameConfig.{same_config}
use hft.Trading.OrderBook.Refine.{on_market_data_updated-Agrees}
use hft.Trading.OrderBook.Invariant.{IsBook, is_regular, on_market_data_updated-IsBook}
use hft.Trading.OrderBook.Market.{
  MarketBook, Notice, silent, in_price_range, on_market_data_updated, on_all_updated,
}

-- An entry that is regular and does not set the bid at price `p`.
record SparesBid (p : ℕ) (m : MarketData) : Type 0 where
  pub regular : is_regular m ≡ true
  pub spares : is_buy m.side ≡ true → eqb_ℤ m.price (pos p) ≡ false

make_entry-regular : (s : Side) (l : ℤ × ℤ) → is_regular (make_entry s add l) ≡ true
unfolding make_entry
make_entry-regular s l = elim (Bool-cases (leb_ℤ l.1 (pos 0))) [
  | inl e ↦ rw e refl
  | inr e ↦ rw e (ground (arith, e))
]

set_spares :
    (f : ℕ → ℤ) (g : ℕ → ℤ) (s : Side) (price q : ℤ) (p : ℕ)
    → (is_buy s ≡ true → eqb_ℤ price (pos p) ≡ false)
    → (set_depth (record { bids = f; asks = g }) s price q).bids p ≡ f p
set_spares f g s price q p h = elim (Bool-cases (is_buy s)) [
  | inl buys ↦ rw (buys, h buys) refl
  | inr sells ↦ rw sells refl
]

after_spares :
    (t : Depth) (ty : MarketUpdateType) (s : Side) (price q : ℤ) (p : ℕ)
    → is_regular (record { update_type = ty; side = s; price = price; qty = q }) ≡ true
    → (is_buy s ≡ true → eqb_ℤ price (pos p) ≡ false)
    → (depth_after t (record { update_type = ty; side = s; price = price; qty = q })).bids p
      ≡ t.bids p
unfolding depth_after
after_spares t invalid_update s price q p r h = refl
after_spares t clear s price q p r h = absurd (ground (arith, r))
after_spares t add s price q p r h = set_spares t.bids t.asks s price (offered q) p h
after_spares t modify s price q p r h = set_spares t.bids t.asks s price (offered q) p h
after_spares t cancel s price q p r h = set_spares t.bids t.asks s price (pos 0) p h
after_spares t trade_tick s price q p r h = refl
after_spares t book_ticker s price q p r h = refl

-- Such an entry keeps the bid at `p`.
spared :
    (b b' : MarketBook) (m : MarketData) (n : Notice) (p : ℕ)
    → IsBook b
    → SparesBid p m
    → in_price_range b.config (pos p) ≡ true
    → on_market_data_updated b m ≡ some (b', n)
    → (depth b').bids p ≡ (depth b).bids p
unfolding spec_step
spared b b' m n p v q r e =
    (on_market_data_updated-Agrees b b' m n v.config v.bid.valid v.ask.valid e).bids p r
    ∙ elim (Bool-cases (in_price_range b.config m.price)) [
      | inl within ↦
          rw within (after_spares (depth b) m.update_type m.side m.price m.qty p q.regular q.spares)
      | inr outside ↦ rw outside refl
    ]

each_spared :
    (b b' : MarketBook) (ms : List MarketData) (p : ℕ)
    → IsBook b
    → All (SparesBid p) ms
    → in_price_range b.config (pos p) ≡ true
    → on_all_updated b ms ≡ some b'
    → IsBook b' × ((depth b').bids p ≡ (depth b).bids p)
unfolding on_all_updated
each_spared b b' [] p v q r e =
    let same : b ≡ b' = ground (arith, e) in
    subst (λ x. IsBook x × ((depth x).bids p ≡ (depth b).bids p)) same (v, refl)
each_spared b b' (m ∷ ms) p v (q, qs) r e = elim (Option-cases (on_market_data_updated b m)) [
  | inl f ↦ absurd (ground (arith, e, f))
  | inr (x, f) ↦
      let v' = on_market_data_updated-IsBook b x.0 m x.1 v q.regular f in
      let r' : in_price_range x.0.config (pos p) ≡ true = rw (same_config b x.0 m x.1 f) r in
      let (w, d) = each_spared x.0 b' ms p v' qs r' (ground (arith, e, f)) in
      (w, d ∙ spared b x.0 m x.1 p v q r f)
]

side_spares :
    (s : Side) (ls : List (ℤ × ℤ)) (p : ℕ)
    → (is_buy s ≡ true → All (λ l. eqb_ℤ l.0 (pos p) ≡ false) ls)
    → All (SparesBid p) (side_entries s ls)
unfolding side_entries make_entry
side_spares s [] p h = record {}
side_spares s (l ∷ ls) p h = (
  record { regular = make_entry-regular s l; spares = λ e. (h e).0 },
  side_spares s ls p (λ e. (h e).1),
)

-- A snapshot does not clear a book whose range of prices starts above 0: the clear that it begins with
-- carries price 0 and is dropped. A bid at a price that the snapshot does not name is still there
-- after it, and the book stays in order.
pub snapshot_entries-kept :
    (b b' : MarketBook) (bids asks : List (ℤ × ℤ)) (p : ℕ)
    → IsBook b
    → 0 < b.config.min_price_int
    → in_price_range b.config (pos p) ≡ true
    → All (λ l. eqb_ℤ l.0 (pos p) ≡ false) bids
    → on_all_updated b (snapshot_entries bids asks) ≡ some b'
    → IsBook b' × ((depth b').bids p ≡ (depth b).bids p)
unfolding on_all_updated snapshot_entries on_market_data_updated
snapshot_entries-kept b b' bids asks p v h r others e =
    let dropped : in_price_range b.config (pos 0) ≡ false = ground (arith, h) in
    let first : on_market_data_updated b clear_entry ≡ some (b, silent) = rw dropped refl in
    each_spared b b' (side_entries buy bids ++ side_entries sell asks) p v
      (All-append (SparesBid p) (side_entries buy bids) (side_entries sell asks)
        (side_spares buy bids p (λ _. others))
        (side_spares sell asks p (λ x. absurd (ground (arith, x)))))
      r (ground (arith, e, first))
