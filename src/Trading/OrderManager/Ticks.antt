-- ===== src/Trading/OrderManager/Ticks.antt =====
-- The ticks of the layers, under `apply` of hft/src/order_manager.hpp.
use hft.Prelude.{
  ℕ, zero, suc, ◌<◌, ◌≡◌, refl, ◌≢◌, ◌⊎◌, inl, inr, Bool, false, none, some, List, [], ◌∷◌, String,
  get_or, set, get_or-replicate, Bool-cases, Option-cases, leb, arith,
}
use hft.Common.Types.{side_to_index, long, short, invalid_position_side}
use hft.Trading.LayerBook.{
  empty_four_way, find_book, SideBook, slots_per_side, ticks_invalid, tick_at, slot_at,
  find_layer_by_ticks, empty_side_book, side_book,
}
use hft.Trading.LayerBook.Search.{find_layer_by_ticks-some, find_layer_by_ticks-none}
use hft.Trading.LayerBook.Books.{AllBooks, put_side_book-All}
use hft.Trading.Tracker.{to_ticks_raw}
use hft.Trading.Expiry.{ExpiryKey}
use hft.Trading.Risk.{RiskInfo}
use hft.Trading.Reconciler.{ActionNew, ActionReplace, ActionCancel, filter_by_venue}
use hft.Trading.Reconciler.Diff.{QuoteIntent, diff}
use hft.Trading.OrderManager.{
  OrderManager, Config, clashes, place_new, place_replace, process_new, process_new_orders,
  process_replace, process_replace_orders, process_cancel, process_cancel_orders, can_expire,
  expire, expire_all, sweep_expired_orders,
}
use hft.Trading.OrderManager.Apply.{apply, filter_by_risk}

abbrev pub TicksDiffer : List ℕ → Type 0
TicksDiffer ts =
    (i j : ℕ)
    → i < slots_per_side
    → j < slots_per_side
    → get_or ts i ticks_invalid ≡ get_or ts j ticks_invalid
    → get_or ts i ticks_invalid ≢ ticks_invalid
    → i ≡ j

-- A tick that is in use belongs to one layer.
abbrev pub DistinctTicks : SideBook → Type 0
DistinctTicks sb = TicksDiffer sb.layer_ticks

get_or-set_range :
    (ts : List ℕ) (i j t : ℕ)
    → (get_or (set ts i t) j ticks_invalid ≡ get_or ts j ticks_invalid)
      ⊎ ((i ≡ j) × (get_or (set ts i t) j ticks_invalid ≡ t))
get_or-set_range [] i j t = inl refl
get_or-set_range (x ∷ ts) zero zero t = inr (refl, refl)
get_or-set_range (x ∷ ts) zero (suc j) t = inl refl
get_or-set_range (x ∷ ts) (suc i) zero t = inl refl
get_or-set_range (x ∷ ts) (suc i) (suc j) t = ground (arith, get_or-set_range ts i j t)

-- Giving a layer a tick that no other layer has keeps the ticks distinct.
TicksDiffer-set :
    (ts : List ℕ) (l t : ℕ)
    → ((j : ℕ) → j < slots_per_side → l ≢ j → t ≢ ticks_invalid → get_or ts j ticks_invalid ≢ t)
    → TicksDiffer ts
    → TicksDiffer (set ts l t)
TicksDiffer-set ts l t fresh d i j hi hj same used = ground (
  arith,
  get_or-set_range ts l i t,
  get_or-set_range ts l j t,
  d i j hi hj,
  fresh i hi,
  fresh j hj,
)

clashes_fresh :
    (sb : SideBook) (tick l : ℕ)
    → clashes sb tick l ≡ false
    → DistinctTicks sb
    → (j : ℕ) → j < slots_per_side
    → l ≢ j
    → tick ≢ ticks_invalid
    → tick_at sb j ≢ tick
unfolding clashes
clashes_fresh sb tick l free d j hj ne used = elim (Option-cases (find_layer_by_ticks sb tick)) [
  | inl e ↦ find_layer_by_ticks-none sb tick j e hj
  | inr (k, e) ↦
      let (hk, at) = find_layer_by_ticks-some sb tick k e in λ same. ground (arith, d k j hk hj)
]

place_new-DistinctTicks :
    (sb : SideBook) (a : ActionNew) (tick now : ℕ)
    → clashes sb tick a.layer ≡ false
    → DistinctTicks sb
    → DistinctTicks (place_new sb a tick now)
unfolding place_new
place_new-DistinctTicks sb a tick now free d =
    TicksDiffer-set sb.layer_ticks a.layer tick (clashes_fresh sb tick a.layer free d) d

place_replace-DistinctTicks :
    (car : Bool) (sb : SideBook) (a : ActionReplace) (tick now : ℕ)
    → clashes sb tick a.layer ≡ false
    → DistinctTicks sb
    → DistinctTicks (place_replace car sb a tick now)
unfolding place_replace
place_replace-DistinctTicks car sb a tick now free d =
    TicksDiffer-set sb.layer_ticks a.layer tick (clashes_fresh sb tick a.layer free d) d

module _ (c : Config) where
  abbrev pub Ordered : OrderManager → Type 0
  Ordered m = AllBooks DistinctTicks m.layer_book

  process_new-Ordered :
      (ticker : String) (now : ℕ) (a : ActionNew) (m : OrderManager) (ids : List ℕ)
      → Ordered m
      → Ordered (process_new c ticker now a (m, ids)).0
  unfolding process_new
  process_new-Ordered ticker now a m ids o =
      let sb = side_book m.layer_book ticker a.side a.position_side in
      let tick = to_ticks_raw c.tick_converter a.price in
      elim (Bool-cases (clashes sb tick a.layer)) [
        | inl e ↦ rw e o
        | inr e ↦ rw e (
            put_side_book-All DistinctTicks m.layer_book ticker a.side a.position_side
              (place_new sb a tick now) o
              (place_new-DistinctTicks sb a tick now e (o ticker a.side a.position_side)))
      ]

  news-Ordered :
      (ticker : String) (now : ℕ) (acts : List ActionNew) (m : OrderManager) (ids : List ℕ)
      → Ordered m
      → Ordered (process_new_orders c ticker now acts (m, ids)).0
  unfolding process_new_orders
  news-Ordered ticker now [] m ids o = o
  news-Ordered ticker now (a ∷ rest) m ids o =
      let s = process_new c ticker now a (m, ids) in
      news-Ordered ticker now rest s.0 s.1 (process_new-Ordered ticker now a m ids o)

  process_replace-Ordered :
      (ticker : String) (now : ℕ) (a : ActionReplace) (m : OrderManager)
      → Ordered m
      → Ordered (process_replace c ticker now a m)
  unfolding process_replace
  process_replace-Ordered ticker now a m o =
      let sb = side_book m.layer_book ticker a.side a.position_side in
      let tick = to_ticks_raw c.tick_converter a.price in
      elim (Bool-cases (clashes sb tick a.layer)) [
        | inl e ↦ rw e o
        | inr e ↦ rw e (
            put_side_book-All DistinctTicks m.layer_book ticker a.side a.position_side
              (place_replace c.cancel_and_reorder sb a tick now) o
              (place_replace-DistinctTicks c.cancel_and_reorder sb a tick now e
                (o ticker a.side a.position_side)))
      ]

  repls-Ordered :
      (ticker : String) (now : ℕ) (acts : List ActionReplace) (m : OrderManager)
      → Ordered m
      → Ordered (process_replace_orders c ticker now acts m)
  unfolding process_replace_orders
  repls-Ordered ticker now [] m o = o
  repls-Ordered ticker now (a ∷ rest) m o =
      repls-Ordered ticker now rest (process_replace c ticker now a m)
        (process_replace-Ordered ticker now a m o)

  cancels-Ordered :
      (ticker : String) (now : ℕ) (acts : List ActionCancel) (m : OrderManager)
      → Ordered m
      → Ordered (process_cancel_orders c ticker now acts m)
  unfolding process_cancel_orders process_cancel
  cancels-Ordered ticker now [] m o = o
  cancels-Ordered ticker now (a ∷ rest) m o =
      cancels-Ordered ticker now rest (process_cancel c ticker now a m) (
        put_side_book-All DistinctTicks m.layer_book ticker a.side a.position_side _ o
          (o ticker a.side a.position_side))

  expire-Ordered :
      (now : ℕ) (k : ExpiryKey) (m : OrderManager) → Ordered m → Ordered (expire c now k m)
  unfolding expire
  expire-Ordered now k m o =
      let sb = side_book m.layer_book k.symbol k.side k.position_side in
      elim (Bool-cases (leb slots_per_side k.layer)) [
        | inl e ↦ rw e o
        | inr e ↦ elim (Bool-cases (can_expire c (slot_at sb k.layer) k)) [
          | inl f ↦
              rw (e, f)
                (put_side_book-All DistinctTicks m.layer_book k.symbol k.side k.position_side _ o
                  (o k.symbol k.side k.position_side))
          | inr f ↦ rw (e, f) o
        ]
      ]

  expire_all-Ordered :
      (now : ℕ) (ks : List ExpiryKey) (m : OrderManager)
      → Ordered m
      → Ordered (expire_all c now ks m)
  unfolding expire_all
  expire_all-Ordered now [] m o = o
  expire_all-Ordered now (k ∷ ks) m o =
      expire_all-Ordered now ks (expire c now k m) (expire-Ordered now k m o)

  sweep-Ordered : (now : ℕ) (m : OrderManager) → Ordered m → Ordered (sweep_expired_orders c now m)
  unfolding sweep_expired_orders
  sweep-Ordered now m o = expire_all-Ordered now _ _ o

-- If in every side book each tick in use belongs to one layer, this is still so after `apply`,
-- whatever the quotes, the times and the risk figures are.
pub apply-DistinctTicks :
    (c : Config) (risk : RiskInfo) (now later : ℕ) (intents : List QuoteIntent) (m : OrderManager)
    → AllBooks DistinctTicks m.layer_book
    → AllBooks DistinctTicks (apply c risk now later intents m).0.layer_book
unfolding apply
apply-DistinctTicks c risk now later [] m o = sweep-Ordered c now m o
apply-DistinctTicks c risk now later (i ∷ is) m o =
    let wanted = diff c.reconciler later (i ∷ is) m.layer_book in
    let taken = filter_by_venue m.venue_policy i.ticker wanted now m.layer_book in
    let acts = filter_by_risk risk m.position_tracker.reserved_position taken in
    let s = process_new_orders c i.ticker now acts.news (m, []) in
    sweep-Ordered c now _ (
      cancels-Ordered c i.ticker now acts.cancels _ (
        repls-Ordered c i.ticker now acts.repls s.0 (news-Ordered c i.ticker now acts.news m [] o)))

empty-DistinctTicks : DistinctTicks empty_side_book
unfolding empty_side_book
empty-DistinctTicks i j hi hj same used =
    absurd (used (get_or-replicate slots_per_side i ticks_invalid))

-- Before any order every side book of every ticker is empty, and its ticks are distinct.
pub start-DistinctTicks : AllBooks DistinctTicks []
unfolding side_book empty_four_way find_book
start-DistinctTicks t s none =
    rw (get_or-replicate 2 (side_to_index s) empty_side_book) empty-DistinctTicks
start-DistinctTicks t s (some long) =
    rw (get_or-replicate 2 (side_to_index s) empty_side_book) empty-DistinctTicks
start-DistinctTicks t s (some short) =
    rw (get_or-replicate 2 (side_to_index s) empty_side_book) empty-DistinctTicks
start-DistinctTicks t s (some invalid_position_side) = empty-DistinctTicks
