-- ===== src/Trading/OrderManager/Rounds.antt =====
-- Rounds of `process_new_orders` and `process_replace_orders` of hft/src/order_manager.hpp, and the
-- reserved position: what the side book then shows is what the round has reserved.
use hft.Prelude.{
  ℕ, ◌<◌, ◌≡◌, ◌∙◌, refl, ap, sym, true, false, Bool-cases, inl, inr, List, [], ◌∷◌, String,
}
use hft.Prelude.Int.{◌+ℤ◌, ◌-ℤ◌}
use hft.Trading.LayerBook.{
  SideBook, IsValid, slots_per_side, slot_at, is_free, in_bounds, side_book,
}
use hft.Trading.LayerBook.Books.{side_book-put_side_book, in_bounds-put_side_book}
use hft.Trading.Tracker.{add_reserved, signed, to_ticks_raw}
use hft.Trading.Exposure.{imbalance}
use hft.Trading.Reconciler.{ActionNew, ActionReplace}
use hft.Trading.OrderManager.{
  OrderManager, Config, clashes, place_new, place_replace, process_new, process_new_orders,
  process_replace,
}
use hft.Trading.OrderManager.Balance.{
  place_new_balanced, place_replace_balanced, placed_twice_balance,
}

-- The side book of an action.
abbrev pub new_book : OrderManager → String → ActionNew → SideBook
new_book m ticker a = side_book m.layer_book ticker a.side a.position_side

abbrev pub replace_book : OrderManager → String → ActionReplace → SideBook
replace_book m ticker a = side_book m.layer_book ticker a.side a.position_side

module _ (c : Config) (ticker : String) (now : ℕ) (a : ActionNew) (m : OrderManager) (ids : List ℕ)
    (bound : in_bounds m.layer_book ticker a.side a.position_side ≡ true)
    (free : clashes (new_book m ticker a) (to_ticks_raw c.tick_converter a.price) a.layer
      ≡ false) where
  process_new-book :
      new_book (process_new c ticker now a (m, ids)).0 ticker a
      ≡ place_new (new_book m ticker a) a (to_ticks_raw c.tick_converter a.price) now
  unfolding process_new
  process_new-book =
      rw free (side_book-put_side_book m.layer_book ticker a.side a.position_side _ bound)

  process_new-bounds :
      in_bounds (process_new c ticker now a (m, ids)).0.layer_book ticker a.side a.position_side
      ≡ true
  unfolding process_new
  process_new-bounds =
      rw free (in_bounds-put_side_book m.layer_book ticker a.side a.position_side _ bound)

  process_new-tracker :
      (process_new c ticker now a (m, ids)).0.position_tracker
      ≡ add_reserved m.position_tracker a.side a.qty
  unfolding process_new
  process_new-tracker = rw free refl

module _ (c : Config) (ticker : String) (now : ℕ) (a : ActionReplace) (m : OrderManager)
    (bound : in_bounds m.layer_book ticker a.side a.position_side ≡ true)
    (free : clashes (replace_book m ticker a) (to_ticks_raw c.tick_converter a.price) a.layer
      ≡ false) where
  pub process_replace-book :
      replace_book (process_replace c ticker now a m) ticker a
      ≡ place_replace c.cancel_and_reorder
          (replace_book m ticker a)
          a
          (to_ticks_raw c.tick_converter a.price)
          now
  unfolding process_replace
  process_replace-book =
      rw free (side_book-put_side_book m.layer_book ticker a.side a.position_side _ bound)

  pub process_replace-bounds :
      in_bounds (process_replace c ticker now a m).layer_book ticker a.side a.position_side ≡ true
  unfolding process_replace
  process_replace-bounds =
      rw free (in_bounds-put_side_book m.layer_book ticker a.side a.position_side _ bound)

  pub process_replace-tracker :
      (process_replace c ticker now a m).position_tracker
      ≡ add_reserved m.position_tracker a.side (a.qty -ℤ a.last_qty)
  unfolding process_replace
  process_replace-tracker = rw free refl

-- A round of `process_new_orders` for a free layer of a valid side book leaves the reserved position
-- in step with the slots of that side book, whether the order is sent or skipped for its tick: what
-- the slots do not account for is the same before and after.
pub process_new_balanced :
    (c : Config) (ticker : String) (now : ℕ) (a : ActionNew) (m : OrderManager) (ids : List ℕ)
    → in_bounds m.layer_book ticker a.side a.position_side ≡ true
    → IsValid (new_book m ticker a)
    → a.layer < slots_per_side
    → is_free (slot_at (new_book m ticker a) a.layer).state ≡ true
    → let m' = (process_new c ticker now a (m, ids)).0 in
      imbalance a.side (new_book m' ticker a) m'.position_tracker
      ≡ imbalance a.side (new_book m ticker a) m.position_tracker
unfolding process_new
process_new_balanced c ticker now a m ids bound v h free =
    let tick = to_ticks_raw c.tick_converter a.price in
    elim (Bool-cases (clashes (new_book m ticker a) tick a.layer)) [
      | inl e ↦ rw e refl
      | inr e ↦ rw e (
          ap (λ sb. imbalance a.side sb (add_reserved m.position_tracker a.side a.qty))
            (side_book-put_side_book m.layer_book ticker a.side a.position_side _ bound)
          ∙ place_new_balanced (new_book m ticker a) m.position_tracker a tick now v h free)
    ]

-- A round of `process_replace_orders` for a layer of a valid side book whose slot holds an order, at
-- the quantity that the slot shows, leaves the reserved position in step with the slots of that side
-- book, whether the replacement is sent or skipped for its tick: what the slots do not account for is
-- the same before and after.
pub process_replace_balanced :
    (c : Config) (ticker : String) (now : ℕ) (a : ActionReplace) (m : OrderManager)
    → in_bounds m.layer_book ticker a.side a.position_side ≡ true
    → IsValid (replace_book m ticker a)
    → a.layer < slots_per_side
    → is_free (slot_at (replace_book m ticker a) a.layer).state ≡ false
    → a.last_qty ≡ (slot_at (replace_book m ticker a) a.layer).qty
    → let m' = process_replace c ticker now a m in
      imbalance a.side (replace_book m' ticker a) m'.position_tracker
      ≡ imbalance a.side (replace_book m ticker a) m.position_tracker
unfolding process_replace
process_replace_balanced c ticker now a m bound v h busy qty =
    let tick = to_ticks_raw c.tick_converter a.price in
    elim (Bool-cases (clashes (replace_book m ticker a) tick a.layer)) [
      | inl e ↦ rw e refl
      | inr e ↦ rw e (
          ap
            (λ sb.
              imbalance a.side sb (add_reserved m.position_tracker a.side (a.qty -ℤ a.last_qty)))
            (side_book-put_side_book m.layer_book ticker a.side a.position_side _ bound)
          ∙ place_replace_balanced c.cancel_and_reorder (replace_book m ticker a) m.position_tracker
              a tick now v h busy qty)
    ]

-- `process_new_orders` on two new orders of one side book for the same free layer, at ticks that do
-- not clash, leaves the reserved position out of step with the slots by the signed quantity of the
-- first order: its slot is overwritten by the second.
pub colliding_order_orphaned :
    (c : Config) (ticker : String) (now : ℕ) (a b : ActionNew) (m : OrderManager) (ids : List ℕ)
    → in_bounds m.layer_book ticker a.side a.position_side ≡ true
    → IsValid (new_book m ticker a)
    → a.layer < slots_per_side
    → is_free (slot_at (new_book m ticker a) a.layer).state ≡ true
    → b.layer ≡ a.layer
    → b.side ≡ a.side
    → b.position_side ≡ a.position_side
    → clashes (new_book m ticker a) (to_ticks_raw c.tick_converter a.price) a.layer ≡ false
    → clashes
        (place_new (new_book m ticker a) a (to_ticks_raw c.tick_converter a.price) now)
        (to_ticks_raw c.tick_converter b.price)
        b.layer
      ≡ false
    → let m' = (process_new_orders c ticker now (a ∷ b ∷ []) (m, ids)).0 in
      imbalance a.side (new_book m' ticker a) m'.position_tracker
      ≡ imbalance a.side (new_book m ticker a) m.position_tracker +ℤ signed a.side a.qty
unfolding process_new_orders
colliding_order_orphaned c ticker now a b m ids bound v h free layer side pos_side once twice =
    let t = to_ticks_raw c.tick_converter a.price in
    let u = to_ticks_raw c.tick_converter b.price in
    let m1 = process_new c ticker now a (m, ids) in
    let m2 = process_new c ticker now b m1 in
    let sb = new_book m ticker a in
    let first = process_new-book c ticker now a m ids bound once in
    let first_b : new_book m1.0 ticker b ≡ place_new sb a t now = rw (side, pos_side) first in
    let bound_b : in_bounds m1.0.layer_book ticker b.side b.position_side ≡ true =
      rw (side, pos_side) (process_new-bounds c ticker now a m ids bound once) in
    let twice_b : clashes (new_book m1.0 ticker b) u b.layer ≡ false =
      ap (λ s. clashes s u b.layer) first_b ∙ twice in
    let second = process_new-book c ticker now b m1.0 m1.1 bound_b twice_b in
    let second_a : new_book m2.0 ticker a ≡ place_new (place_new sb a t now) b u now =
      ap (λ s. side_book m2.0.layer_book ticker s a.position_side) (sym side)
      ∙ ap (λ p. side_book m2.0.layer_book ticker b.side p) (sym pos_side)
      ∙ second
      ∙ ap (λ s. place_new s b u now) first_b in
    let tracker : m2.0.position_tracker
        ≡ add_reserved (add_reserved m.position_tracker a.side a.qty) b.side b.qty =
      process_new-tracker c ticker now b m1.0 m1.1 bound_b twice_b
      ∙ ap (λ tr. add_reserved tr b.side b.qty)
          (process_new-tracker c ticker now a m ids bound once) in
    ap (λ s. imbalance a.side s m2.0.position_tracker) second_a
    ∙ ap (λ tr. imbalance a.side (place_new (place_new sb a t now) b u now) tr) tracker
    ∙ placed_twice_balance sb m.position_tracker a b t u now v h free layer side
