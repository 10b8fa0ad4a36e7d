-- ===== src/Trading/Reconciler/Diff.antt =====
-- `QuoteReconciler::diff` of hft/src/quote_reconciler.h: the actions for the quotes that a strategy
-- intends. `side_book` makes the book of a ticker that has none, which reads as an empty one.
pub mod Sound
pub mod Collide
use hft.Prelude.{
  ℕ, ◌-◌, Bool, true, false, not, ◌&&◌, ◌||◌, Option, none, some, List, [], ◌∷◌, ◌++◌, String, ltb,
  leb, if◌then◌else◌,
}
use hft.Prelude.Int.{ℤ, pos, ◌-ℤ◌, abs, ltb_ℤ, leb_ℤ, eqb_ℤ}
use hft.Common.Types.{Side, buy, sell, PositionSide, side_eq, invalid_value}
use hft.Trading.LayerBook.{
  OrderSlot, SideBook, Books, AssignPlan, slot_at, is_free, is_live, plan_layer, side_book,
}
use hft.Trading.Tracker.{TickConverter, to_ticks_raw}
use hft.Trading.Reconciler.{ActionNew, ActionReplace, ActionCancel, Actions}

-- `SpotQuoteIntent`, which has no position side, and `FuturesQuoteIntent`, which has one.
pub record QuoteIntent : Type 0 where
  pub ticker : String
  pub side : Side
  pub price : Option ℤ
  pub qty : ℤ
  pub position_side : Option PositionSide

pub record QuoteReconciler : Type 0 where
  pub min_replace_qty_delta : ℤ
  pub min_replace_tick_delta : ℕ
  pub tick_converter : TickConverter

abbrev pub no_actions : Actions
no_actions = record { news = []; repls = []; cancels = [] }

abbrev pub add_new : Actions → ActionNew → Actions
add_new acts a = record acts { news = acts.news ++ a ∷ [] }

abbrev pub add_replace : Actions → ActionReplace → Actions
add_replace acts a = record acts { repls = acts.repls ++ a ∷ [] }

module _ (q : QuoteReconciler) (now : ℕ) where
  abbrev pub new_action : QuoteIntent → ℤ → ℕ → ActionNew
  new_action i price layer = record {
    layer = layer;
    price = price;
    qty = i.qty;
    side = i.side;
    cl_order_id = now;
    position_side = i.position_side;
  }

  abbrev pub replace_action : QuoteIntent → ℤ → ℕ → OrderSlot → ActionReplace
  replace_action i price layer slot = record {
    layer = layer;
    price = price;
    qty = i.qty;
    side = i.side;
    cl_order_id = now;
    original_cl_order_id = slot.cl_order_id;
    last_qty = slot.qty;
    position_side = i.position_side;
  }

  -- Whether the quote of a live slot is far enough from the one intended.
  unfoldable pub differs : OrderSlot → ℤ → ℤ → Bool
  differs slot price qty =
      let slot_tick = to_ticks_raw q.tick_converter slot.price in
      let intent_tick = to_ticks_raw q.tick_converter price in
      let price_diff =
        if ltb intent_tick slot_tick
        then leb q.min_replace_tick_delta (slot_tick - intent_tick)
        else leb q.min_replace_tick_delta (intent_tick - slot_tick) in
      price_diff || leb_ℤ q.min_replace_qty_delta (pos (abs (slot.qty -ℤ qty)))

  -- An active intent, at the plan for its tick.
  unfoldable pub diff_planned : SideBook → QuoteIntent → ℤ → AssignPlan → Actions → Actions
  diff_planned sb i price assign acts =
      let slot = slot_at sb assign.layer in
      elim assign.victim_live_layer [
        | some vidx ↦ add_replace acts (replace_action i price vidx (slot_at sb vidx))
        | none ↦
            if is_free slot.state
            then add_new acts (new_action i price assign.layer)
            else if is_live slot.state && differs slot price i.qty
            then add_replace acts (replace_action i price assign.layer slot)
            else acts
      ]

  unfoldable pub diff_active : SideBook → QuoteIntent → ℤ → Actions → Actions
  unfolding diff_planned
  diff_active sb i price acts =
      diff_planned sb i price (plan_layer sb (to_ticks_raw q.tick_converter price)) acts

  abbrev pub is_intended : ℤ → ℤ → Bool
  is_intended price qty = not (eqb_ℤ price invalid_value) && ltb_ℤ (pos 0) qty

  unfoldable pub diff_intent : Books → String → QuoteIntent → Actions → Actions
  diff_intent books ticker i acts = elim i.price [
    | none ↦ acts
    | some price ↦
        if is_intended price i.qty
        then diff_active (side_book books ticker i.side i.position_side) i price acts
        else acts
  ]

  -- The loop over the intents of one side.
  unfoldable pub diff_side : Books → String → Side → List QuoteIntent → Actions → Actions
  diff_side books ticker side [] acts = acts
  diff_side books ticker side (i ∷ is) acts =
      diff_side books ticker side is
        (if side_eq i.side side then diff_intent books ticker i acts else acts)

  unfoldable pub diff : List QuoteIntent → Books → Actions
  diff [] books = no_actions
  diff (i ∷ is) books =
      diff_side books i.ticker sell (i ∷ is) (diff_side books i.ticker buy (i ∷ is) no_actions)
