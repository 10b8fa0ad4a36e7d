-- ===== src/Trading/OrderManager/Apply.antt =====
-- hft/src/order_manager.hpp: the filter by risk, `apply` and `on_order_updated`.
use hft.Prelude.{ℕ, Bool, true, false, Option, none, some, List, [], ◌∷◌, if◌then◌else◌}
use hft.Prelude.Int.{ℤ, ◌+ℤ◌, ◌-ℤ◌, ◌*ℤ◌}
use hft.Prelude.Maps.{find}
use hft.Common.Types.{Side, live, side_to_value}
use hft.Trading.LayerBook.{
  SideBook, slot_at, is_live, find_layer_by_id, in_bounds, side_book, put_side_book,
}
use hft.Trading.StateManager.{
  OrdStatus, new, partially_filled, ExecutionReport, handle_execution_report,
}
use hft.Trading.Expiry.{register_expiry}
use hft.Trading.Risk.{RiskInfo, RiskCheckResult, allowed, check_pre_trade_risk}
use hft.Trading.Reconciler.{ActionNew, ActionReplace, Actions, filter_by_venue}
use hft.Trading.Reconciler.Diff.{QuoteIntent, diff}
use hft.Trading.OrderManager.{
  OrderManager, Config, process_new_orders, process_replace_orders, process_cancel_orders,
  sweep_expired_orders,
}

abbrev pub is_allowed : RiskCheckResult → Bool
is_allowed allowed = true
is_allowed _ = false

-- `allow_new` and `allow_repl`: the actions that pass the check, and the running position after
-- them; `delta_of` is the quantity, or its change.
module _ {A : Type 0} (risk : RiskInfo) (side_of : A → Side) (delta_of : A → ℤ) where
  unfoldable pub allow : ℤ → List A → List A × ℤ
  allow running [] = ([], running)
  allow running (a ∷ rest) =
      elim (is_allowed (check_pre_trade_risk risk (side_of a) (delta_of a) running)) [
        | true ↦
            let (kept, final) = allow (running +ℤ side_to_value (side_of a) *ℤ delta_of a) rest in
            (a ∷ kept, final)
        | false ↦ allow running rest
      ]

abbrev pub replace_delta : ActionReplace → ℤ
replace_delta a = a.qty -ℤ a.last_qty

unfoldable pub filter_by_risk : RiskInfo → ℤ → Actions → Actions
filter_by_risk risk reserved acts =
    let (news, running) = allow risk (λ (a : ActionNew). a.side) (λ a. a.qty) reserved acts.news in
    let (repls, _) = allow risk (λ (a : ActionReplace). a.side) replace_delta running acts.repls in
    record acts { news = news; repls = repls }

module _ (c : Config) where
  -- `now` is the time at the start of `apply`, `later` the one that `diff` asks for.
  unfoldable pub apply : RiskInfo → ℕ → ℕ → List QuoteIntent → OrderManager → OrderManager × List ℕ
  apply risk now later [] m = (sweep_expired_orders c now m, [])
  apply risk now later (i ∷ is) m =
      let wanted = diff c.reconciler later (i ∷ is) m.layer_book in
      let taken = filter_by_venue m.venue_policy i.ticker wanted now m.layer_book in
      let acts = filter_by_risk risk m.position_tracker.reserved_position taken in
      let (m1, ids) = process_new_orders c i.ticker now acts.news (m, []) in
      let m2 = process_replace_orders c i.ticker now acts.repls m1 in
      let m3 = process_cancel_orders c i.ticker now acts.cancels m2 in
      (sweep_expired_orders c now m3, ids)

  -- The layer whose order gets a time to live after a report.
  unfoldable pub expiring_layer : OrdStatus → ExecutionReport → SideBook → Option ℕ
  expiring_layer new r sb = elim (find_layer_by_id sb r.cl_order_id) [
    | some layer ↦ some layer
    | none ↦ find r.cl_order_id sb.new_id_to_layer
  ]
  expiring_layer partially_filled r sb = elim (find_layer_by_id sb r.cl_order_id) [
    | some layer ↦ if is_live (slot_at sb layer).state then some layer else none
    | none ↦ none
  ]
  expiring_layer _ r sb = none

  unfoldable pub register_live : ExecutionReport → ℕ → Option ℕ → OrderManager → OrderManager
  register_live r now none m = m
  register_live r now (some layer) m = record m {
    expiry_manager =
        register_expiry m.expiry_manager r.symbol r.side r.position_side layer r.cl_order_id live
          now;
  }

  -- `on_order_updated` on a report whose side book there is
  unfoldable pub update_order : ExecutionReport → ℕ → OrderManager → OrderManager
  update_order r now m =
      let sb = side_book m.layer_book r.symbol r.side r.position_side in
      let (sb', tr) = handle_execution_report c.state_manager r (sb, m.position_tracker) now in
      register_live r now (expiring_layer r.ord_status r sb') (record m {
        layer_book = put_side_book m.layer_book r.symbol r.side r.position_side sb';
        position_tracker = tr;
      })

  -- `none` stands for undefined behaviour: the side or the position side of the report is neither of
  -- the two, and the source indexes an array of two beyond its end.
  unfoldable pub on_order_updated : ExecutionReport → ℕ → OrderManager → Option OrderManager
  unfolding update_order
  on_order_updated r now m =
      if in_bounds m.layer_book r.symbol r.side r.position_side
      then some (update_order r now m)
      else none
