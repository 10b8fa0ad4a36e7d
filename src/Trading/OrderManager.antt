-- ===== src/Trading/OrderManager.antt =====
-- hft/src/order_manager.hpp: quotes into orders, and reports into slots. The requests handed to
-- `TradeEngine::send_request` are a list, oldest first; the clock's times and the ticker's risk
-- figures are arguments; logging and the dumps are left out.
pub mod Apply
pub mod Restore
pub mod RiskFilter
pub mod Balance
pub mod Rounds
pub mod Update
pub mod Ticks
pub mod Layers
pub mod Requests
pub mod Sound
pub mod Reach
use hft.Prelude.{
  ℕ, ◌≡◌, Bool, true, false, not, ◌&&◌, ◌||◌, Option, none, some, List, [], ◌∷◌, ◌++◌, String, set,
  ltb, leb, ◌==◌, if◌then◌else◌,
}
use hft.Prelude.Int.{ℤ, pos, ◌+ℤ◌, ◌-ℤ◌, ◌*ℤ◌}
use hft.Prelude.Maps.{find, assign}
use hft.Common.Types.{
  Side, invalid_side, PositionSide, OmOrderState, invalid, dead, live, reserved, cancel_reserved,
  order_id_invalid, side_to_value,
}
use hft.Trading.LayerBook.{
  OrderSlot, PendingReplaceInfo, SideBook, Books, slots_per_side, slot_at, tick_at, set_slot,
  is_live, is_active, find_layer_by_ticks, find_layer_by_id, erase_layer, side_book, put_side_book,
}
use hft.Trading.Tracker.{ReservedPositionTracker, add_reserved, TickConverter, to_ticks_raw}
use hft.Trading.StateManager.{
  OrdStatus, new, partially_filled, ExecutionReport, OrderStateManager, pred_id,
  handle_execution_report,
}
use hft.Trading.Expiry.{ExpiryKey, OrderExpiryManager, register_expiry, sweep_expired}
use hft.Trading.Risk.{RiskInfo, RiskCheckResult, allowed, check_pre_trade_risk}
use hft.Trading.Reconciler.{
  ActionNew, ActionReplace, ActionCancel, Actions, VenuePolicy, filter_by_venue,
}
use hft.Trading.Reconciler.Diff.{QuoteIntent, QuoteReconciler, diff}

-- `ReqeustType`, of which the order manager sends four kinds
pub data RequestType : Type 0 where
  new_single cancel_request cancel_and_new modify_request : RequestType

-- `RequestCommon`, without what is the same in every request of a kind (limit, good till cancelled)
pub record RequestCommon : Type 0 where
  pub req_type : RequestType
  pub cl_cancel_order_id : ℕ
  pub cl_order_id : ℕ
  pub orig_cl_order_id : ℕ
  pub symbol : String
  pub side : Side
  pub order_qty : ℤ
  pub price : ℤ
  pub position_side : Option PositionSide

pub record OrderManager : Type 0 where
  pub layer_book : Books
  pub venue_policy : VenuePolicy
  pub position_tracker : ReservedPositionTracker
  pub expiry_manager : OrderExpiryManager
  pub requests : List RequestCommon

-- What does not change: `kSupportsCancelAndReorder`, the reconciler, the tick converter and the state
-- manager.
pub record Config : Type 0 where
  pub cancel_and_reorder : Bool
  pub reconciler : QuoteReconciler
  pub tick_converter : TickConverter
  pub state_manager : OrderStateManager

abbrev pub send : OrderManager → RequestCommon → OrderManager
send m r = record m { requests = m.requests ++ r ∷ [] }

-- `new_order`
abbrev pub new_order : String → ActionNew → RequestCommon
new_order ticker a = record {
  req_type = new_single;
  cl_cancel_order_id = order_id_invalid;
  cl_order_id = a.cl_order_id;
  orig_cl_order_id = order_id_invalid;
  symbol = ticker;
  side = a.side;
  order_qty = a.qty;
  price = a.price;
  position_side = a.position_side;
}

-- `modify_order`, at the identifiers that `process_replace_orders` hands it
abbrev pub modify_order : Bool → String → ActionReplace → RequestCommon
modify_order cancel_and_reorder ticker a = record {
  req_type = if cancel_and_reorder then cancel_and_new else modify_request;
  cl_cancel_order_id = if cancel_and_reorder then pred_id a.cl_order_id else order_id_invalid;
  cl_order_id = if cancel_and_reorder then a.cl_order_id else a.original_cl_order_id;
  orig_cl_order_id = a.original_cl_order_id;
  symbol = ticker;
  side = a.side;
  order_qty = a.qty;
  price = a.price;
  position_side = a.position_side;
}

-- `cancel_order`; the side, quantity and price keep their defaults
abbrev pub cancel_order : String → ℕ → Option PositionSide → RequestCommon
cancel_order ticker id position_side = record {
  req_type = cancel_request;
  cl_cancel_order_id = order_id_invalid;
  cl_order_id = id;
  orig_cl_order_id = id;
  symbol = ticker;
  side = invalid_side;
  order_qty = pos 0;
  price = pos 0;
  position_side = position_side;
}

-- Another layer has the tick already.
unfoldable pub clashes : SideBook → ℕ → ℕ → Bool
clashes sb tick layer = elim (find_layer_by_ticks sb tick) [
  | none ↦ false
  | some existing ↦ not (existing == layer)
]

-- What `process_new_orders` writes into a side book.
unfoldable pub place_new : SideBook → ActionNew → ℕ → ℕ → SideBook
place_new sb a tick now = record sb {
  layer_ticks = set sb.layer_ticks a.layer tick;
  slots = set sb.slots a.layer (record {
    state = reserved;
    price = a.price;
    qty = a.qty;
    last_used = now;
    cl_order_id = a.cl_order_id;
  });
}

abbrev pub replacing_slot : ActionReplace → ℕ → OrderSlot
replacing_slot a now = record {
  state = cancel_reserved;
  price = a.price;
  qty = a.qty;
  last_used = now;
  cl_order_id = a.cl_order_id;
}

-- The identifier under which the exchange answers a replacement.
abbrev pub reply_id : Bool → ActionReplace → ℕ
reply_id cancel_and_reorder a = if cancel_and_reorder then a.cl_order_id else a.original_cl_order_id

abbrev pub pending_info : Bool → SideBook → ActionReplace → ℕ → PendingReplaceInfo
pending_info cancel_and_reorder sb a tick = record {
  new_price = a.price;
  new_qty = a.qty;
  new_tick = tick;
  new_cl_order_id = reply_id cancel_and_reorder a;
  last_qty = a.last_qty;
  original_cl_order_id = a.original_cl_order_id;
  original_price = (slot_at sb a.layer).price;
  original_tick = tick_at sb a.layer;
}

-- What `process_replace_orders` writes into a side book.
unfoldable pub place_replace : Bool → SideBook → ActionReplace → ℕ → ℕ → SideBook
place_replace cancel_and_reorder sb a tick now = record sb {
  layer_ticks = set sb.layer_ticks a.layer tick;
  slots = set sb.slots a.layer (replacing_slot a now);
  orig_id_to_layer =
      if cancel_and_reorder
      then assign (pred_id a.cl_order_id) a.layer sb.orig_id_to_layer
      else sb.orig_id_to_layer;
  new_id_to_layer =
      assign (reply_id cancel_and_reorder a) a.layer (erase_layer a.layer sb.new_id_to_layer);
  pending_repl = set sb.pending_repl a.layer (some (pending_info cancel_and_reorder sb a tick));
}

module _ (c : Config) where
  -- One round of `process_new_orders`; the list is `order_ids`.
  unfoldable pub process_new :
      String → ℕ → ActionNew → OrderManager × List ℕ → OrderManager × List ℕ
  process_new ticker now a (m, ids) =
      let sb = side_book m.layer_book ticker a.side a.position_side in
      let tick = to_ticks_raw c.tick_converter a.price in
      if clashes sb tick a.layer then (m, ids) else (
        record m {
          layer_book =
              put_side_book m.layer_book ticker a.side a.position_side (place_new sb a tick now);
          requests = m.requests ++ new_order ticker a ∷ [];
          position_tracker = add_reserved m.position_tracker a.side a.qty;
          expiry_manager =
              register_expiry m.expiry_manager ticker a.side a.position_side a.layer a.cl_order_id
                reserved now;
        },
        ids ++ a.cl_order_id ∷ [],
      )

  unfoldable pub process_new_orders :
      String → ℕ → List ActionNew → OrderManager × List ℕ → OrderManager × List ℕ
  process_new_orders ticker now [] s = s
  process_new_orders ticker now (a ∷ rest) s =
      process_new_orders ticker now rest (process_new ticker now a s)

  -- One round of `process_replace_orders`.
  unfoldable pub process_replace : String → ℕ → ActionReplace → OrderManager → OrderManager
  process_replace ticker now a m =
      let sb = side_book m.layer_book ticker a.side a.position_side in
      let tick = to_ticks_raw c.tick_converter a.price in
      if clashes sb tick a.layer then m else record m {
        layer_book =
            put_side_book m.layer_book ticker a.side a.position_side
              (place_replace c.cancel_and_reorder sb a tick now);
        requests = m.requests ++ modify_order c.cancel_and_reorder ticker a ∷ [];
        position_tracker = add_reserved m.position_tracker a.side (a.qty -ℤ a.last_qty);
        expiry_manager =
            register_expiry m.expiry_manager ticker a.side a.position_side a.layer a.cl_order_id
              cancel_reserved now;
      }

  unfoldable pub process_replace_orders :
      String → ℕ → List ActionReplace → OrderManager → OrderManager
  process_replace_orders ticker now [] m = m
  process_replace_orders ticker now (a ∷ rest) m =
      process_replace_orders ticker now rest (process_replace ticker now a m)

  abbrev pub canceling_slot : OrderSlot → ℕ → OrderSlot
  canceling_slot s now = record s { state = cancel_reserved; last_used = now }

  -- One round of `process_cancel_orders`.
  unfoldable pub process_cancel : String → ℕ → ActionCancel → OrderManager → OrderManager
  process_cancel ticker now a m =
      let sb = side_book m.layer_book ticker a.side a.position_side in
      record m {
        layer_book =
            put_side_book m.layer_book ticker a.side a.position_side
              (set_slot sb a.layer (canceling_slot (slot_at sb a.layer) now));
        requests = m.requests ++ cancel_order ticker a.original_cl_order_id a.position_side ∷ [];
      }

  unfoldable pub process_cancel_orders :
      String → ℕ → List ActionCancel → OrderManager → OrderManager
  process_cancel_orders ticker now [] m = m
  process_cancel_orders ticker now (a ∷ rest) m =
      process_cancel_orders ticker now rest (process_cancel ticker now a m)

  -- The slot of a key is still the key's order, and can be cancelled: `Live` or `Reserved`, which
  -- the two tests of the states come to.
  abbrev pub can_expire : OrderSlot → ExpiryKey → Bool
  can_expire s k = s.cl_order_id == k.cl_order_id && is_active s.state

  -- One round of `sweep_expired_orders`. The cancellation carries no position side.
  unfoldable pub expire : ℕ → ExpiryKey → OrderManager → OrderManager
  expire now k m =
      let sb = side_book m.layer_book k.symbol k.side k.position_side in
      let slot = slot_at sb k.layer in
      if leb slots_per_side k.layer
      then m
      else if can_expire slot k
      then record m {
        layer_book =
            put_side_book m.layer_book k.symbol k.side k.position_side
              (set_slot sb k.layer (canceling_slot slot now));
        requests = m.requests ++ cancel_order k.symbol slot.cl_order_id none ∷ [];
      }
      else m

  unfoldable pub expire_all : ℕ → List ExpiryKey → OrderManager → OrderManager
  expire_all now [] m = m
  expire_all now (k ∷ ks) m = expire_all now ks (expire now k m)

  unfoldable pub sweep_expired_orders : ℕ → OrderManager → OrderManager
  sweep_expired_orders now m =
      let (due, e) = sweep_expired m.expiry_manager now in
      expire_all now due (record m { expiry_manager = e })
