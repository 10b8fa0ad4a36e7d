-- ===== src/Trading/StateManager.antt =====
-- hft/src/order_state_manager.cpp: what an execution report does to the slots of its side and to the
-- reserved position. Each handler returns the new side book and tracker; logging is left out.
pub mod Effect
pub mod Frame
pub mod Invariant
pub mod Settle
pub mod Balance
use hft.Prelude.{
  ℕ, ◌+◌, ◌-◌, ◌%◌, ◌^◌, ◌≡◌, Bool, true, false, Option, none, some, String, set, if◌then◌else◌,
}
use hft.Prelude.Int.{ℤ, pos, ◌-ℤ◌, leb_ℤ}
use hft.Prelude.Maps.{find, erase}
use hft.Common.Types.{
  Side, PositionSide, OmOrderState, pending_new, live, pending_cancel, dead, reserved,
}
pub use hft.Core.OrderEntry.{
  OrdStatus, invalid_status, new, partially_filled, filled, canceled, pending_cancel_status,
  rejected, pending_new_status, expired,
}
use hft.Trading.LayerBook.{
  OrderSlot, PendingReplaceInfo, SideBook, slot_at, pending_at, set_slot, find_layer_by_ticks,
  find_layer_by_id, unmap_layer,
}
use hft.Trading.Tracker.{
  ReservedPositionTracker, remove_reserved, remove_partial_fill, TickConverter, to_ticks_raw,
}

-- The fields of `ExecutionReport` that the order manager and the position keeper read.
pub record ExecutionReport : Type 0 where
  pub cl_order_id : ℕ
  pub symbol : String
  pub ord_status : OrdStatus
  pub leaves_qty : ℤ
  pub last_qty : ℤ
  pub price : ℤ
  pub side : Side
  pub position_side : Option PositionSide

abbrev pub Managed : Type 0
Managed = SideBook × ReservedPositionTracker

-- The tick converter of the manager, and `destroyed`: what a read through a reference to a pending
-- replacement gives once the optional that holds it is reset. The language leaves this open (the
-- bytes may or may not still be there), so it is a parameter.
pub record OrderStateManager : Type 0 where
  pub tick_converter : TickConverter
  pub destroyed : PendingReplaceInfo → PendingReplaceInfo

abbrev pub set_state : SideBook → ℕ → OmOrderState → SideBook
set_state sb l st = set_slot sb l (record (slot_at sb l) { state = st })

-- `cl_order_id.value - 1`, which wraps.
abbrev pub pred_id : ℕ → ℕ
pred_id id = (id + (2 ^ 64 - 1)) % 2 ^ 64

module _ (osm : OrderStateManager) where
  unfoldable pub find_layer : SideBook → ℕ → ℤ → Option ℕ
  find_layer sb id price = elim (find_layer_by_id sb id) [
    | some layer ↦ some layer
    | none ↦ find_layer_by_ticks sb (to_ticks_raw osm.tick_converter price)
  ]

  unfoldable pub handle_pending_new : ExecutionReport → Managed → Managed
  handle_pending_new r (sb, tr) = elim (find_layer sb r.cl_order_id r.price) [
    | none ↦ (sb, tr)
    | some layer ↦ (set_state sb layer pending_new, tr)
  ]

  abbrev pub acknowledged : ExecutionReport → SideBook → ℕ → OrderSlot
  acknowledged r sb layer = record (slot_at sb layer) {
    price = r.price;
    qty = r.leaves_qty;
    cl_order_id = r.cl_order_id;
    state = live;
  }

  -- `handle_new` once the layer is found
  unfoldable pub acknowledge : ExecutionReport → SideBook → ℕ → SideBook
  acknowledge r sb layer = elim (pending_at sb layer) [
    | some pend ↦ record sb {
      layer_ticks = set sb.layer_ticks layer pend.new_tick;
      slots = set sb.slots layer (acknowledged r sb layer);
      pending_repl = set sb.pending_repl layer none;
      new_id_to_layer = erase r.cl_order_id sb.new_id_to_layer;
    }
    | none ↦ record sb {
      layer_ticks = set sb.layer_ticks layer (to_ticks_raw osm.tick_converter r.price);
      slots = set sb.slots layer (acknowledged r sb layer);
    }
  ]

  -- the layer that `handle_new` works on
  unfoldable pub new_layer : ExecutionReport → SideBook → Option ℕ
  new_layer r sb = elim (find r.cl_order_id sb.new_id_to_layer) [
    | some layer ↦ some layer
    | none ↦ find_layer sb r.cl_order_id r.price
  ]

  unfoldable pub handle_new : ExecutionReport → Managed → Managed
  handle_new r (sb, tr) = elim (new_layer r sb) [
    | none ↦ (sb, tr)
    | some layer ↦ (acknowledge r sb layer, tr)
  ]

  unfoldable pub fill_slot : ExecutionReport → Managed → ℕ → ℕ → Managed
  fill_slot r (sb, tr) now layer =
      let slot = slot_at sb layer in
      let tr' = remove_partial_fill tr r.side (slot.qty -ℤ r.leaves_qty) in
      if leb_ℤ r.leaves_qty (pos 0)
      then (
        unmap_layer (set_slot sb layer (record slot { qty = r.leaves_qty; state = dead })) layer,
        tr',
      )
      else (
        set_slot sb layer (record slot { qty = r.leaves_qty; state = live; last_used = now }),
        tr',
      )

  unfoldable pub handle_partially_filled : ExecutionReport → Managed → ℕ → Managed
  handle_partially_filled r (sb, tr) now = elim (find_layer sb r.cl_order_id r.price) [
    | none ↦ (sb, tr)
    | some layer ↦ fill_slot r (sb, tr) now layer
  ]

  unfoldable pub handle_filled : ExecutionReport → Managed → Managed
  handle_filled r (sb, tr) = elim (find_layer sb r.cl_order_id r.price) [
    | none ↦ (sb, tr)
    | some layer ↦ (
      unmap_layer
          (set_slot sb layer (record (slot_at sb layer) { qty = r.leaves_qty; state = dead }))
          layer,
      remove_reserved tr r.side (slot_at sb layer).qty,
    )
  ]

  unfoldable pub handle_pending_cancel : ExecutionReport → Managed → Managed
  handle_pending_cancel r (sb, tr) = elim (find_layer sb r.cl_order_id r.price) [
    | none ↦ (sb, tr)
    | some layer ↦ (set_state sb layer pending_cancel, tr)
  ]

  -- The order of a layer is gone: its quantity is released and the layer is unmapped.
  unfoldable pub drop_order : ExecutionReport → Managed → ℕ → Managed
  drop_order r (sb, tr) layer = (
    unmap_layer (set_state sb layer dead) layer,
    remove_reserved tr r.side (slot_at sb layer).qty,
  )

  unfoldable pub handle_canceled : ExecutionReport → Managed → Managed
  handle_canceled r (sb, tr) = elim (find r.cl_order_id sb.orig_id_to_layer) [
    | some layer ↦ (
      set_state (record sb { orig_id_to_layer = erase r.cl_order_id sb.orig_id_to_layer }) layer
          reserved,
      tr,
    )
    | none ↦ elim (find_layer sb r.cl_order_id r.price) [
      | none ↦ (sb, tr)
      | some layer ↦ drop_order r (sb, tr) layer
    ]
  ]

  -- The replacement that a report rejects, if the identifier is that of one.
  unfoldable pub rejected_replace : ExecutionReport → SideBook → Option (ℕ × PendingReplaceInfo)
  rejected_replace r sb = elim (find r.cl_order_id sb.new_id_to_layer) [
    | none ↦ none
    | some layer ↦ elim (pending_at sb layer) [ none ↦ none | some pend ↦ some (layer, pend) ]
  ]

  -- The quantity to release is read from the pending replacement, which is then reset: what is put
  -- back into the slot is read after that.
  unfoldable pub restore_original : ExecutionReport → Managed → ℕ → PendingReplaceInfo → Managed
  restore_original r (sb, tr) layer pend =
      let dangling = osm.destroyed pend in
      (
        record sb {
          pending_repl = set sb.pending_repl layer none;
          new_id_to_layer = erase r.cl_order_id sb.new_id_to_layer;
          slots = set sb.slots layer (record (slot_at sb layer) {
            state = live;
            price = dangling.original_price;
            cl_order_id = dangling.original_cl_order_id;
            qty = dangling.last_qty;
          });
          layer_ticks = set sb.layer_ticks layer dangling.original_tick;
          orig_id_to_layer = erase (pred_id r.cl_order_id) sb.orig_id_to_layer;
        },
        remove_reserved tr r.side (pend.new_qty -ℤ pend.last_qty),
      )

  -- The source names `pending_repl[layer]` before it tests `layer >= 0`; it reads it only after.
  unfoldable pub handle_rejected_or_expired : ExecutionReport → Managed → Managed
  handle_rejected_or_expired r (sb, tr) = elim (rejected_replace r sb) [
    | some (layer, pend) ↦ restore_original r (sb, tr) layer pend
    | none ↦ elim (find_layer sb r.cl_order_id r.price) [
      | none ↦ (sb, tr)
      | some layer ↦ drop_order r (sb, tr) layer
    ]
  ]

  -- the `switch`, by status
  unfoldable pub dispatch : OrdStatus → ExecutionReport → Managed → ℕ → Managed
  dispatch pending_new_status r m now = handle_pending_new r m
  dispatch new r m now = handle_new r m
  dispatch partially_filled r m now = handle_partially_filled r m now
  dispatch filled r m now = handle_filled r m
  dispatch pending_cancel_status r m now = handle_pending_cancel r m
  dispatch canceled r m now = handle_canceled r m
  dispatch rejected r m now = handle_rejected_or_expired r m
  dispatch expired r m now = handle_rejected_or_expired r m
  dispatch invalid_status r m now = m

  unfoldable pub handle_execution_report : ExecutionReport → Managed → ℕ → Managed
  unfolding dispatch
  handle_execution_report r m now = dispatch r.ord_status r m now
