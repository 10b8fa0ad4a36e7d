-- ===== src/Trading/StateManager/Effect.antt =====
-- Each handler of hft/src/order_state_manager.cpp finds one layer and acts on it: the layer and the
-- act apart, which the proofs about the handlers go by.
use hft.Prelude.{ℕ, ◌≡◌, ◌<◌, Option, none, some, All, List, [], ◌∷◌, arith}
use hft.Prelude.Maps.{find, erase}
use hft.Common.Types.{pending_new, pending_cancel, dead, reserved}
use hft.Trading.LayerBook.{
  PendingReplaceInfo, SideBook, IsValid, slots_per_side, slot_at, set_slot, unmap_layer,
}
use hft.Trading.LayerBook.Search.{find_layer_by_ticks-some, find_layer_by_id-some}
use hft.Trading.Tracker.{to_ticks_raw, remove_reserved}
use hft.Trading.StateManager.{
  OrdStatus, invalid_status, new, partially_filled, filled, canceled, pending_cancel_status,
  rejected, pending_new_status, expired, ExecutionReport, OrderStateManager, Managed, set_state,
  find_layer, new_layer, acknowledge, fill_slot, drop_order, rejected_replace, restore_original,
  handle_pending_new, handle_new, handle_partially_filled, handle_filled, handle_pending_cancel,
  handle_canceled, handle_rejected_or_expired, dispatch, handle_execution_report,
}

module _ (osm : OrderStateManager) where
  or_find : ExecutionReport → SideBook → Option ℕ → Option ℕ
  or_find r sb none = find_layer osm sb r.cl_order_id r.price
  or_find r sb (some l) = some l

  replaced : ExecutionReport → SideBook → Option ℕ
  replaced r sb = elim (rejected_replace osm r sb) [ none ↦ none | some (l, _) ↦ some l ]

  -- The layer that a report of the status is about.
  unfoldable pub layer_for : OrdStatus → ExecutionReport → SideBook → Option ℕ
  unfolding or_find replaced
  layer_for new r sb = new_layer osm r sb
  layer_for canceled r sb = or_find r sb (find r.cl_order_id sb.orig_id_to_layer)
  layer_for rejected r sb = or_find r sb (replaced r sb)
  layer_for expired r sb = or_find r sb (replaced r sb)
  layer_for invalid_status r sb = none
  layer_for _ r sb = find_layer osm sb r.cl_order_id r.price

  unfoldable pub report_layer : ExecutionReport → SideBook → Option ℕ
  unfolding layer_for
  report_layer r sb = layer_for r.ord_status r sb

  cancel_at : ExecutionReport → Managed → ℕ → Option ℕ → Managed
  cancel_at r (sb, tr) l none = drop_order osm r (sb, tr) l
  cancel_at r (sb, tr) l (some _) = (
    set_state (record sb { orig_id_to_layer = erase r.cl_order_id sb.orig_id_to_layer }) l reserved,
    tr,
  )

  reject_at : ExecutionReport → Managed → ℕ → Option (ℕ × PendingReplaceInfo) → Managed
  reject_at r m l none = drop_order osm r m l
  reject_at r m l (some (_, pend)) = restore_original osm r m l pend

  -- What it does there.
  unfoldable pub act_at : OrdStatus → ExecutionReport → Managed → ℕ → ℕ → Managed
  unfolding cancel_at reject_at
  act_at pending_new_status r (sb, tr) now l = (set_state sb l pending_new, tr)
  act_at new r (sb, tr) now l = (acknowledge osm r sb l, tr)
  act_at partially_filled r m now l = fill_slot osm r m now l
  act_at filled r (sb, tr) now l = (
    unmap_layer (set_slot sb l (record (slot_at sb l) { qty = r.leaves_qty; state = dead })) l,
    remove_reserved tr r.side (slot_at sb l).qty,
  )
  act_at pending_cancel_status r (sb, tr) now l = (set_state sb l pending_cancel, tr)
  act_at canceled r (sb, tr) now l = cancel_at r (sb, tr) l (find r.cl_order_id sb.orig_id_to_layer)
  act_at rejected r m now l = reject_at r m l (rejected_replace osm r m.0)
  act_at expired r m now l = reject_at r m l (rejected_replace osm r m.0)
  act_at invalid_status r m now l = m

  dispatch-act :
      (st : OrdStatus) (r : ExecutionReport) (sb : SideBook) (tr : _) (now : ℕ)
      → dispatch osm st r (sb, tr) now
        ≡ (elim (layer_for st r sb) [ none ↦ (sb, tr) | some l ↦ act_at st r (sb, tr) now l ])
  unfolding dispatch layer_for act_at handle_pending_new handle_new handle_partially_filled
      handle_filled handle_pending_cancel handle_canceled handle_rejected_or_expired
  dispatch-act new r sb tr now = ground arith
  dispatch-act canceled r sb tr now = ground arith
  dispatch-act _ r sb tr now = ground arith

  -- A report for which no layer is found changes nothing.
  pub unknown_report :
      (r : ExecutionReport) (m : Managed) (now : ℕ)
      → report_layer r m.0 ≡ none
      → handle_execution_report osm r m now ≡ m
  unfolding handle_execution_report report_layer
  unknown_report r (sb, tr) now h = ground (arith, dispatch-act r.ord_status r sb tr now)

  pub known_report :
      (r : ExecutionReport) (m : Managed) (now l : ℕ)
      → report_layer r m.0 ≡ some l
      → handle_execution_report osm r m now ≡ act_at r.ord_status r m now l
  unfolding handle_execution_report report_layer
  known_report r (sb, tr) now l h = ground (arith, dispatch-act r.ord_status r sb tr now)

  find_layer_bound :
      (sb : SideBook) (id : ℕ) (price : _) (l : ℕ)
      → find_layer osm sb id price ≡ some l
      → l < slots_per_side
  unfolding find_layer
  find_layer_bound sb id price l h = ground (
    arith,
    find_layer_by_id-some sb id l,
    find_layer_by_ticks-some sb (to_ticks_raw osm.tick_converter price) l,
  )

find_bound : (k n l : ℕ) (m : List (ℕ × ℕ)) → All (λ e. e.1 < n) m → find k m ≡ some l → l < n
unfolding find
find_bound k n l [] a h = absurd (cc)
find_bound k n l ((j, v) ∷ m) a h = ground (arith, find_bound k n l m a.1)

module _ (osm : OrderStateManager) where
  pub report_layer_bound :
      (r : ExecutionReport) (sb : SideBook) (l : ℕ)
      → IsValid sb
      → report_layer osm r sb ≡ some l
      → l < slots_per_side
  unfolding report_layer layer_for rejected_replace new_layer
  report_layer_bound r sb l v h = ground (
    arith,
    find_layer_bound osm sb r.cl_order_id r.price l,
    find_bound r.cl_order_id slots_per_side l sb.new_id_to_layer v.new_in,
    find_bound r.cl_order_id slots_per_side l sb.orig_id_to_layer v.orig_in,
  )
