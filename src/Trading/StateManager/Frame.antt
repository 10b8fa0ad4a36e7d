-- ===== src/Trading/StateManager/Frame.antt =====
-- The layers that a report of hft/src/order_state_manager.cpp is not about, and the end of an order.
use hft.Prelude.{
  ℕ, ◌<◌, ◌≡◌, refl, ◌≢◌, ◌⊎◌, none, some, inl, inr, Option-cases, Bool-cases, All, get_or-set_self,
  get_or-set_ne, arith,
}
use hft.Prelude.Int.{pos, ◌-ℤ◌, ◌*ℤ◌, ◌≤ℤ◌, leb_ℤ}
use hft.Prelude.Maps.{find}
use hft.Common.Types.{dead, side_to_value}
use hft.Trading.LayerBook.{
  OrderSlot, PendingReplaceInfo, SideBook, IsValid, slots_per_side, ticks_invalid, slot_at, tick_at,
  pending_at, set_slot, unmap_layer, find_layer_by_id, find_layer_by_ticks, default_slot,
}
use hft.Trading.LayerBook.Search.{find_layer_by_ticks-some}
use hft.Trading.LayerBook.Unmap.{erase_layer_gone}
use hft.Trading.Tracker.{ReservedPositionTracker, to_ticks_raw, remove_reserved}
use hft.Trading.StateManager.{
  OrdStatus, invalid_status, new, partially_filled, filled, canceled, pending_cancel_status,
  rejected, pending_new_status, expired, ExecutionReport, OrderStateManager, Managed, acknowledge,
  fill_slot, find_layer, handle_rejected_or_expired, drop_order, rejected_replace, restore_original,
  dispatch, handle_execution_report,
}
use hft.Trading.StateManager.Effect.{report_layer, known_report, unknown_report, act_at}

-- The two books show the same at a layer.
abbrev pub SameAt : ℕ → SideBook → SideBook → Type 0
SameAt j sb sb' =
    (slot_at sb' j ≡ slot_at sb j)
    × (tick_at sb' j ≡ tick_at sb j)
    × (pending_at sb' j ≡ pending_at sb j)

module _ (osm : OrderStateManager) (r : ExecutionReport) (sb : SideBook)
    (tr : ReservedPositionTracker) (l j : ℕ) (ne : l ≢ j) where
  slot_same : (s : OrderSlot) → slot_at (set_slot sb l s) j ≡ slot_at sb j
  slot_same s = get_or-set_ne sb.slots l j s _ ne

  unmap_same : (s : OrderSlot) → SameAt j sb (unmap_layer (set_slot sb l s) l)
  unfolding unmap_layer
  unmap_same s = (
    slot_same s,
    get_or-set_ne sb.layer_ticks l j _ _ ne,
    get_or-set_ne sb.pending_repl l j none none ne,
  )

  acknowledge_same : SameAt j sb (acknowledge osm r sb l)
  unfolding acknowledge
  acknowledge_same = elim (Option-cases (pending_at sb l)) [
    | inl p ↦ rw (p, acknowledge) (slot_same _, get_or-set_ne sb.layer_ticks l j _ _ ne, refl)
    | inr (pend, p) ↦
        rw (p, acknowledge)
          (
            slot_same _,
            get_or-set_ne sb.layer_ticks l j _ _ ne,
            get_or-set_ne sb.pending_repl l j none none ne,
          )
  ]

  fill_same : (now : ℕ) → SameAt j sb (fill_slot osm r (sb, tr) now l).0
  unfolding fill_slot
  fill_same now = elim (Bool-cases (leb_ℤ r.leaves_qty (pos 0))) [
    | inl e ↦ rw e (unmap_same _)
    | inr e ↦ rw e (slot_same _, refl, refl)
  ]

  drop_same : SameAt j sb (drop_order osm r (sb, tr) l).0
  unfolding drop_order
  drop_same = unmap_same _

  cancel_same : (now : ℕ) → SameAt j sb (act_at osm canceled r (sb, tr) now l).0
  unfolding act_at
  cancel_same now = elim (Option-cases (find r.cl_order_id sb.orig_id_to_layer)) [
    | inl e ↦ rw (e, act_at) drop_same
    | inr (k, e) ↦ rw (e, act_at) (slot_same _, refl, refl)
  ]

  restore_same : (p : PendingReplaceInfo) → SameAt j sb (restore_original osm r (sb, tr) l p).0
  unfolding restore_original
  restore_same p = (
    slot_same _,
    get_or-set_ne sb.layer_ticks l j _ _ ne,
    get_or-set_ne sb.pending_repl l j none none ne,
  )

  reject_same : (now : ℕ) → SameAt j sb (act_at osm rejected r (sb, tr) now l).0
  unfolding act_at
  reject_same now = elim (Option-cases (rejected_replace osm r sb)) [
    | inl e ↦ rw (e, act_at) drop_same
    | inr ((k, p), e) ↦ rw (e, act_at) (restore_same p)
  ]

  act_same : (st : OrdStatus) (now : ℕ) → SameAt j sb (act_at osm st r (sb, tr) now l).0
  unfolding act_at
  act_same new now = acknowledge_same
  act_same partially_filled now = fill_same now
  act_same filled now = unmap_same _
  act_same canceled now = cancel_same now
  act_same pending_cancel_status now = (slot_same _, refl, refl)
  act_same pending_new_status now = (slot_same _, refl, refl)
  act_same rejected now = reject_same now
  act_same expired now = reject_same now
  act_same invalid_status now = (refl, refl, refl)

-- A report for one layer leaves the slot, the tick and the pending replacement of every other layer
-- as they were; a report for no layer changes neither the book nor the tracker.
pub report_frame :
    (osm : OrderStateManager) (r : ExecutionReport) (m : Managed) (now : ℕ)
    → ((report_layer osm r m.0 ≡ none) × (handle_execution_report osm r m now ≡ m))
      ⊎ ((l : ℕ) × (report_layer osm r m.0 ≡ some l)
          × ((j : ℕ) → l ≢ j → SameAt j m.0 (handle_execution_report osm r m now).0))
report_frame osm r (sb, tr) now = elim (Option-cases (report_layer osm r sb)) [
  | inl e ↦ inl (e, unknown_report osm r (sb, tr) now e)
  | inr (l, e) ↦ inr (
    l,
    e,
    λ j ne. rw (known_report osm r (sb, tr) now l e) (act_same osm r sb tr l j ne r.ord_status now),
  )
]

-- The reports that end the order of a slot: a fill, a cancellation or rejection that is not part of
-- a replacement, and a partial fill that leaves nothing.
abbrev pub Ends : OrderStateManager → OrdStatus → ExecutionReport → SideBook → Type 0
Ends osm filled r sb = Unit
Ends osm partially_filled r sb = r.leaves_qty ≤ℤ pos 0
Ends osm canceled r sb = find r.cl_order_id sb.orig_id_to_layer ≡ none
Ends osm rejected r sb = rejected_replace osm r sb ≡ none
Ends osm expired r sb = rejected_replace osm r sb ≡ none
Ends osm _ r sb = ⊥

-- Nothing refers to the layer any more.
abbrev pub Freed : SideBook → ℕ → Type 0
Freed sb l =
    ((slot_at sb l).state ≡ dead)
    × (tick_at sb l ≡ ticks_invalid)
    × (pending_at sb l ≡ none)
    × All (λ e. e.1 ≢ l) sb.orig_id_to_layer
    × All (λ e. e.1 ≢ l) sb.new_id_to_layer

module _ (osm : OrderStateManager) (r : ExecutionReport) (sb : SideBook)
    (tr : ReservedPositionTracker) (l : ℕ) (v : IsValid sb) (h : l < slots_per_side) where
  unmap-Freed : (s : OrderSlot) → s.state ≡ dead → Freed (unmap_layer (set_slot sb l s) l) l
  unfolding unmap_layer
  unmap-Freed s e = (
    rw (get_or-set_self sb.slots l s default_slot (omega (arith, v.slots_size))) e,
    get_or-set_self sb.layer_ticks l _ _ (omega (arith, v.ticks_size)),
    get_or-set_self sb.pending_repl l none none (omega (arith, v.pending_size)),
    erase_layer_gone l _,
    erase_layer_gone l _,
  )

  drop-Freed : Freed (drop_order osm r (sb, tr) l).0 l
  unfolding drop_order
  drop-Freed = unmap-Freed _ refl

phantom_layer :
    (osm : OrderStateManager) (r : ExecutionReport) (sb : SideBook) (l : ℕ)
    → to_ticks_raw osm.tick_converter r.price ≡ ticks_invalid
    → find_layer_by_id sb r.cl_order_id ≡ none
    → find_layer_by_ticks sb ticks_invalid ≡ some l
    → find_layer osm sb r.cl_order_id r.price ≡ some l
unfolding find_layer
phantom_layer osm r sb l tick no_id found = rw (no_id, find_layer) (rw tick found)

phantom_drop :
    (osm : OrderStateManager) (r : ExecutionReport) (sb : SideBook) (tr : ReservedPositionTracker)
    (now l : ℕ)
    → r.ord_status ≡ rejected
    → find r.cl_order_id sb.new_id_to_layer ≡ none
    → find_layer osm sb r.cl_order_id r.price ≡ some l
    → handle_execution_report osm r (sb, tr) now ≡ drop_order osm r (sb, tr) l
unfolding handle_execution_report dispatch handle_rejected_or_expired rejected_replace
phantom_drop osm r sb tr now l st unknown layer = ground arith

phantom_release :
    (osm : OrderStateManager) (r : ExecutionReport) (sb : SideBook) (tr : ReservedPositionTracker)
    (l : ℕ)
    → (drop_order osm r (sb, tr) l).1.reserved_position
      ≡ tr.reserved_position -ℤ side_to_value r.side *ℤ (slot_at sb l).qty
unfolding drop_order remove_reserved
phantom_release osm r sb tr l = refl

-- A rejection for an order that is not known, neither by its identifier nor as a replacement, at a
-- price that gives tick 0, is taken to be about the first layer whose tick is 0, which is that of a
-- layer without an order: the quantity in its slot is released, and the slot is dead.
pub phantom_reject :
    (osm : OrderStateManager) (r : ExecutionReport) (m : Managed) (now l : ℕ)
    → IsValid m.0
    → r.ord_status ≡ rejected
    → to_ticks_raw osm.tick_converter r.price ≡ ticks_invalid
    → find r.cl_order_id m.0.new_id_to_layer ≡ none
    → find_layer_by_id m.0 r.cl_order_id ≡ none
    → find_layer_by_ticks m.0 ticks_invalid ≡ some l
    → let (sb, tr) = handle_execution_report osm r m now in
      (tr.reserved_position ≡ m.1.reserved_position -ℤ side_to_value r.side *ℤ (slot_at m.0 l).qty)
      × Freed sb l
phantom_reject osm r (sb, tr) now l v st tick unknown no_id found =
    let layer = phantom_layer osm r sb l tick no_id found in
    let lt = (find_layer_by_ticks-some sb ticks_invalid l found).0 in
    rw (phantom_drop osm r sb tr now l st unknown layer)
      (phantom_release osm r sb tr l, drop-Freed osm r sb tr l v lt)
