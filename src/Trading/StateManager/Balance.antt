-- ===== src/Trading/StateManager/Balance.antt =====
-- The reserved position and the slots, under the reports of hft/src/order_state_manager.cpp.
use hft.Prelude.{
  ℕ, ◌<◌, ◌≡◌, ◌∙◌, ◌⊎◌, refl, sym, Option, none, some, inl, inr, Option-cases, Bool-cases, set,
  true, false, arith,
}
use hft.Prelude.Int.{ℤ, pos, ◌+ℤ◌, ◌-ℤ◌, ◌*ℤ◌, ◌≤ℤ◌, leb_ℤ, int_laws, eq_of_parts}
use hft.Prelude.Maps.{find}
use hft.Common.Types.{
  OmOrderState, pending_new, pending_cancel, dead, live, reserved, side_to_value,
}
use hft.Trading.LayerBook.{
  OrderSlot, PendingReplaceInfo, SideBook, IsValid, slots_per_side, slot_at, pending_at, is_free,
  unmap_layer,
}
use hft.Trading.Tracker.{
  ReservedPositionTracker, signed, side_to_value-*ℤ, remove_reserved, remove_partial_fill,
}
use hft.Trading.Exposure.{exposure, total_exposure, imbalance, total_exposure-set}
use hft.Trading.StateManager.{
  OrdStatus, invalid_status, new, partially_filled, filled, canceled, pending_cancel_status,
  rejected, pending_new_status, expired, ExecutionReport, OrderStateManager, Managed, acknowledge,
  acknowledged, fill_slot, drop_order, rejected_replace, restore_original, handle_execution_report,
  set_state, dispatch, handle_rejected_or_expired,
}
use hft.Trading.StateManager.Settle.{settle, keep, signed_drift, no_drift}
use hft.Trading.StateManager.Effect.{report_layer, report_layer_bound, known_report, act_at}

-- What a report must agree with for the accounts to match: a new order is acknowledged at the
-- quantity that was sent, a partial fill leaves no negative quantity, and a rejected replacement is
-- the one that the slot shows, and the old quantity can still be read once the record is destroyed.
abbrev pub ReplaceAgrees : OrderStateManager → Option (ℕ × PendingReplaceInfo) → OrderSlot → Type 0
ReplaceAgrees osm none s = Unit
ReplaceAgrees osm (some (_, pend)) s =
    (pend.new_qty ≡ s.qty) × ((osm.destroyed pend).last_qty ≡ pend.last_qty)

abbrev pub Agrees : OrderStateManager → OrdStatus → ExecutionReport → SideBook → ℕ → Type 0
Agrees osm new r sb l = r.leaves_qty ≡ (slot_at sb l).qty
Agrees osm partially_filled r sb l = pos 0 ≤ℤ r.leaves_qty
Agrees osm rejected r sb l = ReplaceAgrees osm (rejected_replace osm r sb) (slot_at sb l)
Agrees osm expired r sb l = ReplaceAgrees osm (rejected_replace osm r sb) (slot_at sb l)
Agrees osm _ r sb l = Unit

module _ (osm : OrderStateManager) (r : ExecutionReport) (sb : SideBook)
    (tr : ReservedPositionTracker) (l : ℕ) (v : IsValid sb) (h : l < slots_per_side)
    (busy : is_free (slot_at sb l).state ≡ false) where
  occupied : exposure (slot_at sb l) ≡ (slot_at sb l).qty
  occupied = rw busy

  set_state_balanced :
      (st : OmOrderState)
      → is_free st ≡ false
      → imbalance r.side (set_state sb l st) tr ≡ imbalance r.side sb tr
  unfolding imbalance
  set_state_balanced st e =
      keep r.side sb tr l (record (slot_at sb l) { state = st }) v h (rw (busy, e))

  -- A slot that keeps its order, at another quantity.
  resize_balanced :
      (s : OrderSlot) (q : ℤ)
      → is_free s.state ≡ false
      → (slot_at sb l).qty -ℤ s.qty ≡ q
      → tr.reserved_position
          -ℤ side_to_value r.side *ℤ q
          -ℤ signed r.side (total_exposure (set sb.slots l s))
        ≡ imbalance r.side sb tr
  resize_balanced s q e d = settle r.side sb tr l s q v h (rw (busy, e) d)

  -- A slot that loses its order.
  free_balanced :
      (s : OrderSlot) (q : ℤ)
      → is_free s.state ≡ true
      → (slot_at sb l).qty ≡ q
      → tr.reserved_position
          -ℤ side_to_value r.side *ℤ q
          -ℤ signed r.side (total_exposure (set sb.slots l s))
        ≡ imbalance r.side sb tr
  free_balanced s q e d = settle r.side sb tr l s q v h (rw (busy, e) (omega int_laws ∙ d))

  drop_balanced :
      imbalance r.side (drop_order osm r (sb, tr) l).0 (drop_order osm r (sb, tr) l).1
      ≡ imbalance r.side sb tr
  unfolding imbalance drop_order unmap_layer remove_reserved
  drop_balanced =
      free_balanced (record (slot_at sb l) { state = dead }) (slot_at sb l).qty refl refl

  acknowledge_balanced :
      r.leaves_qty ≡ (slot_at sb l).qty
      → imbalance r.side (acknowledge osm r sb l) tr ≡ imbalance r.side sb tr
  unfolding imbalance acknowledge
  acknowledge_balanced e =
      let same = keep r.side sb tr l (acknowledged osm r sb l) v h (rw busy (sym e)) in
      elim (Option-cases (pending_at sb l)) [
        | inl p ↦ rw (p, acknowledge) same
        | inr (pend, p) ↦ rw (p, acknowledge) same
      ]

  fill_balanced :
      (now : ℕ)
      → pos 0 ≤ℤ r.leaves_qty
      → imbalance r.side (fill_slot osm r (sb, tr) now l).0 (fill_slot osm r (sb, tr) now l).1
        ≡ imbalance r.side sb tr
  unfolding imbalance fill_slot unmap_layer remove_partial_fill
  fill_balanced now e = elim (Bool-cases (leb_ℤ r.leaves_qty (pos 0))) [
    | inl done ↦
        let empty : r.leaves_qty ≡ pos 0 = eq_of_parts r.leaves_qty (pos 0) (ground arith) in
        rw done (
          free_balanced (record (slot_at sb l) { qty = r.leaves_qty; state = dead })
            ((slot_at sb l).qty -ℤ r.leaves_qty) refl (rw empty (omega int_laws)))
    | inr more ↦ rw more (
        resize_balanced
          (record (slot_at sb l) { qty = r.leaves_qty; state = live; last_used = now })
          ((slot_at sb l).qty -ℤ r.leaves_qty) refl refl)
  ]

  filled_balanced :
      tr.reserved_position
        -ℤ side_to_value r.side *ℤ (slot_at sb l).qty
        -ℤ signed r.side (
            total_exposure
              (set sb.slots l (record (slot_at sb l) { qty = r.leaves_qty; state = dead })))
      ≡ imbalance r.side sb tr
  filled_balanced =
      free_balanced (record (slot_at sb l) { qty = r.leaves_qty; state = dead }) (slot_at sb l).qty
        refl refl

  -- Where the old quantity reads otherwise, the accounts move by the difference.
  restore_drifts :
      (pend : PendingReplaceInfo)
      → pend.new_qty ≡ (slot_at sb l).qty
      → imbalance r.side
          (restore_original osm r (sb, tr) l pend).0
          (restore_original osm r (sb, tr) l pend).1
        ≡ imbalance r.side sb tr +ℤ signed r.side (pend.last_qty -ℤ (osm.destroyed pend).last_qty)
  unfolding imbalance restore_original remove_reserved
  restore_drifts pend e =
      let size = v.slots_size in
      rw (side_to_value-*ℤ, total_exposure-set sb.slots l _ (omega arith), busy)
        (signed_drift r.side tr.reserved_position (total_exposure sb.slots) pend.new_qty
          (slot_at sb l).qty pend.last_qty (osm.destroyed pend).last_qty e)

  restore_balanced :
      (pend : PendingReplaceInfo)
      → pend.new_qty ≡ (slot_at sb l).qty
      → (osm.destroyed pend).last_qty ≡ pend.last_qty
      → imbalance r.side
          (restore_original osm r (sb, tr) l pend).0
          (restore_original osm r (sb, tr) l pend).1
        ≡ imbalance r.side sb tr
  restore_balanced pend e f =
      restore_drifts pend e ∙ rw f (no_drift r.side (imbalance r.side sb tr) pend.last_qty)

  reject_balanced :
      (o : Option (ℕ × PendingReplaceInfo)) (now : ℕ)
      → rejected_replace osm r sb ≡ o
      → ReplaceAgrees osm o (slot_at sb l)
      → imbalance r.side
          (act_at osm rejected r (sb, tr) now l).0
          (act_at osm rejected r (sb, tr) now l).1
        ≡ imbalance r.side sb tr
  unfolding act_at
  reject_balanced none now e a = rw (e, act_at) drop_balanced
  reject_balanced (some (k, pend)) now e a = rw (e, act_at) (restore_balanced pend a.0 a.1)

  cancel_balanced :
      (now : ℕ)
      → imbalance r.side
          (act_at osm canceled r (sb, tr) now l).0
          (act_at osm canceled r (sb, tr) now l).1
        ≡ imbalance r.side sb tr
  unfolding act_at imbalance
  cancel_balanced now = elim (Option-cases (find r.cl_order_id sb.orig_id_to_layer)) [
    | inl e ↦ rw (e, act_at) drop_balanced
    | inr (k, e) ↦ rw (e, act_at) (set_state_balanced reserved refl)
  ]

  act_balanced :
      (st : OrdStatus) (now : ℕ)
      → Agrees osm st r sb l
      → imbalance r.side (act_at osm st r (sb, tr) now l).0 (act_at osm st r (sb, tr) now l).1
        ≡ imbalance r.side sb tr
  unfolding act_at
  act_balanced new now a = acknowledge_balanced a
  act_balanced partially_filled now a = fill_balanced now a
  act_balanced filled now a = unfold imbalance unmap_layer remove_reserved in filled_balanced
  act_balanced canceled now a = cancel_balanced now
  act_balanced pending_cancel_status now a = set_state_balanced pending_cancel refl
  act_balanced pending_new_status now a = set_state_balanced pending_new refl
  act_balanced rejected now a = reject_balanced (rejected_replace osm r sb) now refl a
  act_balanced expired now a = reject_balanced (rejected_replace osm r sb) now refl a
  act_balanced invalid_status now a = refl

-- A report for a layer of a valid book whose slot holds an order, and that agrees with the slot,
-- leaves the reserved position in step with the slots: what the slots of its side do not account for
-- is the same before and after, whatever the status. A report agrees if it acknowledges the quantity
-- in the slot, if a partial fill leaves no negative quantity, and if a rejected replacement is the one
-- in the slot and its old quantity still reads the same after it is reset.
pub report_balanced :
    (osm : OrderStateManager) (r : ExecutionReport) (m : Managed) (now l : ℕ)
    → IsValid m.0
    → report_layer osm r m.0 ≡ some l
    → is_free (slot_at m.0 l).state ≡ false
    → Agrees osm r.ord_status r m.0 l
    → let (sb, tr) = handle_execution_report osm r m now in
      imbalance r.side sb tr ≡ imbalance r.side m.0 m.1
report_balanced osm r (sb, tr) now l v found busy a =
    rw (known_report osm r (sb, tr) now l found)
      (act_balanced osm r sb tr l v (report_layer_bound osm r sb l v found) busy r.ord_status now a)

pub reject_as_restore :
    (osm : OrderStateManager) (r : ExecutionReport) (m : Managed) (l now : ℕ)
    (p : PendingReplaceInfo)
    → (r.ord_status ≡ rejected) ⊎ (r.ord_status ≡ expired)
    → rejected_replace osm r m.0 ≡ some (l, p)
    → handle_execution_report osm r m now ≡ restore_original osm r m l p
unfolding handle_execution_report dispatch handle_rejected_or_expired
reject_as_restore osm r (sb, tr) l now p st e = ground arith

-- When a replacement is rejected that is the one in the slot of its layer, but its old quantity no
-- longer reads the same after the reset, the reserved position is out of step with the slots by the
-- signed difference of the two readings.
pub rejected_replace_drifts :
    (osm : OrderStateManager) (r : ExecutionReport) (m : Managed) (now l : ℕ)
    (pend : PendingReplaceInfo)
    → IsValid m.0
    → r.ord_status ≡ rejected
    → rejected_replace osm r m.0 ≡ some (l, pend)
    → l < slots_per_side
    → is_free (slot_at m.0 l).state ≡ false
    → pend.new_qty ≡ (slot_at m.0 l).qty
    → let (sb, tr) = handle_execution_report osm r m now in
      imbalance r.side sb tr
      ≡ imbalance r.side m.0 m.1 +ℤ signed r.side (pend.last_qty -ℤ (osm.destroyed pend).last_qty)
rejected_replace_drifts osm r (sb, tr) now l pend v st e h busy q =
    rw (reject_as_restore osm r (sb, tr) l now pend (inl st) e)
      (restore_drifts osm r sb tr l v h busy pend q)
