-- ===== src/Trading/StateManager/Invariant.antt =====
-- The validity of a side book, under the reports of hft/src/order_state_manager.cpp.
use hft.Prelude.{ℕ, ◌<◌, none, inl, inr, Option-cases, Bool-cases, length-set, arith}
use hft.Prelude.Int.{pos, leb_ℤ}
use hft.Prelude.Maps.{find, erase-All}
use hft.Common.Types.{reserved, live}
use hft.Trading.LayerBook.{
  OrderSlot, PendingReplaceInfo, SideBook, IsValid, slots_per_side, slot_at, pending_at, set_slot,
}
use hft.Trading.LayerBook.Unmap.{unmap_layer-IsValid}
use hft.Trading.Tracker.{ReservedPositionTracker, to_ticks_raw}
use hft.Trading.StateManager.{
  OrdStatus, invalid_status, new, partially_filled, filled, canceled, pending_cancel_status,
  rejected, pending_new_status, expired, ExecutionReport, OrderStateManager, Managed, acknowledged,
  acknowledge, fill_slot, drop_order, rejected_replace, restore_original, handle_execution_report,
  pred_id,
}
use hft.Trading.StateManager.Effect.{report_layer, known_report, unknown_report, act_at}

pub set_slot-IsValid :
    (sb : SideBook) (l : ℕ) (s : OrderSlot) → IsValid sb → IsValid (set_slot sb l s)
set_slot-IsValid sb l s v = record {
  slots_size = omega (arith, v.slots_size, length-set {0} sb.slots l s);
  ticks_size = v.ticks_size;
  pending_size = v.pending_size;
  orig_in = v.orig_in;
  new_in = v.new_in;
}

abbrev pub InRange : ℕ × ℕ → Type 0
InRange e = e.1 < slots_per_side

module _ (osm : OrderStateManager) (r : ExecutionReport) (sb : SideBook)
    (tr : ReservedPositionTracker) (l : ℕ) (v : IsValid sb) where
  acknowledge-IsValid : IsValid (acknowledge osm r sb l)
  unfolding acknowledge
  acknowledge-IsValid = elim (Option-cases (pending_at sb l)) [
    | inl p ↦
        rw (p, acknowledge)
          (record {
            slots_size =
                omega (arith, v.slots_size, length-set {0} sb.slots l (acknowledged osm r sb l));
            ticks_size = omega (
              arith,
              v.ticks_size,
              length-set sb.layer_ticks l (to_ticks_raw osm.tick_converter r.price),
            );
            pending_size = v.pending_size;
            orig_in = v.orig_in;
            new_in = v.new_in;
          })
    | inr (pend, p) ↦
        rw (p, acknowledge)
          (record {
            slots_size =
                omega (arith, v.slots_size, length-set {0} sb.slots l (acknowledged osm r sb l));
            ticks_size = omega (arith, v.ticks_size, length-set sb.layer_ticks l pend.new_tick);
            pending_size = omega (arith, v.pending_size, length-set {0} sb.pending_repl l none);
            orig_in = v.orig_in;
            new_in = erase-All InRange r.cl_order_id _ v.new_in;
          })
  ]

  fill_slot-IsValid : (now : ℕ) → IsValid (fill_slot osm r (sb, tr) now l).0
  unfolding fill_slot
  fill_slot-IsValid now = elim (Bool-cases (leb_ℤ r.leaves_qty (pos 0))) [
    | inl e ↦ rw e (unmap_layer-IsValid _ l (set_slot-IsValid sb l _ v))
    | inr e ↦ rw e (set_slot-IsValid sb l _ v)
  ]

  restore-IsValid : (p : PendingReplaceInfo) → IsValid (restore_original osm r (sb, tr) l p).0
  unfolding restore_original
  restore-IsValid p = record {
    slots_size = omega (
      arith,
      v.slots_size,
      length-set {0} sb.slots l (record (slot_at sb l) {
        state = live;
        price = (osm.destroyed p).original_price;
        cl_order_id = (osm.destroyed p).original_cl_order_id;
        qty = (osm.destroyed p).last_qty;
      }),
    );
    ticks_size =
        omega (arith, v.ticks_size, length-set sb.layer_ticks l (osm.destroyed p).original_tick);
    pending_size = omega (arith, v.pending_size, length-set {0} sb.pending_repl l none);
    orig_in = erase-All InRange (pred_id r.cl_order_id) _ v.orig_in;
    new_in = erase-All InRange r.cl_order_id _ v.new_in;
  }

  drop-IsValid : IsValid (drop_order osm r (sb, tr) l).0
  unfolding drop_order
  drop-IsValid = unmap_layer-IsValid _ l (set_slot-IsValid sb l _ v)

  cancel-IsValid : (now : ℕ) → IsValid (act_at osm canceled r (sb, tr) now l).0
  unfolding act_at
  cancel-IsValid now = elim (Option-cases (find r.cl_order_id sb.orig_id_to_layer)) [
    | inl e ↦ rw (e, act_at) drop-IsValid
    | inr (k, e) ↦
        let w = set_slot-IsValid sb l (record (slot_at sb l) { state = reserved }) v in
        rw (e, act_at)
          (record {
            slots_size = w.slots_size;
            ticks_size = w.ticks_size;
            pending_size = w.pending_size;
            orig_in = erase-All InRange r.cl_order_id _ v.orig_in;
            new_in = v.new_in;
          })
  ]

  reject-IsValid : (now : ℕ) → IsValid (act_at osm rejected r (sb, tr) now l).0
  unfolding act_at
  reject-IsValid now = elim (Option-cases (rejected_replace osm r sb)) [
    | inl e ↦ rw (e, act_at) drop-IsValid
    | inr ((k, p), e) ↦ rw (e, act_at) (restore-IsValid p)
  ]

  act-IsValid : (st : OrdStatus) (now : ℕ) → IsValid (act_at osm st r (sb, tr) now l).0
  unfolding act_at
  act-IsValid new now = acknowledge-IsValid
  act-IsValid partially_filled now = fill_slot-IsValid now
  act-IsValid filled now = unmap_layer-IsValid _ l (set_slot-IsValid sb l _ v)
  act-IsValid canceled now = cancel-IsValid now
  act-IsValid pending_cancel_status now = set_slot-IsValid sb l _ v
  act-IsValid pending_new_status now = set_slot-IsValid sb l _ v
  act-IsValid rejected now = reject-IsValid now
  act-IsValid expired now = reject-IsValid now
  act-IsValid invalid_status now = v

-- Whatever report arrives, a valid side book stays valid.
pub report-IsValid :
    (osm : OrderStateManager) (r : ExecutionReport) (m : Managed) (now : ℕ)
    → IsValid m.0
    → IsValid (handle_execution_report osm r m now).0
report-IsValid osm r (sb, tr) now v = elim (Option-cases (report_layer osm r sb)) [
  | inl e ↦ rw (unknown_report osm r (sb, tr) now e) v
  | inr (l, e) ↦
      rw (known_report osm r (sb, tr) now l e) (act-IsValid osm r sb tr l v r.ord_status now)
]
