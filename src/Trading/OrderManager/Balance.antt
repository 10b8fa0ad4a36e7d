-- ===== src/Trading/OrderManager/Balance.antt =====
-- Orders that hft/src/order_manager.hpp places, and the reserved position.
use hft.Prelude.{
  ℕ, ◌<◌, ◌≡◌, Bool, true, false, Bool-cases, inl, inr, set, length-set, get_or-set_self, get_or,
  length, List, arith,
}
use hft.Prelude.Int.{ℤ, ◌+ℤ◌, ◌-ℤ◌, ◌*ℤ◌, int_laws}
use hft.Common.Types.{Side, is_buy, side_to_value, reserved}
use hft.Trading.LayerBook.{
  OrderSlot, SideBook, IsValid, slots_per_side, slot_at, is_free, default_slot,
}
use hft.Trading.Tracker.{ReservedPositionTracker, add_reserved, signed, side_to_value-*ℤ}
use hft.Trading.Exposure.{exposure, total_exposure, imbalance, total_exposure-set}
use hft.Trading.Reconciler.{ActionNew, ActionReplace}
use hft.Trading.OrderManager.{place_new, place_replace, replacing_slot}

signed_gain :
    (side : Side) (r t a b : ℤ)
    → r +ℤ signed side (b -ℤ a) -ℤ signed side (t -ℤ a +ℤ b) ≡ r -ℤ signed side t
unfolding signed
signed_gain side r t a b = elim (Bool-cases (is_buy side)) [
  | inl e ↦ rw e (omega int_laws)
  | inr e ↦ rw e (omega int_laws)
]

-- A slot is written and the tracker takes on what the slot gains.
charge :
    (side : Side) (sb : SideBook) (tr : ReservedPositionTracker) (l : ℕ) (s : OrderSlot) (q : ℤ)
    → IsValid sb
    → l < slots_per_side
    → exposure s -ℤ exposure (slot_at sb l) ≡ q
    → tr.reserved_position
        +ℤ side_to_value side *ℤ q
        -ℤ signed side (total_exposure (set sb.slots l s))
      ≡ imbalance side sb tr
unfolding imbalance
charge side sb tr l s q v h e =
    let size = v.slots_size in
    rw (side_to_value-*ℤ, total_exposure-set sb.slots l s (omega arith), ← e)
      (signed_gain side tr.reserved_position (total_exposure sb.slots) (exposure (slot_at sb l))
        (exposure s))

-- Placing a new order on a free layer of a valid book reserves exactly what its slot then shows.
pub place_new_balanced :
    (sb : SideBook) (tr : ReservedPositionTracker) (a : ActionNew) (tick now : ℕ)
    → IsValid sb
    → a.layer < slots_per_side
    → is_free (slot_at sb a.layer).state ≡ true
    → imbalance a.side (place_new sb a tick now) (add_reserved tr a.side a.qty)
      ≡ imbalance a.side sb tr
unfolding imbalance place_new add_reserved
place_new_balanced sb tr a tick now v h free =
    charge a.side sb tr a.layer _ a.qty v h (rw free (omega int_laws))

-- Replacing the order of a layer, at the quantity that the slot shows, reserves exactly the
-- difference between the new quantity and that one.
pub place_replace_balanced :
    (car : Bool) (sb : SideBook) (tr : ReservedPositionTracker) (a : ActionReplace) (tick now : ℕ)
    → IsValid sb
    → a.layer < slots_per_side
    → is_free (slot_at sb a.layer).state ≡ false
    → a.last_qty ≡ (slot_at sb a.layer).qty
    → imbalance a.side
        (place_replace car sb a tick now)
        (add_reserved tr a.side (a.qty -ℤ a.last_qty))
      ≡ imbalance a.side sb tr
unfolding imbalance place_replace add_reserved
place_replace_balanced car sb tr a tick now v h busy e =
    charge a.side sb tr a.layer (replacing_slot a now) (a.qty -ℤ a.last_qty) v h (rw (busy, e))

pub place_new-IsValid :
    (sb : SideBook) (a : ActionNew) (tick now : ℕ) → IsValid sb → IsValid (place_new sb a tick now)
unfolding place_new
place_new-IsValid sb a tick now v = record {
  slots_size = omega (
    arith,
    v.slots_size,
    length-set {0} sb.slots a.layer (record {
      state = reserved;
      price = a.price;
      qty = a.qty;
      last_used = now;
      cl_order_id = a.cl_order_id;
    }),
  );
  ticks_size = omega (arith, v.ticks_size, length-set sb.layer_ticks a.layer tick);
  pending_size = v.pending_size;
  orig_in = v.orig_in;
  new_in = v.new_in;
}

orphan_signed :
    (side : Side) (r t a b : ℤ)
    → r +ℤ signed side a +ℤ signed side b -ℤ signed side (t +ℤ a -ℤ a +ℤ b)
      ≡ r -ℤ signed side t +ℤ signed side a
unfolding signed
orphan_signed side r t a b = elim (Bool-cases (is_buy side)) [
  | inl e ↦ rw e (omega int_laws)
  | inr e ↦ rw e (omega int_laws)
]

twice_written :
    (ss : List OrderSlot) (l : ℕ) (s1 s2 : OrderSlot)
    → l < length ss
    → is_free (get_or ss l default_slot).state ≡ true
    → total_exposure (set (set ss l s1) l s2)
      ≡ total_exposure ss +ℤ exposure s1 -ℤ exposure s1 +ℤ exposure s2
twice_written ss l s1 s2 h free =
    rw
      (
        total_exposure-set (set ss l s1) l s2 (omega (arith, length-set ss l s1)),
        get_or-set_self ss l s1 default_slot h,
        total_exposure-set ss l s1 h,
        free,
      )
      (omega int_laws)

-- When two new orders of one side are placed on the same free layer, the slot keeps the second only:
-- the reserved position then holds the first order's quantity, and no slot accounts for it.
pub placed_twice_balance :
    (sb : SideBook) (tr : ReservedPositionTracker) (a b : ActionNew) (t u now : ℕ)
    → IsValid sb
    → a.layer < slots_per_side
    → is_free (slot_at sb a.layer).state ≡ true
    → b.layer ≡ a.layer
    → b.side ≡ a.side
    → imbalance a.side
        (place_new (place_new sb a t now) b u now)
        (add_reserved (add_reserved tr a.side a.qty) b.side b.qty)
      ≡ imbalance a.side sb tr +ℤ signed a.side a.qty
unfolding imbalance place_new add_reserved
placed_twice_balance sb tr a b t u now v h free same side =
    let size = v.slots_size in
    simp (same, side, side_to_value-*ℤ)
      (rw (twice_written sb.slots a.layer _ _ (omega arith) free)
        (orphan_signed a.side tr.reserved_position (total_exposure sb.slots) a.qty b.qty))
