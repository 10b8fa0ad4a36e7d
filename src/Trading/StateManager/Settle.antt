-- ===== src/Trading/StateManager/Settle.antt =====
-- One slot of a side book is written, and the reserved position of hft/src/reserved_position_tracker.h
-- moves with it.
use hft.Prelude.{ℕ, ◌<◌, ◌≡◌, ap, inl, inr, Bool-cases, set, arith}
use hft.Prelude.Int.{ℤ, ◌+ℤ◌, ◌-ℤ◌, ◌*ℤ◌, int_laws}
use hft.Common.Types.{Side, is_buy, side_to_value}
use hft.Trading.LayerBook.{OrderSlot, SideBook, IsValid, slots_per_side, slot_at}
use hft.Trading.Tracker.{ReservedPositionTracker, signed, side_to_value-*ℤ}
use hft.Trading.Exposure.{exposure, total_exposure, imbalance, total_exposure-set}

signed_balance :
    (side : Side) (r t a b : ℤ)
    → r -ℤ signed side (a -ℤ b) -ℤ signed side (t -ℤ a +ℤ b) ≡ r -ℤ signed side t
unfolding signed
signed_balance side r t a b = elim (Bool-cases (is_buy side)) [
  | inl e ↦ rw e (omega int_laws)
  | inr e ↦ rw e (omega int_laws)
]

pub signed_drift :
    (side : Side) (r t n a b d : ℤ)
    → n ≡ a
    → r -ℤ signed side (n -ℤ b) -ℤ signed side (t -ℤ a +ℤ d)
      ≡ r -ℤ signed side t +ℤ signed side (b -ℤ d)
unfolding signed
signed_drift side r t n a b d h = elim (Bool-cases (is_buy side)) [
  | inl e ↦ rw (h, e) (omega int_laws)
  | inr e ↦ rw (h, e) (omega int_laws)
]

pub no_drift : (side : Side) (r a : ℤ) → r +ℤ signed side (a -ℤ a) ≡ r
unfolding signed
no_drift side r a = elim (Bool-cases (is_buy side)) [
  | inl e ↦ rw e (omega int_laws)
  | inr e ↦ rw e (omega int_laws)
]

-- A slot is written and the tracker gives up `q`.
pub settle :
    (side : Side) (sb : SideBook) (tr : ReservedPositionTracker) (l : ℕ) (s : OrderSlot) (q : ℤ)
    → IsValid sb
    → l < slots_per_side
    → exposure (slot_at sb l) -ℤ exposure s ≡ q
    → tr.reserved_position
        -ℤ side_to_value side *ℤ q
        -ℤ signed side (total_exposure (set sb.slots l s))
      ≡ imbalance side sb tr
unfolding imbalance
settle side sb tr l s q v h e =
    let size = v.slots_size in
    rw (side_to_value-*ℤ, total_exposure-set sb.slots l s (omega arith), ← e)
      (signed_balance side tr.reserved_position (total_exposure sb.slots) (exposure (slot_at sb l))
        (exposure s))

-- A slot is written with the same exposure, and the tracker is left alone.
pub keep :
    (side : Side) (sb : SideBook) (tr : ReservedPositionTracker) (l : ℕ) (s : OrderSlot)
    → IsValid sb
    → l < slots_per_side
    → exposure (slot_at sb l) ≡ exposure s
    → tr.reserved_position -ℤ signed side (total_exposure (set sb.slots l s)) ≡ imbalance side sb tr
unfolding imbalance
keep side sb tr l s v h e =
    let size = v.slots_size in
    rw (total_exposure-set sb.slots l s (omega arith), e)
      (ap (λ t. tr.reserved_position -ℤ signed side t) (omega int_laws))
