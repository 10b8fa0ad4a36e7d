-- ===== src/Trading/Exposure.antt =====
-- The quantity that a side's slots have at the exchange, which the reserved position of
-- hft/src/reserved_position_tracker.h is meant to add up.
use hft.Prelude.{ℕ, zero, suc, ◌<◌, ◌≡◌, List, [], ◌∷◌, if◌then◌else◌, length, get_or, set, arith}
use hft.Prelude.Int.{ℤ, pos, ◌+ℤ◌, ◌-ℤ◌, int_laws}
use hft.Common.Types.{Side}
use hft.Trading.LayerBook.{OrderSlot, SideBook, default_slot, is_free}
use hft.Trading.Tracker.{ReservedPositionTracker, signed}

-- What one slot counts: its quantity, unless it holds no order.
abbrev pub exposure : OrderSlot → ℤ
exposure s = if is_free s.state then pos 0 else s.qty

pub total_exposure : List OrderSlot → ℤ
total_exposure [] = pos 0
total_exposure (s ∷ ss) = exposure s +ℤ total_exposure ss

-- The part of the reserved position that the slots of a side do not account for.
unfoldable pub imbalance : Side → SideBook → ReservedPositionTracker → ℤ
imbalance side sb tr = tr.reserved_position -ℤ signed side (total_exposure sb.slots)

pub total_exposure-set :
    (ss : List OrderSlot) (i : ℕ) (s : OrderSlot)
    → i < length ss
    → total_exposure (set ss i s)
      ≡ total_exposure ss -ℤ exposure (get_or ss i default_slot) +ℤ exposure s
unfolding total_exposure
total_exposure-set [] i s h = absurd (omega arith)
total_exposure-set (x ∷ ss) zero s h = omega int_laws
total_exposure-set (x ∷ ss) (suc i) s h =
    rw (total_exposure-set ss i s (omega arith)) (omega int_laws)
