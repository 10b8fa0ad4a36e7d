-- ===== src/Trading/Tracker.antt =====
-- hft/src/reserved_position_tracker.h, and the raw tick conversion of hft/src/quote_reconciler.h.
use hft.Prelude.{ℕ, ◌≡◌, if◌then◌else◌, arith}
use hft.Prelude.Int.{ℤ, pos, ◌+ℤ◌, ◌-ℤ◌, ◌*ℤ◌, ◌/ℤ◌, to_u64, one-*ℤ, minus_one-*ℤ}
use hft.Common.Types.{Side, is_buy, side_to_value}

pub record ReservedPositionTracker : Type 0 where
  pub reserved_position : ℤ

unfoldable pub add_reserved : ReservedPositionTracker → Side → ℤ → ReservedPositionTracker
add_reserved t side qty = record t {
  reserved_position = t.reserved_position +ℤ side_to_value side *ℤ qty;
}

unfoldable pub remove_reserved : ReservedPositionTracker → Side → ℤ → ReservedPositionTracker
remove_reserved t side qty = record t {
  reserved_position = t.reserved_position -ℤ side_to_value side *ℤ qty;
}

unfoldable pub remove_partial_fill : ReservedPositionTracker → Side → ℤ → ReservedPositionTracker
remove_partial_fill t side filled_qty = record t {
  reserved_position = t.reserved_position -ℤ side_to_value side *ℤ filled_qty;
}

unfoldable pub reset : ReservedPositionTracker → ReservedPositionTracker
reset t = record t { reserved_position = pos 0 }

-- `TickConverter`: of its fields `to_ticks_raw` reads only this one, which the constructor sets to
-- `kPriceScale / 10^digit`.
pub record TickConverter : Type 0 where
  pub scale_int : ℤ

unfoldable pub to_ticks_raw : TickConverter → ℤ → ℕ
to_ticks_raw tc price_raw = to_u64 (price_raw /ℤ tc.scale_int)

-- A quantity with the sign of its side.
unfoldable pub signed : Side → ℤ → ℤ
signed s q = if is_buy s then q else pos 0 -ℤ q

pub side_to_value-*ℤ : (s : Side) (q : ℤ) → side_to_value s *ℤ q ≡ signed s q
unfolding side_to_value signed
side_to_value-*ℤ s q = ground (arith, one-*ℤ q, minus_one-*ℤ q)
