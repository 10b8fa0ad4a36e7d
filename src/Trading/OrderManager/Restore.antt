-- ===== src/Trading/OrderManager/Restore.antt =====
-- A replacement that the exchange rejects: hft/src/order_manager.hpp sends it,
-- hft/src/order_state_manager.cpp takes it back.
use hft.Prelude.{ℕ, ◌<◌, ◌≡◌, ◌≢◌, Bool, none}
use hft.Prelude.Int.{◌-ℤ◌}
use hft.Prelude.Maps.{find}
use hft.Trading.LayerBook.{SideBook, IsValid, slots_per_side, slot_at, tick_at, pending_at}
use hft.Trading.Tracker.{ReservedPositionTracker, add_reserved}
use hft.Trading.StateManager.{OrderStateManager, Managed}
use hft.Trading.StateManager.Frame.{SameAt}
use hft.Trading.Reconciler.{ActionReplace}
use hft.Trading.OrderManager.{OrderManager, place_replace}

-- The side book and the tracker are as before the replacement, except for the time of use.
pub record Restored (id l now : ℕ) (before after : Managed) : Type 0 where
  pub slot : slot_at after.0 l ≡ record (slot_at before.0 l) { last_used = now }
  pub tick : tick_at after.0 l ≡ tick_at before.0 l
  pub pending : pending_at after.0 l ≡ none
  pub answered : find id after.0.new_id_to_layer ≡ none
  pub tracker : after.1.reserved_position ≡ before.1.reserved_position
  pub others : (j : ℕ) → l ≢ j → SameAt j before.0 after.0

module _ (osm : OrderStateManager) (car : Bool) (sb : SideBook) (tr : ReservedPositionTracker)
    (a : ActionReplace) (tick now : ℕ) (v : IsValid sb) (h : a.layer < slots_per_side) where
  replaced_book : SideBook
  replaced_book = place_replace car sb a tick now

  charged : ReservedPositionTracker
  charged = add_reserved tr a.side (a.qty -ℤ a.last_qty)
