-- ===== src/Tests/Data.antt =====
-- The data of the tests.
use hft.Prelude.{ℕ, none, [], ◌∷◌, replicate, refl, arith}
use hft.Prelude.Int.{pos}
use hft.Common.Types.{buy, live, dead}
use hft.Trading.LayerBook.{OrderSlot, SideBook, IsValid, default_slot}
use hft.Trading.Tracker.{TickConverter, ReservedPositionTracker}
use hft.Trading.StateManager.{OrdStatus, ExecutionReport, OrderStateManager}

abbrev pub converter : TickConverter
converter = record { scale_int = pos 10 }

-- A reset leaves the bytes of the record, or zeros.
abbrev pub manager : OrderStateManager
manager = record { tick_converter = converter; destroyed = λ p. p }

abbrev pub zeroing_manager : OrderStateManager
zeroing_manager = record {
  tick_converter = converter;
  destroyed = λ p. record {
    new_price = pos 0;
    new_qty = pos 0;
    new_tick = 0;
    new_cl_order_id = 0;
    last_qty = pos 0;
    original_cl_order_id = 0;
    original_price = pos 0;
    original_tick = 0;
  };
}

abbrev pub live_slot : OrderSlot
live_slot = record { state = live; price = pos 1000; qty = pos 5; last_used = 7; cl_order_id = 42 }

abbrev pub dead_slot : OrderSlot
dead_slot = record { state = dead; price = pos 1010; qty = pos 4; last_used = 6; cl_order_id = 40 }

-- One live order on the first layer, none elsewhere.
abbrev pub one_order : SideBook
one_order = record {
  slots = live_slot ∷ dead_slot ∷ replicate 6 default_slot;
  layer_ticks = 100 ∷ replicate 7 0;
  pending_repl = replicate 8 none;
  orig_id_to_layer = (41, 0) ∷ (50, 1) ∷ [];
  new_id_to_layer = (42, 0) ∷ [];
}

pub one_order-IsValid : IsValid one_order
one_order-IsValid = record {
  slots_size = refl;
  ticks_size = refl;
  pending_size = refl;
  orig_in = ground arith;
  new_in = ground arith;
}

abbrev pub tracker_of : ℕ → ReservedPositionTracker
tracker_of n = record { reserved_position = pos n }

-- A report on a purchase.
abbrev pub report : ℕ → OrdStatus → ℕ → ℕ → ℕ → ExecutionReport
report id st leaves last price = record {
  cl_order_id = id;
  symbol = "BTC";
  ord_status = st;
  leaves_qty = pos leaves;
  last_qty = pos last;
  price = pos price;
  side = buy;
  position_side = none;
}
