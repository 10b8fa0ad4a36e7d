-- ===== src/Tests/Reports.antt =====
-- Execution reports on concrete books.
use hft.Prelude.{[], ◌∷◌, replicate, ℕ, ◌≡◌, ◌≢◌, refl, none, some, arith, first_index, ◌⊎◌}
use hft.Prelude.Maps.{find}
use hft.Prelude.Int.{pos, ◌+ℤ◌, ◌-ℤ◌, ◌*ℤ◌, ◌/ℤ◌, to_u64}
use hft.Common.Types.{buy, cancel_reserved, side_to_value}
use hft.Trading.LayerBook.{
  PendingReplaceInfo, SideBook, IsValid, find_layer_by_id, find_layer_by_ticks, default_slot,
}
use hft.Trading.Tracker.{signed, to_ticks_raw, remove_partial_fill}
use hft.Trading.StateManager.{
  partially_filled, filled, rejected, handle_execution_report, find_layer, dispatch,
  handle_partially_filled, fill_slot, rejected_replace,
}
use hft.Trading.StateManager.Effect.{report_layer}
use hft.Trading.StateManager.Frame.{report_frame, phantom_reject, SameAt, Freed}
use hft.Trading.StateManager.Balance.{report_balanced, rejected_replace_drifts}
use hft.Trading.Exposure.{imbalance}
use hft.Tests.Data.{
  live_slot, dead_slot, zeroing_manager, manager, one_order, one_order-IsValid, tracker_of, report,
}

-- Three of five are left: the tracker gives up two.
partial_fill_reserves :
    (handle_execution_report manager
      (report 42 partially_filled 3 2 1000)
      (one_order, tracker_of 5)
      9).1.reserved_position
    ≡ pos 3
unfolding handle_execution_report dispatch handle_partially_filled fill_slot remove_partial_fill
    find_layer find_layer_by_id first_index ◌-ℤ◌ ◌*ℤ◌ side_to_value
partial_fill_reserves = refl

report_balanced_example :
    imbalance buy
      (handle_execution_report manager
        (report 42 partially_filled 3 2 1000)
        (one_order, tracker_of 5)
        9).0
      (handle_execution_report manager
        (report 42 partially_filled 3 2 1000)
        (one_order, tracker_of 5)
        9).1
    ≡ imbalance buy one_order (tracker_of 5)
unfolding report_layer find_layer find_layer_by_id first_index
report_balanced_example =
    report_balanced manager (report 42 partially_filled 3 2 1000) (one_order, tracker_of 5) 9 0
      one_order-IsValid refl refl (omega arith)

report_frame_example :
    ((report_layer manager (report 42 filled 0 5 1000) one_order ≡ none)
      × (handle_execution_report manager (report 42 filled 0 5 1000) (one_order, tracker_of 5) 9
          ≡ (one_order, tracker_of 5)))
    ⊎ ((l : ℕ) × (report_layer manager (report 42 filled 0 5 1000) one_order ≡ some l)
        × ((j : ℕ)
            → l ≢ j
            → SameAt j one_order
                (handle_execution_report manager
                  (report 42 filled 0 5 1000)
                  (one_order, tracker_of 5)
                  9).0))
report_frame_example = report_frame manager (report 42 filled 0 5 1000) (one_order, tracker_of 5) 9

-- The first layer of the book without a tick has a dead slot, whose quantity is released.
phantom_reject_example :
    ((handle_execution_report manager
        (report 77 rejected 0 0 0)
        (one_order, tracker_of 5)
        9).1.reserved_position
      ≡ pos 5 -ℤ side_to_value buy *ℤ pos 4)
    × Freed
        (handle_execution_report manager (report 77 rejected 0 0 0) (one_order, tracker_of 5) 9).0
        1
unfolding to_ticks_raw ◌/ℤ◌ to_u64 find find_layer_by_id find_layer_by_ticks first_index
phantom_reject_example =
    phantom_reject manager (report 77 rejected 0 0 0) (one_order, tracker_of 5) 9 1
      one_order-IsValid refl refl refl refl refl

abbrev pending : PendingReplaceInfo
pending = record {
  new_price = pos 1100;
  new_qty = pos 8;
  new_tick = 110;
  new_cl_order_id = 90;
  last_qty = pos 5;
  original_cl_order_id = 42;
  original_price = pos 1000;
  original_tick = 100;
}

-- The order of the layer is replaced, and the replacement is pending.
abbrev replacing : SideBook
replacing = record one_order {
  slots =
      record live_slot { state = cancel_reserved; qty = pos 8; cl_order_id = 90 }
      ∷ dead_slot
      ∷ replicate 6 default_slot;
  pending_repl = some pending ∷ replicate 7 none;
  new_id_to_layer = (90, 0) ∷ [];
}

replacing-IsValid : IsValid replacing
replacing-IsValid = record {
  slots_size = refl;
  ticks_size = refl;
  pending_size = refl;
  orig_in = ground arith;
  new_in = ground arith;
}

rejected_replace_drifts_example :
    imbalance buy
      (handle_execution_report zeroing_manager
        (report 90 rejected 0 0 0)
        (replacing, tracker_of 8)
        9).0
      (handle_execution_report zeroing_manager
        (report 90 rejected 0 0 0)
        (replacing, tracker_of 8)
        9).1
    ≡ imbalance buy replacing (tracker_of 8) +ℤ signed buy (pos 5 -ℤ pos 0)
unfolding rejected_replace find
rejected_replace_drifts_example =
    rejected_replace_drifts zeroing_manager (report 90 rejected 0 0 0) (replacing, tracker_of 8) 9 0
      pending replacing-IsValid refl refl (omega arith) refl refl
