-- ===== src/Tests/Texts.antt =====
-- The texts of order entry, on concrete values.
use hft.Prelude.{◌≡◌, ◌≢◌, ◌↔◌}
use hft.Core.OrderEntry.{
  filled, partially_filled, pending_cancel_status, status_to_string, to_order_status,
  status_round_trip, exec_trade, exec_replaced, exec_suspended, exec_expired, exec_to_string,
  to_type, exec_round_trip,
}

status_round_trip_example :
    (to_order_status (status_to_string filled) ≡ filled)
    ↔ ((filled ≢ partially_filled) × (filled ≢ pending_cancel_status))
status_round_trip_example = status_round_trip filled

exec_round_trip_example :
    (to_type (exec_to_string exec_trade) ≡ exec_trade)
    ↔ ((exec_trade ≢ exec_replaced) × (exec_trade ≢ exec_suspended) × (exec_trade ≢ exec_expired))
exec_round_trip_example = exec_round_trip exec_trade
