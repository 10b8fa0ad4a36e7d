-- ===== src/Tests/Accounts.antt =====
-- Positions and expiries on concrete inputs.
use hft.Prelude.{◌≡◌, ℕ, refl, inl, none, [], ◌∷◌, arith}
use hft.Prelude.Int.{pos, ◌+ℤ◌, ◌-ℤ◌, ◌*ℤ◌, ◌/ℤ◌, abs}
use hft.Common.Types.{buy, sell, side_to_value}
use hft.Trading.StateManager.{ExecutionReport, filled}
use hft.Trading.Position.{flat, add_fill, fill_hedge, fill_net, mark_net, mark_hedge, realise}
use hft.Trading.Position.Accounts.{Accounts, flat-Accounts, add_fill-Accounts}
use hft.Trading.Expiry.{ExpiryKey, OrderExpiryManager, sweep_expired}
use hft.Trading.Expiry.Sweep.{IsSorted, Swept, sweep_expired_lem}
use hft.Tests.Data.{report}

abbrev purchase : ExecutionReport
purchase = report 42 filled 0 5 100

abbrev sale : ExecutionReport
sale = record (report 43 filled 0 5 120) { side = sell }

add_fill-Accounts_example : Accounts (add_fill flat purchase)
add_fill-Accounts_example =
    add_fill-Accounts flat purchase flat-Accounts
      (record { quantity = omega arith; sided = inl refl })

purchase-Accounts : Accounts (add_fill flat purchase)
purchase-Accounts =
    add_fill-Accounts flat purchase flat-Accounts
      (record { quantity = omega arith; sided = inl refl })

abbrev key : ℕ → ℕ → ExpiryKey
key ts id = record {
  expire_ts = ts;
  symbol = "BTC";
  side = buy;
  position_side = none;
  layer = 0;
  cl_order_id = id;
}

abbrev queue : OrderExpiryManager
queue = record { expiry_pq = key 20 1 ∷ key 30 2 ∷ []; ttl_reserved_ns = 100; ttl_live_ns = 200 }

queue-IsSorted : IsSorted queue.expiry_pq
queue-IsSorted = ground arith

sweep_expired_lem_example :
    Swept 25 queue.expiry_pq ((sweep_expired queue 25).0, (sweep_expired queue 25).1.expiry_pq)
sweep_expired_lem_example = sweep_expired_lem queue 25 queue-IsSorted

-- Five bought at 100 and sold at 120 realise 100, and nothing is left open.
bought_and_sold :
    ((add_fill (add_fill flat purchase) sale).real_pnl ≡ pos 100)
    × ((add_fill (add_fill flat purchase) sale).position ≡ pos 0)
    × ((add_fill (add_fill flat purchase) sale).open_vwap_buy ≡ pos 0)
unfolding add_fill fill_hedge fill_net mark_net mark_hedge realise ◌+ℤ◌ ◌-ℤ◌ ◌*ℤ◌ ◌/ℤ◌ abs
    side_to_value
bought_and_sold = (refl, refl, refl)
