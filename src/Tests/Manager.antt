-- ===== src/Tests/Manager.antt =====
-- The order manager over rounds of quotes and reports.
use hft.Prelude.{◌≡◌, refl, some, [], ◌∷◌, List}
use hft.Trading.StateManager.{ExecutionReport, filled}
use hft.Trading.OrderManager.{RequestCommon, OrderManager, process_new_orders}
use hft.Trading.OrderManager.Apply.{apply, on_order_updated}
use hft.Trading.OrderManager.Sound.{Sound}
use hft.Trading.OrderManager.Reach.{
  Reach, begin, next, applied, reported, Reach-Sound, report_taken, start-Sound,
}
use hft.Tests.Data.{report}
use hft.Trading.OrderManager.Requests.{Sent, new_orders-Sent}
use hft.Tests.Orders.{two_new, config, risk, quote, no_orders}

no_orders-Sound : Sound no_orders
no_orders-Sound = start-Sound no_orders refl tt

-- A round of two quotes, and a fill.
abbrev quoted : OrderManager
quoted = (apply config risk 60 61 (quote 1000 ∷ quote 1200 ∷ []) no_orders).0

abbrev fill_report : ExecutionReport
fill_report = report 61 filled 0 4 1000

begun : Reach config no_orders quoted
begun = next begin (applied risk 60 61 (quote 1000 ∷ quote 1200 ∷ []) (refl, (refl, tt)) tt)

-- The fill is taken.
taken : (n : OrderManager) × (on_order_updated config fill_report 70 quoted ≡ some n) × Sound n
taken = report_taken config no_orders quoted fill_report 70 no_orders-Sound begun refl

Reach-Sound_example : Sound taken.0
Reach-Sound_example =
    Reach-Sound config no_orders taken.0 no_orders-Sound
      (next begun (reported fill_report 70 taken.1))

new_orders-Sent_example :
    (rs : List RequestCommon) × Sent "BTC" no_orders []
      (process_new_orders config "BTC" 60 two_new.news (no_orders, []))
      rs
new_orders-Sent_example = new_orders-Sent config "BTC" 60 two_new.news no_orders []
