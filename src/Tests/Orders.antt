-- ===== src/Tests/Orders.antt =====
-- Quotes, orders and replacements on concrete books.
use mathlib.Core.List.{Perm, Sublist}
use hft.Prelude.{
  ℕ, ◌<◌, ◌≤◌, ◌*◌, ◌+◌, ◌≡◌, ◌≢◌, ◌↔◌, refl, inl, none, some, true, not, ◌&&◌, [], ◌∷◌, arith,
  first_index, filter_by,
}
use hft.Prelude.Int.{pos, negsuc, ◌+ℤ◌, ◌/ℤ◌, ◌≤ℤ◌, to_u64}
use hft.Prelude.Maps.{find}
use hft.Common.Types.{buy, sell, long, short}
use hft.Trading.LayerBook.{
  slots_per_side, plan_layer, find_layer_by_ticks, find_free_layer, unmap_layer, tick_at,
  pending_at, ticks_invalid, in_bounds, side_book, find_book, empty_side_book,
}
use hft.Trading.LayerBook.Search.{plan_layer-Planned, Planned}
use hft.Trading.LayerBook.Unmap.{unmap_layer_lem, except}
use hft.Trading.LayerBook.Books.{AllBooks}
use hft.Trading.Tracker.{signed, to_ticks_raw}
use hft.Trading.Exposure.{imbalance}
use hft.Trading.StateManager.{ExecutionReport, rejected}
use hft.Trading.Position.{flat}
use hft.Trading.Risk.{
  RiskInfo, projected, allowed, check_pre_trade_risk, check_pre_trade_risk-allowed,
}
use hft.Trading.Reconciler.{
  ActionNew, ActionReplace, Actions, VenuePolicy, venue_qty, erase_recent, too_recent,
}
use hft.Trading.Reconciler.Quantity.{Limits, venue_qty_bounds, venue_qty_above_most}
use hft.Trading.Reconciler.Erase.{erase_recent-perm, blocked}
use hft.Trading.Reconciler.Diff.{
  QuoteIntent, QuoteReconciler, no_actions, add_new, new_action, diff,
}
use hft.Trading.Reconciler.Diff.Sound.{diff_fits, ActionsFit}
use hft.Trading.OrderManager.{
  OrderManager, Config, clashes, place_new, process_new, process_new_orders, process_replace,
}
use hft.Trading.OrderManager.Apply.{apply, filter_by_risk, replace_delta}
use hft.Trading.OrderManager.Ticks.{start-DistinctTicks, apply-DistinctTicks, DistinctTicks}
use hft.Trading.Reconciler.Diff.Collide.{new_orders_collide}
use hft.Trading.OrderManager.Rounds.{
  new_book, replace_book, process_new_balanced, process_replace_balanced, colliding_order_orphaned,
}
use hft.Trading.OrderManager.RiskFilter.{filter_by_risk_lem, Within, after}
use hft.Tests.Data.{converter, manager, one_order, one_order-IsValid, tracker_of, report}

abbrev replacement : ActionReplace
replacement = record {
  layer = 0;
  price = pos 1100;
  qty = pos 8;
  side = buy;
  cl_order_id = 90;
  original_cl_order_id = 42;
  last_qty = pos 5;
  position_side = none;
}

abbrev new_at : ℕ → ℕ → ActionNew
new_at layer id = record {
  layer = layer;
  price = pos 1200;
  qty = pos 3;
  side = buy;
  cl_order_id = id;
  position_side = none;
}

-- At another tick than `new_at`, for the same layer.
abbrev new_at_tick : ℕ → ActionNew
new_at_tick tick = record (new_at 1 91) { price = pos (tick * 10) }

abbrev answer : ExecutionReport
answer = report 90 rejected 0 0 0

abbrev reconciler : QuoteReconciler
reconciler = record {
  min_replace_qty_delta = pos 1;
  min_replace_tick_delta = 1;
  tick_converter = converter;
}

abbrev pub config : Config
config = record {
  cancel_and_reorder = true;
  reconciler = reconciler;
  tick_converter = converter;
  state_manager = manager;
}

abbrev policy : VenuePolicy
policy = record {
  minimum_usdt = pos 10;
  minimum_qty = pos 2;
  maximum_qty = pos 100;
  minimum_time_gap = pos 50;
  qty_increment = pos 3;
  qty_scale = pos 1;
}

abbrev pub risk : RiskInfo
risk = record {
  position_info = flat;
  risk_cfg = record {
    max_order_size = pos 50;
    max_position = pos 60;
    min_position = negsuc 59;
    max_loss = negsuc 999;
  };
}

abbrev pub quote : ℕ → QuoteIntent
quote price = record {
  ticker = "BTC";
  side = buy;
  price = some (pos price);
  qty = pos 4;
  position_side = none;
}

abbrev pub no_orders : OrderManager
no_orders = record {
  layer_book = [];
  venue_policy = policy;
  position_tracker = tracker_of 0;
  expiry_manager = record { expiry_pq = []; ttl_reserved_ns = 100; ttl_live_ns = 200 };
  requests = [];
}

abbrev pub two_new : Actions
two_new = record {
  news = new_at 1 90 ∷ record (new_at 2 91) { qty = pos 1; position_side = some long } ∷ [];
  repls = replacement ∷ [];
  cancels = [];
}

apply-DistinctTicks_example :
    AllBooks DistinctTicks
      (apply config risk 60 61 (quote 1000 ∷ quote 1200 ∷ []) no_orders).0.layer_book
apply-DistinctTicks_example =
    apply-DistinctTicks config risk 60 61 (quote 1000 ∷ quote 1200 ∷ []) no_orders
      start-DistinctTicks

plan_layer-Planned_example :
    ((plan_layer one_order 120).layer < slots_per_side)
    × ((plan_layer one_order 120).tick ≡ 120)
    × Planned one_order 120 (plan_layer one_order 120)
plan_layer-Planned_example = plan_layer-Planned one_order 120

filter_by_risk_lem_example :
    Within risk
      (λ (a : ActionNew). a.side)
      (λ a. a.qty)
      (pos 58)
      (filter_by_risk risk (pos 58) two_new).news
    × Within risk
        (λ (a : ActionReplace). a.side)
        replace_delta
        (after risk
          (λ (a : ActionNew). a.side)
          (λ a. a.qty)
          (pos 58)
          (filter_by_risk risk (pos 58) two_new).news)
        (filter_by_risk risk (pos 58) two_new).repls
    × Sublist (filter_by_risk risk (pos 58) two_new).news two_new.news
    × Sublist (filter_by_risk risk (pos 58) two_new).repls two_new.repls
    × ((filter_by_risk risk (pos 58) two_new).cancels ≡ two_new.cancels)
filter_by_risk_lem_example = filter_by_risk_lem risk (pos 58) two_new

diff_fits_example :
    ActionsFit reconciler 60 [] "BTC" (diff reconciler 60 (quote 1000 ∷ quote 1200 ∷ []) [])
diff_fits_example = diff_fits reconciler 60 [] (quote 1000) (quote 1200 ∷ [])

-- The order of `one_order`, as a purchase of the ticker.
abbrev with_order : OrderManager
with_order = record no_orders {
  layer_book =
      (
        "BTC",
        record { sides = one_order ∷ empty_side_book ∷ [] }
            ∷ record { sides = empty_side_book ∷ empty_side_book ∷ [] }
            ∷ [],
      )
      ∷ [];
  position_tracker = tracker_of 5;
}

process_new_balanced_example :
    imbalance buy
      (new_book (process_new config "BTC" 60 (new_at 1 90) (with_order, [])).0 "BTC" (new_at 1 90))
      (process_new config "BTC" 60 (new_at 1 90) (with_order, [])).0.position_tracker
    ≡ imbalance buy (new_book with_order "BTC" (new_at 1 90)) (tracker_of 5)
unfolding in_bounds side_book find_book
process_new_balanced_example =
    process_new_balanced config "BTC" 60 (new_at 1 90) with_order [] refl one_order-IsValid
      (omega arith) refl

process_replace_balanced_example :
    imbalance buy
      (replace_book (process_replace config "BTC" 60 replacement with_order) "BTC" replacement)
      (process_replace config "BTC" 60 replacement with_order).position_tracker
    ≡ imbalance buy (replace_book with_order "BTC" replacement) (tracker_of 5)
unfolding in_bounds side_book find_book
process_replace_balanced_example =
    process_replace_balanced config "BTC" 60 replacement with_order refl one_order-IsValid
      (omega arith) refl refl

new_orders_collide_example :
    diff reconciler 60 (quote 1200 ∷ quote 1300 ∷ []) with_order.layer_book
    ≡ add_new
        (add_new no_actions (new_action reconciler 60 (quote 1200) (pos 1200) 1))
        (new_action reconciler 60 (quote 1300) (pos 1300) 1)
unfolding side_book find_book find_layer_by_ticks find_free_layer first_index to_ticks_raw ◌/ℤ◌
    to_u64
new_orders_collide_example =
    new_orders_collide reconciler 60 with_order.layer_book (quote 1200) (quote 1300) (pos 1200)
      (pos 1300) 1 (inl refl) refl refl refl refl refl refl refl refl refl refl

colliding_order_orphaned_example :
    imbalance buy
      (new_book
        (process_new_orders config "BTC" 60 (new_at 1 90 ∷ new_at_tick 130 ∷ []) (with_order, [])).0
        "BTC"
        (new_at 1 90))
      (process_new_orders config "BTC" 60
        (new_at 1 90 ∷ new_at_tick 130 ∷ [])
        (with_order, [])).0.position_tracker
    ≡ imbalance buy (new_book with_order "BTC" (new_at 1 90)) (tracker_of 5) +ℤ signed buy (pos 3)
unfolding in_bounds side_book find_book clashes place_new find_layer_by_ticks first_index
    to_ticks_raw ◌/ℤ◌ to_u64
colliding_order_orphaned_example =
    colliding_order_orphaned config "BTC" 60 (new_at 1 90) (new_at_tick 130) with_order [] refl
      one_order-IsValid (omega arith) refl refl refl refl refl refl

abbrev limits : Limits policy
limits = record {
  usdt = 10;
  least = 2;
  most = 100;
  inc = 3;
  scale = 1;
  usdt_eq = refl;
  least_eq = refl;
  most_eq = refl;
  inc_eq = refl;
  scale_eq = refl;
  inc_pos = omega arith;
  scale_pos = omega arith;
  ordered = omega arith;
}

venue_qty_bounds_example :
    (n : ℕ) × (venue_qty policy (pos 7) (pos 1) ≡ pos (n * 3)) × (2 ≤ n * 3) × (n * 3 < 100 + 3)
venue_qty_bounds_example = venue_qty_bounds policy limits 7 (pos 1) (omega arith)

venue_qty_above_most_example : (n : ℕ) × (venue_qty policy (pos 7) (pos 150) ≡ pos n) × (100 < n)
venue_qty_above_most_example =
    venue_qty_above_most policy limits 7 150 (omega arith) (omega arith) (λ n e. omega arith)

erase_recent-perm_example :
    Perm
      (erase_recent
        (λ (a : ActionNew). a.side)
        (λ a. a.position_side)
        policy
        60
        (50 ∷ 0 ∷ 0 ∷ 0 ∷ [])
        two_new.news)
      (filter_by
        (λ (a : ActionNew).
          not (
            blocked
              (λ (a : ActionNew). a.side)
              (λ a. a.position_side)
              (too_recent policy 60 50)
              buy
              long
              a)
          && (not (
                blocked
                  (λ (a : ActionNew). a.side)
                  (λ a. a.position_side)
                  (too_recent policy 60 0)
                  sell
                  long
                  a)
              && (not (
                    blocked
                      (λ (a : ActionNew). a.side)
                      (λ a. a.position_side)
                      (too_recent policy 60 0)
                      buy
                      short
                      a)
                  && not (
                      blocked
                        (λ (a : ActionNew). a.side)
                        (λ a. a.position_side)
                        (too_recent policy 60 0)
                        sell
                        short
                        a))))
        two_new.news)
erase_recent-perm_example =
    erase_recent-perm (λ (a : ActionNew). a.side) (λ a. a.position_side) policy 60
      (50 ∷ 0 ∷ 0 ∷ 0 ∷ []) two_new.news

unmap_layer_lem_example :
    (tick_at (unmap_layer one_order 0) 0 ≡ ticks_invalid)
    × (pending_at (unmap_layer one_order 0) 0 ≡ none)
    × ((k : ℕ)
        → find k (unmap_layer one_order 0).orig_id_to_layer
          ≡ except 0 (find k one_order.orig_id_to_layer))
    × ((k : ℕ)
        → find k (unmap_layer one_order 0).new_id_to_layer
          ≡ except 0 (find k one_order.new_id_to_layer))
    × ((unmap_layer one_order 0).slots ≡ one_order.slots)
    × ((j : ℕ)
        → 0 ≢ j
        → (tick_at (unmap_layer one_order 0) j ≡ tick_at one_order j)
          × (pending_at (unmap_layer one_order 0) j ≡ pending_at one_order j))
unfolding find
unmap_layer_lem_example =
    unmap_layer_lem one_order 0 one_order-IsValid ((refl, (refl, tt))) (refl, tt) (omega arith)

check_pre_trade_risk-allowed_example :
    (check_pre_trade_risk risk buy (pos 3) (pos 58) ≡ allowed) ↔ (
      (pos 3 ≤ℤ risk.risk_cfg.max_order_size)
      × (projected risk buy (pos 3) (pos 58) ≤ℤ risk.risk_cfg.max_position)
      × (risk.risk_cfg.min_position ≤ℤ projected risk buy (pos 3) (pos 58))
      × (risk.risk_cfg.max_loss ≤ℤ risk.position_info.total_pnl))
check_pre_trade_risk-allowed_example = check_pre_trade_risk-allowed risk buy (pos 3) (pos 58)
