-- ===== src/Lib.antt =====
-- The order management and the order book of a trading engine, in hft/: quotes of a strategy become
-- orders on the layers of a book, execution reports move the orders through their states, fills move
-- the position, and market data moves the book of the market with its best bid and offer.
--
-- The parts, and how they work together.
--
-- `OrderManager::apply` (hft/src/order_manager.hpp) takes the intents of a strategy. It asks
-- `QuoteReconciler::diff` (hft/src/quote_reconciler.h) for the new orders and the replacements that
-- lead from the book to the intents, lets `VenuePolicy::filter_by_venue` drop what comes too soon and
-- bring quantities within the venue's limits, lets `filter_by_risk` drop what the check of
-- hft/src/risk_manager.cpp refuses, and then writes the slots of the book, sends the requests,
-- reserves the quantities (hft/src/reserved_position_tracker.h) and registers the times to live
-- (hft/src/order_expiry_manager.h). `OrderManager::on_order_updated` hands each execution report to
-- `OrderStateManager` (hft/src/order_state_manager.cpp), which finds the slot and moves it on.
-- `PositionInfo` (hft/src/position_keeper.cpp) keeps the position, its cost and its profit, which the
-- check of risk reads.
--
-- The market comes in beside this: `MarketOrderBook::on_market_data_updated` (hft/src/order_book.hpp)
-- takes the entries of market data into the book of one instrument, keeps its best bid and offer, and
-- tells the trade engine, whose strategies make the intents.
--
-- Where each part is.
--
-- - Prelude: Boolean tests on the native numbers, lists with the default that a read out of range
--   gives, the first index that passes a test, signed integers, words as their bits, and
--   maps as association lists.
-- - Common.Types: hft/common/types.h and the states of hft/src/orders.h.
-- - Common.SpscQueue: hft/common/spsc_queue.h, the ring between two threads. Fifo is about one call
--   at a time; Threads has the two threads as state machines whose steps are the loads and stores,
--   and Order is about every interleaving of them. Acquire and release are read as: a store is seen
--   with the writes before it.
-- - Common.FixedPoint: hft/common/fixed_point.hpp, decimal texts as lists of bytes. Digits and Texts
--   are about reading what was written, Pairs about the writer that takes two digits at a time.
-- - Common.MemoryPool: hft/common/memory_pool.hpp, its free list packed in a head with a counter, and
--   the flags of its bins, one call at a time. Free is about one call, Calls about sequences of them.
-- - Core.OrderEntry: the enumerations of hft/core/order_entry.h and their texts.
-- - Core.MarketData: an entry of hft/core/market_data.h.
-- - Core.DomainConverter: what binance_future_domain_converter.hpp, in
--   hft/core/websocket/market_data/exchanges/binance/futures, makes of a snapshot.
-- - Trading.OrderBook: hft/src/order_book.hpp, the bucket based book, whose two sides are one text with
--   the direction of the search as an argument. The file itself has one side's buckets, bitmaps and
--   searches; Market has the configuration, the two sides with the BBO, and `on_market_data_updated`.
--   Find and Blocks are about searches in a word and over blocks, Best, Next and Walk about the best
--   level and the next one, Levels and Update about an update of one side, Recompute, Top and Wings
--   about the cached index and the BBO, Invariant and History about entries and sequences of them,
--   Depth and Refine about the quantity at each price, Pool and Stock about the pool of buckets, Peek
--   about `peek_levels`, Clear about kClear, SameConfig and Snapshot about snapshots.
-- - Trading.LayerBook: hft/src/layer_book.h. `SideBook` has the source's fields; `slot_at`, `tick_at`
--   and `pending_at` read an array. Search, Unmap and Books are about its searches, `unmap_layer` and
--   the four-way books.
-- - Trading.Tracker, Trading.Exposure: the reserved position, and what the slots account for.
-- - Trading.StateManager: a function per handler of hft/src/order_state_manager.cpp, and
--   `handle_execution_report`, on the side book of the report and the tracker. Effect takes the
--   handlers apart into the layer that they find and what they do there; Invariant, Frame, Settle and Balance
--   are about what they keep.
-- - Trading.Position: `add_fill` and `update_bbo`, in the steps of the source.
-- - Trading.Risk, Trading.Expiry: the check before a trade, and the queue of times to live.
-- - Trading.Reconciler: the actions, the venue's policy with `filter_by_venue`, and, in Diff, `diff`.
-- - Trading.OrderManager: the four loops of `apply` with one function per round, and, in Apply,
--   the filter by risk, `apply` and `on_order_updated`. Reach has the states that they lead to, and
--   Rounds is about what a round reserves, Update about what a report changes, Restore about a
--   replacement that is rejected.
-- - Tests: runs on concrete inputs.
--
-- How the code corresponds to the definitions. A mutable object is passed in and returned. An index
-- of -1 is `none`. `uint64_t` is ℕ with the wrap-around written out where the source can wrap
-- (differences of times, the tick of a price, the predecessor of an identifier); `int64_t` is an exact
-- integer, since overflow is undefined there; `string_to_fixed`, whose product overflows first, gives
-- `none` where it does. Division truncates toward zero, giving 0 for a zero
-- divisor, which traps in C++. Hash maps are association lists and the priority queue is a list in
-- order of time, with one of the orders of equal times that the heap leaves open. A side book that is
-- made when it is first read is the default one. `LayerBook::side_book` is read and written within the
-- bounds of its arrays, which `in_bounds` tests: `on_order_updated` gives `none` for a report with
-- another side or position side, where the source indexes out of bounds, and the other operations are
-- meant for intents, actions and keys in the queue with sides in use. A rejected replacement is read
-- again after its record has been reset: what such a read gives is `destroyed`, a field of
-- `OrderStateManager`, and a theorem that needs the old bytes says so. Times of the clock and the figures of risk are
-- arguments; the requests that are sent are a list in the state. The configuration, with the scale of
-- a tick, is a record that the operations take. Loops over a list are
-- recursion on it; the loop that overwrites an erased element with the last one runs on fuel, the
-- length of the list, since each round leaves one element fewer to look at.
--
-- The loops that write the digits of an integer run on fuel 64, the bytes of their buffer; a 64-bit
-- integer has at most 20.
--
-- In the order book, bitmaps and arrays are functions of the index, a 64-bit word is its bits, the
-- prices of the configuration are not negative, and of the pool of buckets only how many are left
-- counts. A null bucket that is written through, where the pool has none left, makes the result `none`;
-- one that a search reads through, or asserts away, makes it find nothing.
--
-- What is not modelled: of the order book, the flat variant, peek_qty and peek_levels_with_qty, and
-- trade_order; the market data's decoders and the recovery of snapshots, the strategies and features
-- on floating-point numbers, the encoders, decoders and transports, the queue of many producers, the
-- interleavings of the memory pool's loops and the threads between the components, configuration
-- files, and the printing and logging.
pub mod Prelude
pub mod Common
pub mod Core
pub mod Trading
pub mod Tests
