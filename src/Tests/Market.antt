-- ===== src/Tests/Market.antt =====
-- Runs of the order book on concrete entries.
use hft.Prelude.{
  ℕ, ◌≡◌, refl, sym, ◌∙◌, true, Option, none, some, List, [], ◌∷◌, arith, ap, first_index,
  first_from, last_index,
}
use hft.Prelude.Int.{ℤ, pos}
use hft.Common.Types.{buy}
use hft.Core.MarketData.{MarketUpdateType, MarketData, add, modify, cancel}
use hft.Trading.OrderBook.{
  highest, is_valid, best_idx, update, update_bucket, search_best, find_in_bucket, level_of_word,
  order_in,
}
use hft.Trading.OrderBook.Recompute.{BestLevel, set_cached, best_idx-BestLevel}
use hft.Trading.OrderBook.Peek.{IsTopLevels, peek_levels-IsTopLevels}
use hft.Trading.OrderBook.Depth.{depth, spec_step, Agrees}
use hft.Trading.OrderBook.Refine.{on_market_data_updated-Agrees}
use hft.Trading.OrderBook.Invariant.{IsConfig, IsBook}
use hft.Trading.OrderBook.Stock.{IsStocked, Stocked, add_in-Succeeds, clear_wing-Stocked}
use hft.Trading.OrderBook.History.{
  on_all_updated-total, on_all_updated-IsBook, on_all_updated-Succeeds,
  on_market_data_updated-Succeeds, new_book-IsStocked,
}
use hft.Core.DomainConverter.{snapshot_entries}
use hft.Trading.OrderBook.Snapshot.{snapshot_entries-kept}
use hft.Trading.OrderBook.Clear.{clear_wing-add_in}
use hft.Trading.OrderBook.Market.{
  OrderBookConfig, from_ini, Quote, Wing, no_quote, MarketBook, new_book, Notice,
  on_market_data_updated, on_all_updated, peek_levels, add_in, clear_wing, apply_update, on_some,
  add_order, after_add, delete_order, delete_in, after_delete, recompute, price_of, qty_of,
}

-- Prices from 100 to 8291: 8192 levels in 2 buckets.
abbrev two_buckets : OrderBookConfig
two_buckets = record {
  min_price_int = 100;
  max_price_int = 8291;
  num_levels = 8192;
  bucket_count = 2;
  summary_words = 1;
  bucket_pool_size = 2;
}

two_buckets_config : from_ini 100 8291 ≡ two_buckets
unfolding from_ini
two_buckets_config = refl

two_buckets-IsConfig : IsConfig two_buckets
two_buckets-IsConfig = record { prices = omega arith; buckets = omega arith }

abbrev bid_entry : MarketUpdateType → ℕ → ℕ → MarketData
bid_entry t price qty = record { update_type = t; side = buy; price = pos price; qty = pos qty }

-- Two bids in different buckets, the better one taken away again, and one that is out of range.
abbrev entries : List MarketData
entries =
    bid_entry add 105 3 ∷ bid_entry modify 8000 2 ∷ bid_entry cancel 8000 0 ∷ bid_entry add 9 1 ∷ []

best_bid_after : Option MarketBook → Option Quote
best_bid_after none = none
best_bid_after (some b) = some b.bid.quote

entries_best_bid :
    best_bid_after (on_all_updated (new_book two_buckets) entries)
    ≡ some (record { price = pos 105; qty = pos 3 })
unfolding on_all_updated best_bid_after on_market_data_updated apply_update on_some add_order add_in
    update after_add update_bucket delete_order delete_in after_delete first_index first_from
    last_index recompute price_of qty_of best_idx search_best find_in_bucket level_of_word order_in
entries_best_bid = refl

-- The book that the entries lead to.
abbrev two_stocked : IsStocked (new_book two_buckets)
two_stocked = new_book-IsStocked two_buckets two_buckets-IsConfig (omega arith)

abbrev after_entries : MarketBook
after_entries = (on_all_updated-Succeeds (new_book two_buckets) entries two_stocked).0

abbrev entries_taken : on_all_updated (new_book two_buckets) entries ≡ some after_entries
entries_taken = (on_all_updated-Succeeds (new_book two_buckets) entries two_stocked).1

abbrev after_entries-IsStocked : IsStocked after_entries
after_entries-IsStocked = (on_all_updated-Succeeds (new_book two_buckets) entries two_stocked).2

after_entries-IsBook : IsBook after_entries
after_entries-IsBook =
    on_all_updated-IsBook two_buckets entries after_entries two_buckets-IsConfig
      (refl, (refl, (refl, (refl, record {})))) entries_taken

best_cached : Option MarketBook → Option ℕ
best_cached none = none
best_cached (some b) = b.bid.half.cached_best

entries-best_cached : best_cached (on_all_updated (new_book two_buckets) entries) ≡ some 5
unfolding on_all_updated best_cached on_market_data_updated apply_update on_some add_order add_in
    update after_add update_bucket delete_order delete_in after_delete first_index first_from
    last_index recompute price_of qty_of best_idx search_best find_in_bucket level_of_word order_in
entries-best_cached = refl

after_entries_cached : after_entries.bid.half.cached_best ≡ some 5
unfolding best_cached
after_entries_cached = sym (ap best_cached entries_taken) ∙ entries-best_cached

on_all_updated-total_example :
    (b : MarketBook) × (on_all_updated (new_book two_buckets) entries ≡ some b)
on_all_updated-total_example =
    on_all_updated-total two_buckets entries two_buckets-IsConfig (omega arith)

on_all_updated-IsBook_example : IsBook after_entries
on_all_updated-IsBook_example =
    on_all_updated-IsBook two_buckets entries after_entries two_buckets-IsConfig
      (refl, (refl, (refl, (refl, record {})))) entries_taken

abbrev next_entry : MarketData
next_entry = bid_entry add 103 1

abbrev after_next : MarketBook × Notice
after_next = (on_market_data_updated-Succeeds after_entries next_entry after_entries-IsStocked).0

on_market_data_updated-Agrees_example :
    Agrees after_entries.config
      (depth after_next.0)
      (spec_step after_entries.config (depth after_entries) next_entry)
on_market_data_updated-Agrees_example =
    on_market_data_updated-Agrees after_entries after_next.0 next_entry after_next.1
      after_entries-IsStocked.config after_entries-IsBook.bid.valid after_entries-IsBook.ask.valid
      (on_market_data_updated-Succeeds after_entries next_entry after_entries-IsStocked).1

best_idx-BestLevel_example :
    (o : Option ℕ) × (best_idx highest after_entries.bid.half after_entries.config.summary_words
      ≡ (o, set_cached after_entries.bid.half o))
    × BestLevel highest after_entries.config.summary_words after_entries.bid.half o
best_idx-BestLevel_example =
    best_idx-BestLevel highest after_entries.config.summary_words after_entries.bid.half
      after_entries-IsBook.bid.valid (λ k e on. after_entries-IsBook.bid.best.found k e)

peek_levels-IsTopLevels_example :
    IsTopLevels highest after_entries.bid.half after_entries.config.summary_words 3
      (peek_levels highest after_entries.bid.half after_entries.config.summary_words 3).0
peek_levels-IsTopLevels_example =
    peek_levels-IsTopLevels highest after_entries.bid.half after_entries.config.summary_words 3
      after_entries-IsBook.bid.valid (λ k e on. after_entries-IsBook.bid.best.found k e)

buckets_of : Option MarketBook → ℕ
buckets_of none = 0
buckets_of (some b) = b.config.bucket_count

entries_buckets : buckets_of (on_all_updated (new_book two_buckets) entries) ≡ 2
unfolding on_all_updated buckets_of on_market_data_updated apply_update on_some add_order add_in
    update after_add update_bucket delete_order delete_in after_delete first_index first_from
    last_index recompute price_of qty_of best_idx search_best find_in_bucket level_of_word order_in
entries_buckets = refl

after_entries_buckets : after_entries.config.bucket_count ≡ 2
unfolding buckets_of
after_entries_buckets = sym (ap buckets_of entries_taken) ∙ entries_buckets

-- After a clear, a bid one tick below the best one that there was.
abbrev cleared_bid : Wing
cleared_bid = clear_wing after_entries.config after_entries.bid

abbrev cleared_add :
    (w : Wing) × (add_in highest after_entries.config cleared_bid 4 (pos 1) ≡ some w)
    × Stocked after_entries.config w
cleared_add =
    add_in-Succeeds highest after_entries.config cleared_bid 4 (pos 1)
      (clear_wing-Stocked after_entries.config after_entries.bid after_entries-IsStocked.bid)
      after_entries-IsStocked.enough (let n = after_entries_buckets in omega arith)

clear_wing-add_in_example :
    (is_valid cleared_add.0.half 4 ≡ true) × (cleared_add.0.quote ≡ no_quote)
clear_wing-add_in_example =
    clear_wing-add_in highest after_entries.config after_entries.bid cleared_add.0 5 4 (pos 1)
      after_entries-IsBook.config after_entries-IsStocked.bid after_entries-IsBook.bid.valid
      after_entries_cached refl (omega arith) refl cleared_add.1

-- A snapshot that does not name the bid at 105.
abbrev other_bids : List (ℤ × ℤ)
other_bids = (pos 104, pos 7) ∷ (pos 103, pos 0) ∷ []

abbrev after_snapshot : MarketBook
after_snapshot =
    (on_all_updated-Succeeds after_entries (snapshot_entries other_bids [])
      after_entries-IsStocked).0

least_price_of : Option MarketBook → ℕ
least_price_of none = 0
least_price_of (some b) = b.config.min_price_int

entries_least : least_price_of (on_all_updated (new_book two_buckets) entries) ≡ 100
unfolding on_all_updated least_price_of on_market_data_updated apply_update on_some add_order add_in
    update after_add update_bucket delete_order delete_in
entries_least = refl

after_entries_least : after_entries.config.min_price_int ≡ 100
unfolding least_price_of
after_entries_least = sym (ap least_price_of entries_taken) ∙ entries_least

greatest_price_of : Option MarketBook → ℕ
greatest_price_of none = 0
greatest_price_of (some b) = b.config.max_price_int

entries_greatest : greatest_price_of (on_all_updated (new_book two_buckets) entries) ≡ 8291
unfolding on_all_updated greatest_price_of on_market_data_updated apply_update on_some add_order
    add_in update after_add update_bucket delete_order delete_in
entries_greatest = refl

after_entries_greatest : after_entries.config.max_price_int ≡ 8291
unfolding greatest_price_of
after_entries_greatest = sym (ap greatest_price_of entries_taken) ∙ entries_greatest

snapshot_entries-kept_example :
    IsBook after_snapshot × ((depth after_snapshot).bids 105 ≡ (depth after_entries).bids 105)
snapshot_entries-kept_example =
    snapshot_entries-kept after_entries after_snapshot other_bids [] 105 after_entries-IsBook
      (let n = after_entries_least in omega arith)
      (let n = after_entries_least in let g = after_entries_greatest in ground (arith, n, g))
      (refl, (refl, record {}))
      (on_all_updated-Succeeds after_entries (snapshot_entries other_bids [])
        after_entries-IsStocked).1
