-- ===== src/Core/DomainConverter.antt =====
-- hft/core/websocket/market_data/exchanges/binance/futures/binance_future_domain_converter.hpp: the
-- entries that a snapshot becomes. The pool that the entries come from is not exhausted.
use hft.Prelude.{if◌then◌else◌, List, [], ◌∷◌, ◌++◌}
use hft.Prelude.Int.{ℤ, pos, leb_ℤ}
use hft.Common.Types.{Side, buy, sell, invalid_side}
use hft.Core.MarketData.{MarketUpdateType, MarketData, clear, add, cancel}

unfoldable pub make_entry : Side → MarketUpdateType → ℤ × ℤ → MarketData
make_entry s t level = record {
  update_type = if leb_ℤ level.1 (pos 0) then cancel else t;
  side = s;
  price = level.0;
  qty = level.1;
}

-- The loop over the levels of one side.
unfoldable pub side_entries : Side → List (ℤ × ℤ) → List MarketData
side_entries s [] = []
side_entries s (l ∷ ls) = make_entry s add l ∷ side_entries s ls

abbrev pub clear_entry : MarketData
clear_entry = record { update_type = clear; side = invalid_side; price = pos 0; qty = pos 0 }

-- `MarketDataVisitor::operator()(const DepthSnapshot&)`
unfoldable pub snapshot_entries : List (ℤ × ℤ) → List (ℤ × ℤ) → List MarketData
snapshot_entries bids asks = clear_entry ∷ side_entries buy bids ++ side_entries sell asks
