-- ===== src/Core/MarketData.antt =====
-- hft/core/market_data.h and hft/common/types.h: the market data entry that the book consumes. The
-- ticker and the order id, which the book only passes on, are left out.
use hft.Prelude.Int.{ℤ}
use hft.Common.Types.{Side}

pub data MarketUpdateType : Type 0 where
  invalid_update clear add modify cancel trade_tick book_ticker : MarketUpdateType

pub record MarketData : Type 0 where
  pub update_type : MarketUpdateType
  pub side : Side
  pub price : ℤ
  pub qty : ℤ
