-- ===== src/Core.antt =====
-- hft/core: the vocabulary of order entry and of market data.
pub mod DomainConverter
pub mod MarketData
pub mod OrderEntry
