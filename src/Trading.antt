-- ===== src/Trading.antt =====
-- hft/src: the trading components.
pub mod LayerBook
pub mod OrderBook
pub mod Tracker
pub mod StateManager
pub mod Exposure
pub mod Position
pub mod Risk
pub mod Expiry
pub mod Reconciler
pub mod OrderManager
