-- ===== src/Common.antt =====
-- hft/common: the types, numbers and containers that the engine stands on.
pub mod Types
pub mod SpscQueue
pub mod FixedPoint
pub mod MemoryPool
