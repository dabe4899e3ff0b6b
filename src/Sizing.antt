-- ===== src/Sizing.antt =====
-- services/sizing: the quantity of a trade.
pub mod Engine
pub mod Bounds
