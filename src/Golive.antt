-- ===== src/Golive.antt =====
-- services/golive: the gate before live trading.
pub mod Gate
pub mod Readiness
