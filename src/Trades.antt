-- ===== src/Trades.antt =====
-- services/trades: the persisted records of orders.
pub mod Repository
