-- ===== src/Portfolio.antt =====
-- services/portfolio: the ledger of positions and money.
pub mod Models
pub mod Manager
pub mod Exits
pub mod Halting
