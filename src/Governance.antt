-- ===== src/Governance.antt =====
-- services/governance: which strategies may trade.
pub mod Models
pub mod Policy
pub mod Store
pub mod Engine
pub mod Killed
pub mod Counters
pub mod Resolution
