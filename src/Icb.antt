-- ===== src/Icb.antt =====
-- services/icb: the control brain, the authority on what the system may do.
pub mod SystemState
pub mod Types
pub mod Authority
pub mod Engine
pub mod Gates
pub mod Latch
pub mod Safety
