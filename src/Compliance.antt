-- ===== src/Compliance.antt =====
-- services/compliance: the append-only event store.
pub mod Store
pub mod Chain
pub mod Repair
pub mod Tampering
