-- ===== src/Risk.antt =====
-- services/risk: the gates that a trade passes before it is executed.
pub mod Types
pub mod Engine
pub mod Advanced
pub mod Approval
pub mod AdvancedApproval
pub mod Unified
pub mod UnifiedApproval
