-- ===== src/Control.antt =====
-- services/control: the resets of the profit counters, and the halt and reconciliation flags.
pub mod PnlReset
pub mod Resets
pub mod Halt
pub mod Status
