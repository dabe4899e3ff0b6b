-- ===== src/Tests.antt =====
-- Concrete inputs: the theorems applied to them, and runs of the models.
mod Samples
mod Governance
mod Icb
mod Risk
mod Portfolio
mod Compliance
mod Execution
mod Sizing
mod Unified
mod Control
mod Engine
mod Exits
mod Closing
mod Shadow
