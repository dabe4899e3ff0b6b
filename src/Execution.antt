-- ===== src/Execution.antt =====
-- services/execution: the parts of the execution engine and the engine.
pub mod CircuitBreaker
pub mod Pauses
pub mod IdempotencyStore
pub mod Claims
pub mod Protection
pub mod Orders
pub mod LiveGate
pub mod World
pub mod Run
pub mod Engine
pub mod Rules
pub mod Stopping
pub mod Attempts
pub mod Blocked
pub mod Barred
pub mod Attaching
pub mod Protecting
pub mod Exits
pub mod Withheld
pub mod Reconciliation
pub mod Covered
pub mod Agreement
pub mod Flat
pub mod Lifecycle
pub mod Watching
