-- ===== src/Execution/Engine.antt =====
-- services/execution/execution_engine.py: ExecutionEngine, bound to a portfolio and to market data.
pub mod Records
pub mod Submission
pub mod Stops
pub mod Entry
pub mod Exit
pub mod Selling
pub mod Closing
