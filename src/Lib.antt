-- ===== src/Lib.antt =====
-- Apex Trader: a model of the parts of the trading system that decide whether money is at risk, and
-- how much. The program is a Python service: its components are objects with state in the process,
-- in Redis and in a database, and its functions are coroutines.
--
-- The parts and how they interact:
-- - The institutional control brain (services/icb) is asked before every action. It finds the state of
--   the system from its own health, the latch of the kill switch, the portfolio and the watchdog, and
--   sends the action through a chain of gates. Icb/SystemState models system_state.py, Icb/Types the
--   data of actions.py, decisions.py and signals.py, Icb/Authority `_authorize_inner`, Icb/Engine the
--   methods of `InstitutionalControlBrain`; Icb/Gates, Icb/Latch and Icb/Safety hold proofs.
-- - Strategy governance (services/governance) keeps a lifecycle state and counters for each strategy.
--   Governance/Models, Policy, Store and Engine model models.py with states.py, policy.py, store.py and
--   engine.py; Governance/Killed, Counters and Resolution hold proofs.
-- - The risk engines (services/risk) decide a proposed trade. Risk/Types and Risk/Engine model engine.py,
--   Risk/Advanced advanced.py, which adds its own conditions, and Risk/Unified unified.py, which asks the
--   governance first and validates the entry last; Risk/Approval, AdvancedApproval and UnifiedApproval
--   hold proofs.
-- - Position sizing (services/sizing/engine.py): Sizing/Engine models `compute`; Sizing/Bounds holds a
--   proof.
-- - The portfolio (services/portfolio) books fills and exits, and halts when the database fails; the risk
--   engines read its state through `to_risk_state`. Portfolio/Models and Manager model models.py and
--   manager.py; Portfolio/Halting and Exits hold proofs.
-- - Execution (services/execution). Execution/Engine models execution_engine.py: Records what it writes down
--   (with dead_letter.py), Submission the orders that go to the broker with their retries, Stops their
--   protective stops and `_submit_live`, Entry `place_order`, Exit and Selling `place_exit`, Closing
--   `eod_square_off`, the kill switch and the recovery.
--   Execution/Orders and World model the data and the interface of services/brokers/base.py and what the
--   engine shares with the other parts, Execution/Run the coroutines that read and change it, LiveGate
--   live_gate.py, Reconciliation reconciliation.py, Lifecycle lifecycle.py, CircuitBreaker
--   circuit_breaker.py, IdempotencyStore idempotency_store.py and Protection protection.py.
--   Execution/Rules puts together what holds of a coroutine from its steps; Stopping, Attaching,
--   Protecting, Blocked, Barred, Attempts, Exits, Withheld, Covered, Agreement, Flat, Watching, Pauses
--   and Claims hold proofs.
-- - The records of orders (services/trades): Trades/Repository models repository.py on a list of rows.
-- - The shadow engine (services/shadow) simulates fills and keeps its events in a file: Shadow/Engine models
--   engine.py, with the file beside the memory and writes that can fail, Shadow/History holds a proof.
-- - The go-live gate (services/golive): Golive/Gate models gate.py, Golive/Readiness holds a proof.
-- - Control (services/control): Control/PnlReset models pnl_reset.py, which sets the portfolio's counters
--   to zero at the start of a day, week or month, Control/Halt the flags of halt.py and
--   reconciliation_state.py, which the execution engine reads before an entry; Control/Resets and Status
--   hold proofs.
-- - Compliance (services/compliance/store.py): Compliance/Store models the event log and its chain of
--   digests; Compliance/Chain, Repair and Tampering hold proofs.
-- - Config has the settings of shared/config.py that these parts read, Cache the calls of Redis from
--   shared/events.py, and Base what the parts share. Tests applies the theorems to concrete inputs.
--
-- How the program is modelled. An object is a record, a method a function from the record to the record
-- and what it returns. What is not in the repository is a parameter: the arithmetic of floats is a type
-- with operations and no laws (Base/Floats), `str.upper` is a function (Base/CaseMap), Redis a state with
-- the calls that are made of it (Cache, Execution/IdempotencyStore), JSON and SHA-256 functions on events
-- and texts (Compliance/Store, Shadow/Engine). A theorem that relies on a law of these names it as a hypothesis. The
-- answers of clocks, of the database and of market data are arguments of the functions. Texts that are
-- formatted for a reader are constructors that carry the values printed, or are left out where only the
-- outcome counts. `none` stands for an exception where a function can raise one. The execution engine's
-- coroutines are state passing functions on one world, with an exception as a result that keeps what was changed before it; the
-- broker is a record of operations on a state of its own. All loops are structural recursions, so no
-- fuel is needed: the three attempts of a submission are counted down from the source's own bound.
--
-- Not modelled: HTTP handlers, broker and market data adapters, notifications, the database's tables,
-- strategies and indicators on pandas frames, backtests, audit logs and telemetry, which are input and
-- output around these parts or computations of libraries; the waits and locks of coroutines, so that a
-- method runs without another between its steps, the cancellation of a
-- task, and the time to live of Redis' keys other than the claims of order ids; and, so far, the checks before a trade, the autonomous
-- engine and the orchestrator, the evidence and checklist of the go-live gate, the other control utilities
-- and the paper broker.
pub mod Base
pub mod Config
pub mod Cache
pub mod Governance
pub mod Icb
pub mod Risk
pub mod Sizing
pub mod Portfolio
pub mod Compliance
pub mod Execution
pub mod Trades
pub mod Shadow
pub mod Golive
pub mod Control
mod Tests
