-- ===== src/Lib.antt =====
-- Verification of the core of the trading-strategy validation platform: the gates, state
-- machines, ledgers and command paths that decide whether an order may be sent, how a strategy
-- loses and regains its permission to trade, and how research splits are kept free of leakage.
--
-- The program runs strategies ("legs") in a cycle. Risk events raise the escalation
-- (src/engine/engine_preemption.py), service levels drive the degradation mode
-- (src/engine/degradation_manager.py), and one gate at submission composes them
-- (src/engine/entry_authority.py). The capital of a cycle is shared by a ledger
-- (src/engine/reserved_capital_ledger.py), orders go out under deterministic ids and fills come
-- back into tracked positions (src/execution/idempotent_execution.py), operators act through a
-- command bus of two tables (src/control/command_queue.py), a watchdog halts entries when the
-- heartbeat is stale (src/control/heartbeat_watchdog.py), and pushes to people are throttled
-- and capped (src/alerts). The lifecycle of a leg moves through the states of
-- src/lifecycle/state_machine.py.
--
-- The modules, each of which opens with the source that it models:
--
-- - Common: lists, options, tests, texts, dictionaries with their keys, signed amounts and
--   methods that may raise, which the parts share.
-- - Lifecycle.StateMachine: the states of a leg, the legal transitions and their actors;
--   Moves and Histories hold the proofs.
-- - Lifecycle.HashChain: the chain of configuration hashes of src/lifecycle/hash_chain.py;
--   Lineage and Tampering hold the proofs.
-- - Lifecycle.DemotionMonitors: the monitors that demote a leg, from
--   src/lifecycle/demotion_monitors.py; Drift and Streaks hold the proofs.
-- - Engine.Escalation: the levels, `transition` and the queries of the risk escalation
--   engine; Latch is the preemption latch; Scope holds the proofs.
-- - Engine.Degradation: the degradation manager with its persisted row; Modes is
--   `evaluate_from_slo` with the changes of mode that it makes; Recovery, Restart and Flatten
--   hold the proofs.
-- - Engine.EntryAuthority: `entry_allowed` and its reasons; Precedence holds the proof.
-- - Engine.BarFreshness: the staleness of a bar, from src/engine/bar_freshness.py.
-- - Engine.SloMonitor: the grading of a leg's live feed, from src/engine/slo_monitor.py; Gaps
--   counts missing bars, Integrity is the verdict; Grades and Isolation hold the proofs.
-- - Engine.Flatten: the flatten cascade of src/engine/flatten_protocol.py; Portfolio and Leg
--   are its two entries; Attempts and Flags hold the proofs, over the lemmas of Calls and
--   Isolation.
-- - Engine.ColdStart: the gate of src/engine/cold_start_gate.py that a leg passes before it
--   may enter; Entries says whether a leg may enter and Progress moves it between the states;
--   Freshness, Scales and Clock hold the proofs.
-- - Engine.RiskGovernor: the governor of drawdowns and correlated sizes, from
--   src/engine/portfolio_risk_governor.py; Evaluate measures and clamps, Rehydrate serializes
--   and restores the state, Store is the table of
--   src/persistence/portfolio_risk_state_store.py between the two; HighWater, Sizing and
--   Restart hold the proofs, over the lemmas of Ids, Pairs, Alike and Reread.
-- - Engine.FillSieve: the fills that are pending after a submission, from
--   src/engine/broker_fill_sieve.py; Authority lets a leg follow the broker's positions, with
--   its part of src/engine/execution_adaptor.py, and Cycles tracks the bundles; Ending and
--   Memory hold the proofs, over the lemmas of Frames, Tracked and Drain.
-- - Engine.CapitalLedger: the reservations of a cycle; Budget and Cycle hold the proofs.
-- - Engine.Commissioning: the load decisions of the legs at boot, from
--   src/engine/commissioning_gate.py; Loads holds the proofs.
-- - Execution.Submission: the idempotent submitter over a broker interface; Storm holds the
--   proofs.
-- - Execution.Positions: the position tracker; Fills holds the proof.
-- - Execution.BootReconciliation: `reconcile_boot`; Agreement holds the proofs.
-- - Control.CommandQueue: the rows and the staging of commands; Claims is the claim on both
--   tables and the terminal marks, Retire the recovery and the expiry of commands; Fetch is
--   the merged fetch of pending commands and the claim of the emergency ones; Mirror forwards
--   the local rows to Supabase; Ops is a sequence of the bus's operations; Once, Poison,
--   Finished and Emergency hold the proofs, over the lemmas of Quiet, Spent and Potential.
-- - Control.Watchdog: one check of the heartbeat watchdog, on the escalation of
--   Engine.Escalation; Recovery holds the proofs.
-- - Alerts.OutboundCap and Alerts.Throttle: the shared cap on pushes and the backoff in front
--   of it; Windows is a sequence of whole calls on the cap and Overlap one of their separate
--   statements; Limits, Starvation and Pacing hold the proofs, over the lemmas of Loads.
-- - Core.RollingWindow: the window of closed bars with its ring buffers; Refinement holds the
--   proof, over the lemmas of Rings, Rewrites, Offsets and Columns.
-- - Core.MarketCalendar: the NYSE calendar of src/core/market_calendar.py; LastClose and
--   Reference hold the proofs.
-- - Persistence.PendingOrders: the table of staged orders of
--   src/persistence/governance_state_store.py; Stages and Prefixes hold the proofs.
-- - Research.PurgedWf: purged and embargoed walk-forward splits; Leakage and Loop hold the
--   proofs.
--
-- Modelling choices. Times are natural numbers in a fixed unit, in the order of the ISO texts
-- that the tables compare; a clock is an argument. Amounts and quantities that the source keeps
-- in floats are exact integers of a smallest unit, so rounding is not modelled. Texts whose
-- characters matter are lists of code points, with upper and lower case on ASCII. A method is a
-- function from state to state and an interleaving is a list of calls, where the source holds a
-- lock, runs in one process without awaiting, or acts in one statement of SQL. The cap on
-- pushes does none of these: its reads and its insert are separate steps that two processes may
-- interleave. Of the flatten protocol the flags are modelled under calls that arrive while
-- others await the broker, and what one cascade does to the broker and to the staged orders is
-- modelled alone; the methods of the fill sieve are taken one at a time. Log lines are left
-- out. A fault of a database or of the network is an argument of the operation that meets it.
-- The broker and SHA-256 are parameters, and so are the mean price of a position, the
-- correlation of two legs, the Sharpe ratio of a window and the quantile of the binomial
-- distribution. Fractions are compared by their numerators and denominators.
--
-- Fuel. Only the loop of the walk-forward splits runs on fuel, one more than the number of
-- bars, which a theorem of Research.PurgedWf.Loop shows to be enough for blocks of one bar or
-- more.
--
-- Not modelled: the configuration engine, the data ingestion, the backtest engines, the
-- portfolio optimisers, the broker adapter, the dashboard and the SQL migrations; of the
-- modelled files, the parsing of rows and the parts that only read or write logs.
pub mod Alerts
pub mod Common
pub mod Control
pub mod Core
pub mod Engine
pub mod Execution
pub mod Lifecycle
pub mod Persistence
pub mod Research
