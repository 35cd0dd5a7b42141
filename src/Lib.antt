-- ===== src/Lib.antt =====
-- PG Circuit (Community): a PostgreSQL extension that scores risky statements before they run, and
-- warns about them or blocks them.
--
-- The parts and how they interact. The hooks (src/hooks.c) look at every utility statement and every
-- DELETE or UPDATE. An analysis (src/utility_analysis.c, src/query_analysis.c, with the catalog
-- lookups of src/relations.c) turns the statement into a QueryInfo; the pressure on the server
-- (src/runtime_state.c) is collected for display; the risk engine (src/risk_engine.c) scores the
-- statement and decides; the policy stub (src/policy_stub.c) passes the decision on; an event goes to
-- the ring in shared memory (src/event.c, src/shmem.c); and the circuit breaker
-- (src/circuit_breaker.c) warns or raises an error. The blocker graph (src/blocker_graph.c) looks for
-- deadlocks among waiting sessions and for long chains of waits; src/locks.c makes signals of it.
-- The functions of src/pg_circuit.c show the state, the events and the graph in SQL, and explain the
-- score of a statement.
--
-- Files:
--   Prelude and below: tests, lists, C integers that wrap (signed arithmetic is compiled with
--     -fwrapv), C strings without their final zero.
--   Types, Reporting: the enumerations and their names (include/pg_circuit.h, src/reporting.c).
--   Platform: parameters for the type double and for text functions of PostgreSQL.
--   Config: the settings, their defaults, registered ranges and option names (src/config.c);
--     Config.Register is their registration with PostgreSQL, and what PostgreSQL writes to them.
--   Runtime, Pressure: the runtime state and its scores (src/runtime_state.c, src/wal.c), and in
--     Pressure.Contributors and Pressure.Listing the list of its parts.
--   Transactions, Replication: the scans of the backends and of the WAL senders
--     (src/transactions.c, src/replication.c).
--   Risk: findings, scoring, decision, parsing (src/risk_engine.c). Risk.Decide and Risk.Score hold
--     proofs.
--   Policy, Event: src/policy_stub.c and src/event.c.
--   Shmem, Shmem.Ring: the shared state and the event ring (src/shmem.c); Inv, Refine, Calls and
--     Log hold the invariant, the view newest event first, and the unbounded log. Shmem.Wal is the
--     WAL sample.
--   Blockers: the numbering of process ids, Warshall's algorithm on a matrix of bits and the
--     deadlock search (graph_has_cycle of src/blocker_graph.c), with their proofs below.
--     Blockers.Chain is the search from the root blockers (compute_chain_severity), whose order by
--     depth is in Blockers.Chain.Layers, and Blockers.Build the construction of the graph
--     (pg_circuit_build_blocker_graph) from the lock table, whose tests are in Blockers.LockTable.
--   Locks: the lock signals (src/locks.c), and what they say of the lock table.
--   Relations, Utility, QueryAnalysis: src/relations.c, src/utility_analysis.c, src/query_analysis.c.
--     QueryAnalysis.Kinds is about the kinds of statements, QueryAnalysis.Bound and
--     QueryAnalysis.Rows about the rows.
--   Collect: the collection of the runtime state from all sources (src/wal.c, src/runtime_state.c).
--   Sql: the functions that SQL can call (src/pg_circuit.c): Sql.Explain the explanations, Sql.Rows the
--     functions of one row, Sql.Sets the set-returning ones, one call at a time; Sql.Sets.Shown follows a
--     statement from its check to the rows of pg_circuit_events.
--   System: the backends together on one segment, where the steps are checks, their two parts, rows of
--     Sql.Rows and start-ups, in any order. Each step names the recordings that it makes.
--   Load: loading and unloading the module, and its hooks for shared memory (src/pg_circuit.c,
--     src/shmem.c).
--   Breaker: src/circuit_breaker.c. Breaker.Groups and Breaker.Digits are about its numbers.
--   Hooks: src/hooks.c, where Hooks.Evaluate is the check, Hooks.Chain the installation, and Hooks.Handlers
--     the hooks with what they go on to. Below the check, Closed and Stopped are about its failures in enforce mode, from the hooks on.
--   Examples: concrete inputs and runs.
--
-- Conventions. A C function is a definition with the same name less its prefix pg_circuit_, in snake
-- case; what it writes through pointers is its result. Shared memory is a state that is passed on,
-- and the null pointer is none; each operation on it holds the lock of the segment throughout, so it
-- is one step. An error that is raised is a value of Verdict, Attempt or Option. Doubles, the
-- catalog, the lock manager, the entries of backends, locks and WAL senders, the clock,
-- pg_strcasecmp, MD5 and what PostgreSQL makes of the text of a setting are parameters. A check in
-- Hooks takes the collection of the runtime state as a parameter, for which Sql.Sets.Shown and
-- System put in that of Collect. Calls of a set-returning function each see the world of their own
-- time.
--
-- Bounds. The loop that brings a ring index into range takes as fuel its round number plus two, which
-- is enough for every valid ring. The deadlock search numbers up to 64 process ids and ignores an
-- edge that finds no room, as the code does. The search from a root has 64 rounds, one for each index
-- that can be in its queue, and each of them is in it once. The printing of a number n goes on for at
-- most n + 1 digits. No other loop needs fuel: they go over lists, or count down.
--
-- Not modelled: memory contexts and the allocation of memory (freeing a structure is emptying its
-- list), and the command line client in Go.
pub mod Prelude
pub mod Types
pub mod Platform
pub mod Config
pub mod Reporting
pub mod Runtime
pub mod Risk
pub mod Policy
pub mod Event
pub mod Shmem
pub mod Blockers
pub mod Relations
pub mod Utility
pub mod Breaker
pub mod QueryAnalysis
pub mod Hooks
pub mod Transactions
pub mod Replication
pub mod Locks
pub mod Pressure
pub mod Collect
pub mod Sql
pub mod System
pub mod Load
pub mod Examples
