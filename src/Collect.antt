-- ===== src/Collect.antt =====
-- src/wal.c and src/runtime_state.c: the collection of the runtime state, from all its sources.
pub mod Frame
pub mod Sources
use pg_circuit.Prelude.{ℕ, ℤ, pos, negsuc, false, List, Option, none, some, CString, codes}
use pg_circuit.Types.{SafetyMode}
use pg_circuit.Platform.{Float, Postgres}
use pg_circuit.Config.{Config}
use pg_circuit.Runtime.{RuntimeState, ReplicationHealth}
use pg_circuit.Shmem.{SharedState}
use pg_circuit.Shmem.Wal.{wal_sample_update}
use pg_circuit.Relations.{Catalog}
use pg_circuit.Hooks.{Attempt, done, failed, fault_is}
use pg_circuit.Transactions.{BackendStatus, collect_transaction_signals}
use pg_circuit.Blockers.LockTable.{LockInstance, LockManager}
use pg_circuit.Locks.{collect_lock_signals}
use pg_circuit.Replication.{WalSender, collect_replication_signals}
use pg_circuit.Pressure.{compute_pressure_and_mode}

-- What the collectors read from PostgreSQL. Each collector asks for the time by itself. The lock
-- table, the WAL senders and the WAL statistics may be missing.
pub record Server : Type 0 where
  pub my_pid : ℤ
  pub transactions_now : ℤ
  pub locks_now : ℤ
  pub replication_now : ℤ
  pub wal_now : ℤ
  pub max_connections : ℤ
  pub reserved_connections : ℤ
  pub backends : List (Option BackendStatus)
  pub manager : LockManager
  pub lock_table : Option (List LockInstance)
  pub senders : Option (List WalSender)
  pub wal_bytes : Option ℕ
  -- `pg_circuit_fault`; `none` in a build without fault injection
  pub fault : Option CString

module _ (F : Float) where
  open F use {Double, of_int, decimal}

  -- `pg_circuit_collect_wal_signals`; `none` is a null pointer to the statistics.
  unfoldable pub collect_wal_signals :
      Config
      → Option ℕ
      → ℤ
      → Option (SharedState Double)
      → RuntimeState Double
      → Option (SharedState Double) × RuntimeState Double
  collect_wal_signals c none now shared st =
      (shared, record st { wal_bytes_per_sec = decimal 0 1; wal_pressure_level = pos 0 })
  collect_wal_signals c (some wal_bytes) now shared st =
      let (shared', bps, level) = wal_sample_update F c wal_bytes now shared in
      (shared', record st { wal_bytes_per_sec = bps; wal_pressure_level = level })

  -- `MemSet(state, 0, sizeof(*state))`
  abbrev pub zero_runtime : RuntimeState Double
  zero_runtime = record {
    mode = SafetyMode.normal;
    active_connections = pos 0;
    idle_connections = pos 0;
    active_query_backends = pos 0;
    max_connections = pos 0;
    reserved_connections = pos 0;
    connection_pressure_score = pos 0;
    active_transactions = pos 0;
    long_transactions = pos 0;
    idle_in_transaction = pos 0;
    oldest_transaction_age_seconds = decimal 0 1;
    oldest_idle_in_transaction_age_seconds = decimal 0 1;
    blocked_sessions = pos 0;
    blocking_sessions = pos 0;
    max_lock_wait_seconds = decimal 0 1;
    lock_cycle_detected = false;
    max_lock_chain_depth = pos 0;
    max_lock_descendants = pos 0;
    replica_count = pos 0;
    max_replication_lag_seconds = decimal 0 1;
    max_write_lag_seconds = decimal 0 1;
    max_flush_lag_seconds = decimal 0 1;
    max_replay_lag_seconds = decimal 0 1;
    max_reply_lag_seconds = decimal 0 1;
    replication_health = ReplicationHealth.none;
    wal_bytes_per_sec = decimal 0 1;
    wal_pressure_level = pos 0;
    pressure_score = pos 0;
    pressure_tx = pos 0;
    pressure_locks = pos 0;
    pressure_replication = pos 0;
    pressure_wal = pos 0;
    pressure_connections = pos 0;
  }

  -- The state before the collectors: the lags are unknown.
  abbrev pub unknown_lags : RuntimeState Double
  unknown_lags = record zero_runtime {
    max_write_lag_seconds = of_int (negsuc 0);
    max_flush_lag_seconds = of_int (negsuc 0);
    max_replay_lag_seconds = of_int (negsuc 0);
  }

  module _ (C : Catalog Double) (p : Postgres) (c : Config) (srv : Server) where
    -- The collectors up to the one that may raise.
    unfoldable pub collect_sessions : Attempt (RuntimeState Double)
    collect_sessions =
        let tx =
          collect_transaction_signals F c srv.transactions_now srv.my_pid srv.max_connections
            srv.reserved_connections srv.backends unknown_lags in
        let locks =
          collect_lock_signals F C srv.manager srv.locks_now srv.backends srv.my_pid srv.lock_table
            tx in
        collect_replication_signals F c (fault_is p srv.fault (codes "replication"))
          srv.replication_now srv.senders locks

    -- The collectors behind it.
    unfoldable pub collect_rest :
        Option (SharedState Double)
        → Attempt (RuntimeState Double)
        → Option (SharedState Double) × Attempt (RuntimeState Double)
    unfolding collect_wal_signals
    collect_rest shared (failed e) = (shared, failed e)
    collect_rest shared (done st) =
        let (shared', st') = collect_wal_signals c srv.wal_bytes srv.wal_now shared st in
        (shared', done (compute_pressure_and_mode F c st'))

    -- `pg_circuit_collect_runtime_state`
    unfoldable pub collect_runtime_state :
        Option (SharedState Double) → Option (SharedState Double) × Attempt (RuntimeState Double)
    unfolding collect_rest
    collect_runtime_state shared = collect_rest shared collect_sessions
