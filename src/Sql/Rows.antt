-- ===== src/Sql/Rows.antt =====
-- src/pg_circuit.c: the functions that return one row.
use pg_circuit.Prelude.{
  ℕ, ℤ, pos, Bool, not, if◌then◌else◌, Option, none, some, CString, codes, fit, show_ℕ,
}
use pg_circuit.Platform.{Float, Postgres}
use pg_circuit.Config.{Config}
use pg_circuit.Reporting.{mode_name, runtime_cfg_name, safety_mode_name}
use pg_circuit.Runtime.{RuntimeState}
use pg_circuit.Shmem.{SharedState}
use pg_circuit.Relations.{Catalog}
use pg_circuit.Hooks.{Attempt, done, failed}
use pg_circuit.Pressure.{wal_pressure_name, replication_health_name}
use pg_circuit.Pressure.Contributors.{format_pressure_contributors}
use pg_circuit.Blockers.Build.{build_blocker_graph}
use pg_circuit.Collect.{Server, collect_runtime_state}
use pg_circuit.Sql.{not_a_row}

-- `pg_circuit_version`
abbrev pub version : CString
version = codes "0.1.0"

-- The columns of `pg_circuit_status`.
pub record StatusRow : Type 0 where
  pub extension_version : CString
  pub postgres_version : CString
  pub enabled : Bool
  pub mode : CString
  pub runtime_mode : CString
  pub current_mode : CString
  pub warn_threshold : ℤ
  pub block_threshold : ℤ

-- The columns of `pg_circuit_runtime_state`. The last lags are null where they are not known.
pub record RuntimeRow (D : Type 0) : Type 0 where
  pub current_mode : CString
  pub pressure_score : ℤ
  pub active_transactions : ℤ
  pub long_transactions : ℤ
  pub idle_in_transaction : ℤ
  pub blocked_sessions : ℤ
  pub blocking_sessions : ℤ
  pub max_replication_lag_seconds : D
  pub wal_pressure : CString
  pub wal_bytes_per_sec : D
  pub active_connections : ℤ
  pub connection_pressure_score : ℤ
  pub oldest_transaction_age_seconds : D
  pub max_lock_chain_depth : ℤ
  pub max_lock_descendants : ℤ
  pub replica_count : ℤ
  pub replication_health : CString
  pub max_write_lag_seconds : Option D
  pub max_flush_lag_seconds : Option D
  pub max_replay_lag_seconds : Option D
  pub pressure_tx : ℤ
  pub contributors : CString

-- The columns of `pg_circuit_lock_summary`.
pub record LockSummaryRow (D : Type 0) : Type 0 where
  pub blocked_sessions : ℕ
  pub blocking_sessions : ℕ
  pub max_blocked_for_seconds : D
  pub has_cycle : Bool
  pub max_chain_depth : ℕ
  pub max_descendant_count : ℕ

module _ (F : Float) where
  open F use {Double, of_int, lt}

  -- The row of `pg_circuit_status`; the number is `PG_VERSION_NUM`.
  unfoldable pub status_row : Config → ℕ → RuntimeState Double → StatusRow
  unfolding mode_name runtime_cfg_name safety_mode_name
  status_row c pg_version runtime = record {
    extension_version = version;
    postgres_version = fit 32 (show_ℕ pg_version);
    enabled = c.enabled;
    mode = mode_name c.mode;
    runtime_mode = runtime_cfg_name c.runtime_mode;
    current_mode = safety_mode_name runtime.mode;
    warn_threshold = c.risk_warn_threshold;
    block_threshold = c.risk_block_threshold;
  }

  -- A lag that is null if it is below 0.
  abbrev pub known_lag : Double → Option Double
  known_lag lag = if lt lag (of_int (pos 0)) then none else some lag

  -- The row of `pg_circuit_runtime_state`.
  unfoldable pub runtime_row : RuntimeState Double → RuntimeRow Double
  unfolding safety_mode_name wal_pressure_name replication_health_name
  runtime_row runtime = record {
    current_mode = safety_mode_name runtime.mode;
    pressure_score = runtime.pressure_score;
    active_transactions = runtime.active_transactions;
    long_transactions = runtime.long_transactions;
    idle_in_transaction = runtime.idle_in_transaction;
    blocked_sessions = runtime.blocked_sessions;
    blocking_sessions = runtime.blocking_sessions;
    max_replication_lag_seconds = runtime.max_replication_lag_seconds;
    wal_pressure = wal_pressure_name runtime.wal_pressure_level;
    wal_bytes_per_sec = runtime.wal_bytes_per_sec;
    active_connections = runtime.active_connections;
    connection_pressure_score = runtime.connection_pressure_score;
    oldest_transaction_age_seconds = runtime.oldest_transaction_age_seconds;
    max_lock_chain_depth = runtime.max_lock_chain_depth;
    max_lock_descendants = runtime.max_lock_descendants;
    replica_count = runtime.replica_count;
    replication_health = replication_health_name runtime.replication_health;
    max_write_lag_seconds = known_lag runtime.max_write_lag_seconds;
    max_flush_lag_seconds = known_lag runtime.max_flush_lag_seconds;
    max_replay_lag_seconds = known_lag runtime.max_replay_lag_seconds;
    pressure_tx = runtime.pressure_tx;
    contributors = format_pressure_contributors runtime;
  }

  module _ (C : Catalog Double) (p : Postgres) (c : Config) (srv : Server) where
    -- A function that makes its row of the runtime state; `is_row` is the answer of
    -- `get_call_result_type`.
    unfoldable pub with_runtime :
        {R : Type 0}
        → (RuntimeState Double → R)
        → Bool
        → Option (SharedState Double)
        → Option (SharedState Double) × Attempt R
    with_runtime row is_row shared =
        let (shared', state) = collect_runtime_state F C p c srv shared in
        if not is_row
        then (shared, failed not_a_row)
        else (shared', elim state [ done runtime ↦ done (row runtime) | failed e ↦ failed e ])

    -- `pg_circuit_status`
    unfoldable pub status :
        ℕ → Bool → Option (SharedState Double) → Option (SharedState Double) × Attempt StatusRow
    unfolding with_runtime status_row
    status pg_version = with_runtime (status_row c pg_version)

    -- `pg_circuit_runtime_state`
    unfoldable pub runtime_state :
        Bool
        → Option (SharedState Double)
        → Option (SharedState Double) × Attempt (RuntimeRow Double)
    unfolding with_runtime runtime_row
    runtime_state = with_runtime runtime_row

    -- `pg_circuit_lock_summary`
    unfoldable pub lock_summary : Bool → Attempt (LockSummaryRow Double)
    lock_summary is_row =
        let g =
          build_blocker_graph F C srv.manager srv.locks_now srv.backends srv.my_pid
            srv.lock_table in
        if not is_row
        then failed not_a_row
        else done (record {
          blocked_sessions = g.blocked_sessions;
          blocking_sessions = g.blocking_sessions;
          max_blocked_for_seconds = g.max_blocked_for_seconds;
          has_cycle = g.has_cycle;
          max_chain_depth = g.max_chain_depth;
          max_descendant_count = g.max_descendant_count;
        })
