-- ===== src/Runtime.antt =====
-- include/runtime_state.h: the runtime state that the collectors fill.
use pg_circuit.Prelude.{ℤ, Bool}
use pg_circuit.Types.{SafetyMode}

pub data ReplicationHealth : Type 0 where
  none healthy lagging severe : ReplicationHealth

-- `PgCircuitRuntimeState`, over the type of doubles.
pub record RuntimeState (D : Type 0) : Type 0 where
  pub mode : SafetyMode
  pub active_connections : ℤ
  pub idle_connections : ℤ
  pub active_query_backends : ℤ
  pub max_connections : ℤ
  pub reserved_connections : ℤ
  pub connection_pressure_score : ℤ
  pub active_transactions : ℤ
  pub long_transactions : ℤ
  pub idle_in_transaction : ℤ
  pub oldest_transaction_age_seconds : D
  pub oldest_idle_in_transaction_age_seconds : D
  pub blocked_sessions : ℤ
  pub blocking_sessions : ℤ
  pub max_lock_wait_seconds : D
  pub lock_cycle_detected : Bool
  pub max_lock_chain_depth : ℤ
  pub max_lock_descendants : ℤ
  pub replica_count : ℤ
  pub max_replication_lag_seconds : D
  pub max_write_lag_seconds : D
  pub max_flush_lag_seconds : D
  pub max_replay_lag_seconds : D
  pub max_reply_lag_seconds : D
  pub replication_health : ReplicationHealth
  pub wal_bytes_per_sec : D
  pub wal_pressure_level : ℤ
  pub pressure_score : ℤ
  pub pressure_tx : ℤ
  pub pressure_locks : ℤ
  pub pressure_replication : ℤ
  pub pressure_wal : ℤ
  pub pressure_connections : ℤ
