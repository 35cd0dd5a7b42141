-- ===== src/Pressure.antt =====
-- src/runtime_state.c and src/wal.c: the pressure on the server, as scores.
pub mod Bounds
pub mod Contributors
pub mod Listing
use pg_circuit.Prelude.{
  ℕ, ◌/◌, ◌==◌, ℤ, pos, negsuc, pos_part, ltb_ℤ, leb_ℤ, add_int, mul_int, sub_int, Bool, true,
  false, ◌&&◌, if◌then◌else◌, CString, codes,
}
use pg_circuit.Types.{SafetyMode}
use pg_circuit.Platform.{Float}
use pg_circuit.Config.{Config}
use pg_circuit.Runtime.{RuntimeState, ReplicationHealth}

-- `Min(a, b)`
unfoldable pub min_int : ℤ → ℤ → ℤ
min_int a b = if ltb_ℤ a b then a else b

-- `if (test) score += points`
unfoldable pub add_if : Bool → ℤ → ℤ → ℤ
add_if test points score = if test then add_int score points else score

-- The points for blocked and blocking sessions.
unfoldable pub session_points : ℤ → ℤ → ℤ
unfolding add_if min_int
session_points blocked blocking =
    add_if (ltb_ℤ (pos 0) blocking) (mul_int (min_int blocking (pos 5)) (pos 4)) (
      add_if (leb_ℤ (pos 20) blocked) (pos 25)
        (add_if (leb_ℤ (pos 5) blocked) (pos 15) (add_if (leb_ℤ (pos 1) blocked) (pos 8) (pos 0))))

-- The points for the shape of the blocker graph, on top of `score`.
unfoldable pub chain_points : ℤ → ℤ → ℤ → ℤ
chain_points depth descendants score =
    let score' =
      if leb_ℤ (pos 50) descendants
      then add_int score (pos 25)
      else if leb_ℤ (pos 20) descendants
      then add_int score (pos 15)
      else if leb_ℤ (pos 5) descendants
      then add_int score (pos 8)
      else if leb_ℤ (pos 2) descendants
      then add_int score (pos 4)
      else score in
    if leb_ℤ (pos 5) depth
    then add_int score' (pos 12)
    else if leb_ℤ (pos 3) depth
    then add_int score' (pos 8)
    else if leb_ℤ (pos 2) depth
    then add_int score' (pos 3)
    else score'

-- `usable` of `pg_circuit_pressure_score_connections`
unfoldable pub usable_connections : ℤ → ℤ → ℤ
usable_connections maximum reserved =
    let usable = sub_int maximum reserved in if ltb_ℤ usable (pos 1) then pos 1 else usable

module _ (F : Float) where
  open F use {Double, of_int, decimal, mul, div, le}

  -- `pg_circuit_pressure_score_transactions_ex`
  unfoldable pub pressure_score_transactions_ex : ℤ → ℤ → Double → ℤ → ℤ
  unfolding add_if
  pressure_score_transactions_ex long_transactions idle_in_transaction oldest limit =
      let score =
        add_if (ltb_ℤ (pos 0) idle_in_transaction) (mul_int idle_in_transaction (pos 6))
          (add_if (ltb_ℤ (pos 0) long_transactions) (mul_int long_transactions (pos 12)) (pos 0)) in
      if ltb_ℤ (pos 0) limit && le (mul (of_int limit) (decimal 2 1)) oldest
      then add_int score (pos 15)
      else if ltb_ℤ (pos 0) limit && le (of_int limit) oldest
      then add_int score (pos 5)
      else score

  -- `pg_circuit_pressure_score_transactions`
  unfoldable pub pressure_score_transactions : ℤ → ℤ → ℤ
  unfolding pressure_score_transactions_ex
  pressure_score_transactions long_transactions idle_in_transaction =
      pressure_score_transactions_ex long_transactions idle_in_transaction (decimal 0 1) (pos 0)

  -- `pg_circuit_pressure_score_locks_ex`
  unfoldable pub pressure_score_locks_ex : ℤ → ℤ → ℤ → ℤ → Double → ℤ
  unfolding session_points chain_points
  pressure_score_locks_ex blocked blocking depth descendants wait =
      let score = chain_points depth descendants (session_points blocked blocking) in
      if le (decimal 30 1) wait
      then add_int score (pos 8)
      else if le (decimal 5 1) wait
      then add_int score (pos 4)
      else score

  -- `pg_circuit_pressure_score_locks`
  unfoldable pub pressure_score_locks : ℤ → ℤ → ℤ
  unfolding pressure_score_locks_ex
  pressure_score_locks blocked blocking =
      pressure_score_locks_ex blocked blocking (pos 0) (pos 0) (decimal 0 1)

  -- `pg_circuit_pressure_score_replication`
  unfoldable pub pressure_score_replication : Double → ℤ → ℤ → ℤ
  pressure_score_replication lag warn critical =
      if le lag (of_int (pos 0))
      then pos 0
      else if ltb_ℤ (pos 0) critical && le (of_int critical) lag
      then pos 35
      else if ltb_ℤ (pos 0) warn && le (of_int warn) lag
      then pos 18
      else pos 0

  -- `pg_circuit_pressure_score_connections`. `usable / 2` is that of a positive number.
  unfoldable pub pressure_score_connections : ℤ → ℤ → ℤ → ℤ → ℤ → ℤ
  unfolding add_if min_int usable_connections
  pressure_score_connections used maximum reserved idle_in_transaction active =
      let usable = usable_connections maximum reserved in
      let ratio = div (of_int used) (of_int usable) in
      let score =
        if le (decimal 95 100) ratio
        then add_int (pos 0) (pos 25)
        else if le (decimal 85 100) ratio
        then add_int (pos 0) (pos 15)
        else if le (decimal 70 100) ratio
        then add_int (pos 0) (pos 8)
        else pos 0 in
      if leb_ℤ maximum (pos 0)
      then pos 0
      else add_if (ltb_ℤ (pos 0) active && leb_ℤ (pos (pos_part usable / 2)) active) (pos 5) (
          add_if (ltb_ℤ (pos 0) idle_in_transaction)
            (mul_int (min_int idle_in_transaction (pos 8)) (pos 2)) score)

  -- `pg_circuit_pressure_score_wal`
  unfoldable pub pressure_score_wal : Config → Double → ℤ
  pressure_score_wal c bytes_per_sec =
      if le (of_int c.wal_pressure_high_bps) bytes_per_sec
      then pos 30
      else if le (of_int c.wal_pressure_elevated_bps) bytes_per_sec
      then pos 15
      else pos 0

-- `pg_circuit_wal_pressure_name`, of `PGC_WAL_LOW` 0 to `PGC_WAL_CRITICAL` 3
unfoldable pub wal_pressure_name : ℤ → CString
wal_pressure_name (pos level) =
    if level == 3
    then codes "critical"
    else if level == 2
    then codes "elevated"
    else if level == 1
    then codes "normal"
    else codes "low"
wal_pressure_name (negsuc level) = codes "low"

-- `pg_circuit_pressure_score_combine5`
unfoldable pub pressure_score_combine5 : ℤ → ℤ → ℤ → ℤ → ℤ → ℤ
pressure_score_combine5 tx locks repl wal conn =
    let score = add_int (add_int (add_int (add_int tx locks) repl) wal) conn in
    if ltb_ℤ score (pos 0) then pos 0 else if ltb_ℤ (pos 100) score then pos 100 else score

-- `pg_circuit_pressure_score_combine`
unfoldable pub pressure_score_combine : ℤ → ℤ → ℤ → ℤ → ℤ
unfolding pressure_score_combine5
pressure_score_combine tx locks repl wal = pressure_score_combine5 tx locks repl wal (pos 0)

-- `pg_circuit_effective_risk_thresholds`
unfoldable pub effective_risk_thresholds : Config → ℤ × ℤ
effective_risk_thresholds c = (c.risk_warn_threshold, c.risk_block_threshold)

-- `pg_circuit_effective_lag_warn_seconds`
unfoldable pub effective_lag_warn_seconds : Config → ℤ
effective_lag_warn_seconds c = c.replication_lag_warning_seconds

-- `pg_circuit_effective_lag_critical_seconds`
unfoldable pub effective_lag_critical_seconds : Config → ℤ
effective_lag_critical_seconds c = c.replication_lag_critical_seconds

-- `pg_circuit_resolve_safety_mode`
unfoldable pub resolve_safety_mode : {D : Type 0} → Config → RuntimeState D → SafetyMode
resolve_safety_mode c state = SafetyMode.normal

module _ (F : Float) where
  open F use {Double}

  -- `pg_circuit_compute_pressure_and_mode`
  unfoldable pub compute_pressure_and_mode : Config → RuntimeState Double → RuntimeState Double
  unfolding effective_lag_warn_seconds effective_lag_critical_seconds resolve_safety_mode
  compute_pressure_and_mode c state =
      let tx =
        pressure_score_transactions_ex F state.long_transactions state.idle_in_transaction
          state.oldest_transaction_age_seconds c.long_transaction_seconds in
      let locks =
        pressure_score_locks_ex F state.blocked_sessions state.blocking_sessions
          state.max_lock_chain_depth state.max_lock_descendants state.max_lock_wait_seconds in
      let repl =
        pressure_score_replication F state.max_replication_lag_seconds
          (effective_lag_warn_seconds c) (effective_lag_critical_seconds c) in
      let wal = pressure_score_wal F c state.wal_bytes_per_sec in
      let conn =
        pressure_score_connections F state.active_connections state.max_connections
          state.reserved_connections state.idle_in_transaction state.active_query_backends in
      record state {
        pressure_tx = tx;
        pressure_locks = locks;
        pressure_replication = repl;
        pressure_wal = wal;
        pressure_connections = conn;
        connection_pressure_score = conn;
        pressure_score = pressure_score_combine5 tx locks repl wal conn;
        mode = resolve_safety_mode c state;
      }

-- `pg_circuit_replication_health_name`
unfoldable pub replication_health_name : ReplicationHealth → CString
replication_health_name ReplicationHealth.healthy = codes "healthy"
replication_health_name ReplicationHealth.lagging = codes "lagging"
replication_health_name ReplicationHealth.severe = codes "severely_lagging"
replication_health_name ReplicationHealth.none = codes "none"
