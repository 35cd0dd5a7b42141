-- ===== src/Examples/Pressure.antt =====
-- Inputs for src/runtime_state.c.
use pg_circuit.Prelude.{
  List, ◌+◌, ◌*◌, ◌≡◌, refl, ℤ, pos, pos_part, min, arith, add_int, mul_int, sub_int,
}
use mathlib.Core.List.{Perm}
use pg_circuit.Types.{SafetyMode}
use pg_circuit.Config.{defaults}
use pg_circuit.Runtime.{RuntimeState}
use pg_circuit.Pressure.{
  compute_pressure_and_mode, pressure_score_transactions_ex, pressure_score_combine5,
  pressure_score_locks_ex, pressure_score_replication, pressure_score_wal,
  pressure_score_connections,
}
use pg_circuit.Pressure.Bounds.{UpTo, max_backends, compute_pressure_and_mode_lem}
use pg_circuit.Pressure.Contributors.{Part, format_pressure_contributors}
use pg_circuit.Pressure.Listing.{
  positive_parts, five_parts, lines_of, heading, IsRanked, format_pressure_contributors_lem,
}
use pg_circuit.Examples.Values.{whole, calm}

-- Two long transactions, three idle ones, a chain of six sessions and a lagging replica.
abbrev busy : RuntimeState ℤ
busy = record calm {
  long_transactions = pos 2;
  idle_in_transaction = pos 3;
  oldest_transaction_age_seconds = pos 700;
  blocked_sessions = pos 5;
  blocking_sessions = pos 1;
  max_lock_chain_depth = pos 5;
  max_lock_descendants = pos 5;
  max_lock_wait_seconds = pos 6;
  max_replication_lag_seconds = pos 12;
}

abbrev computed : RuntimeState ℤ
computed = compute_pressure_and_mode whole defaults busy

computed_run : (computed.pressure_tx ≡ pos 57) × (computed.pressure_score ≡ pos 100)
unfolding compute_pressure_and_mode pressure_score_transactions_ex add_int mul_int
    pressure_score_combine5 pressure_score_locks_ex pressure_score_replication pressure_score_wal
    pressure_score_connections sub_int
computed_run = (refl, refl)

compute_pressure_and_mode_lem_example :
    (computed.pressure_score
      ≡ pos (
          min
            (pos_part computed.pressure_tx
              + pos_part computed.pressure_locks
              + pos_part computed.pressure_replication
              + pos_part computed.pressure_wal
              + pos_part computed.pressure_connections)
            100))
    × UpTo (18 * max_backends + 15) computed.pressure_tx
    × UpTo 113 computed.pressure_locks
    × UpTo 35 computed.pressure_replication
    × UpTo 30 computed.pressure_wal
    × UpTo 46 computed.pressure_connections
    × (computed.mode ≡ SafetyMode.normal)
compute_pressure_and_mode_lem_example =
    compute_pressure_and_mode_lem whole defaults busy (omega arith) (omega arith)

format_pressure_contributors_lem_example :
    (listed : List Part) × (format_pressure_contributors computed
      ≡ heading computed (lines_of listed))
    × IsRanked listed
    × Perm listed (positive_parts (five_parts computed))
format_pressure_contributors_lem_example = format_pressure_contributors_lem computed
