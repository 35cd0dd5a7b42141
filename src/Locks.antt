-- ===== src/Locks.antt =====
-- src/locks.c: the signals for lock pressure, from the blocker graph.
pub mod Signals
use pg_circuit.Prelude.{ℤ, pos, false, List, Option}
use pg_circuit.Platform.{Float}
use pg_circuit.Relations.{Catalog}
use pg_circuit.Runtime.{RuntimeState}
use pg_circuit.Transactions.{BackendStatus}
use pg_circuit.Blockers.{Graph}
use pg_circuit.Blockers.LockTable.{LockInstance, LockManager}
use pg_circuit.Blockers.Build.{build_blocker_graph}

-- The assignments in front of the call.
abbrev pub clear_lock_signals : (F : Float) → RuntimeState F.Double → RuntimeState F.Double
clear_lock_signals F st = record st {
  blocked_sessions = pos 0;
  blocking_sessions = pos 0;
  max_lock_wait_seconds = F.decimal 0 1;
  lock_cycle_detected = false;
  max_lock_chain_depth = pos 0;
  max_lock_descendants = pos 0;
}

-- The assignments behind it.
abbrev pub copy_lock_signals : {D : Type 0} → Graph D → RuntimeState D → RuntimeState D
copy_lock_signals g st = record st {
  blocked_sessions = pos g.blocked_sessions;
  blocking_sessions = pos g.blocking_sessions;
  max_lock_wait_seconds = g.max_blocked_for_seconds;
  lock_cycle_detected = g.has_cycle;
  max_lock_chain_depth = pos g.max_chain_depth;
  max_lock_descendants = pos g.max_descendant_count;
}

-- `pg_circuit_collect_lock_signals`
unfoldable pub collect_lock_signals :
    (F : Float)
    → Catalog F.Double
    → LockManager
    → ℤ
    → List (Option BackendStatus)
    → ℤ
    → Option (List LockInstance)
    → RuntimeState F.Double
    → RuntimeState F.Double
collect_lock_signals F C M now backends my_pid locks st =
    copy_lock_signals (build_blocker_graph F C M now backends my_pid locks)
      (clear_lock_signals F st)
