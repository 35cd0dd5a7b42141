-- ===== src/Examples/Sql.antt =====
-- Inputs for src/runtime_state.c and src/pg_circuit.c: a server with a deadlock.
use pg_circuit.Prelude.{
  ℕ, zero, suc, ◌≡◌, ◌≢◌, ◌≤ℤ◌, ◌⊎◌, refl, ℤ, pos, pos_part, true, [], ◌∷◌, map, take, Option, none,
  some, CString, codes, arith,
}
use pg_circuit.Types.{QueryKind, SafetyMode}
use pg_circuit.Config.{defaults}
use pg_circuit.Reporting.{safety_mode_name}
use pg_circuit.Event.{query_kind_name}
use pg_circuit.Shmem.{SharedState, fresh_state, shmem_startup}
use pg_circuit.Shmem.Ring.Inv.{IsValid}
use pg_circuit.Shmem.Ring.Calls.{record_calls, log_calls, empty_log}
use pg_circuit.Hooks.{done, fault_is}
use pg_circuit.Blockers.Build.Pairs.{all_edges}
use pg_circuit.Collect.{Server, collect_runtime_state}
use pg_circuit.Collect.Sources.{Outcome, collect_runtime_state-Outcome}
use pg_circuit.Sql.Explain.{ExplainRow, explain_risk, explain_risk_ex}
use pg_circuit.Sql.Explain.Agree.{
  SameAnswer, explain_risk-explain_risk_ex, explain_risk-query_kind_name,
}
use pg_circuit.Prelude.{add_int, List, ◌∷◌}
use pg_circuit.Shmem.{SharedEvent}
use pg_circuit.Risk.Assess.{assess_query}
use pg_circuit.Hooks.Evaluate.{evaluate_and_apply}
use pg_circuit.Hooks.Evaluate.Appends.{Tells}
use pg_circuit.Collect.{zero_runtime}
use pg_circuit.Sql.Sets.Shown.{client, evaluate_and_apply-events}
use pg_circuit.Examples.Values.{statement, session}
use pg_circuit.Sql.Sets.{EventRow, event_row, events, blocker_row, blockers}
use pg_circuit.Sql.Sets.Drain.{Run}
use pg_circuit.Sql.Sets.Correct.{events-Run, blockers-Run}
use pg_circuit.Examples.Values.{whole, postgres, catalog, two_slots}
use pg_circuit.Examples.Ring.{two_slots-IsRegistered, four_calls}
use pg_circuit.Examples.Plans.{folding, folding-FoldsCase}
use pg_circuit.Examples.Locks.{manager, locks, built_edges, pids_of, Awaits-pids_of}

abbrev pub server : Server
server = record {
  my_pid = pos 42;
  transactions_now = pos 9000000;
  locks_now = pos 9000000;
  replication_now = pos 9000000;
  wal_now = pos 9000000;
  max_connections = pos 100;
  reserved_connections = pos 3;
  backends = [];
  manager = manager;
  lock_table = some locks;
  senders = some (
      record {
        pid = 77;
        reply_time = pos 8000000;
        write_lag = pos 1000000;
        flush_lag = pos 2000000;
        apply_lag = pos 12000000;
      }
      ∷ []);
  wal_bytes = some 5000;
  fault = none;
}

abbrev ring : SharedState ℤ
ring = fresh_state (pos 0) 2

ring-IsValid : IsValid ring
unfolding fresh_state
ring-IsValid = record {
  room = omega arith;
  small = omega arith;
  slots = refl;
  head_in = omega arith;
  count_in = omega arith;
}

collect_runtime_state-Outcome_example :
    Outcome whole catalog postgres defaults server locks ring
      (collect_runtime_state whole catalog postgres defaults server (some ring))
collect_runtime_state-Outcome_example =
    collect_runtime_state-Outcome whole catalog postgres defaults server locks (pids_of locks) refl
      (omega arith) (omega (arith, built_edges)) (omega arith) Awaits-pids_of ring ring-IsValid

-- A lag and lock waits change nothing.
explain_risk-explain_risk_ex_example :
    SameAnswer
      (explain_risk whole postgres defaults true
        (codes "reindex")
        (pos 300)
        (pos 40960)
        (codes "normal")
        (pos 0))
      (explain_risk_ex whole postgres defaults true
        (codes "reindex")
        (pos 300)
        (pos 40960)
        (codes "normal")
        (pos 90)
        (pos 3)
        (pos 1)
        (pos 60))
explain_risk-explain_risk_ex_example =
    explain_risk-explain_risk_ex whole defaults postgres true (codes "reindex") (pos 300)
      (pos 40960) (codes "normal") (pos 0) (pos 90) (pos 3) (pos 1) (pos 60)

explain_risk-query_kind_name_example :
    (r : ExplainRow) × (explain_risk whole folding defaults true
        (codes "Drop_Table")
        (pos 300)
        (pos 40960)
        (codes "Protect")
        (pos 0)
      ≡ done r)
    × (((QueryKind.drop_table ≡ QueryKind.other) × (r.score ≡ pos 0))
        ⊎ ((QueryKind.drop_table ≢ QueryKind.other) × (pos 15 ≤ℤ r.score) × (r.score ≤ℤ pos 100)))
unfolding query_kind_name safety_mode_name
explain_risk-query_kind_name_example =
    explain_risk-query_kind_name whole defaults folding (codes "Drop_Table") (codes "Protect")
      QueryKind.drop_table SafetyMode.protect (pos 300) (pos 40960) (pos 0) folding-FoldsCase refl
      refl

-- The ring is gone after the first call.
abbrev vanishing : ℕ → Option (SharedState ℤ)
vanishing zero = record_calls postgres four_calls (shmem_startup (pos 0) two_slots none)
vanishing (suc n) = none

events-Run_example :
    Run
      (λ k. events two_slots true (vanishing k))
      0
      none
      (map event_row (
        take
          (pos_part two_slots.event_history_size)
          (log_calls postgres four_calls empty_log).entries))
events-Run_example =
    events-Run postgres (pos 0) two_slots four_calls vanishing two_slots-IsRegistered refl

abbrev no_database : ℕ → Option CString
no_database oid = none

blockers-Run_example :
    Run
      (λ k. blockers whole catalog no_database true server)
      0
      none
      (map
        (blocker_row whole no_database)
        (take 256 (all_edges whole catalog manager (pos 9000000) [] (pos 42) locks locks)))
blockers-Run_example = blockers-Run whole catalog no_database (λ k. server) locks refl

-- DROP TABLE under the default configuration, which warns.
evaluate_and_apply-events_example :
    let q = statement QueryKind.drop_table in
    let b = client whole catalog postgres defaults server session none none in
    (slot : SharedEvent) × (rows : List EventRow) × Tells whole b q
      (assess_query whole defaults q (zero_runtime whole))
      slot
    × Run
        (λ k. events defaults true (evaluate_and_apply whole b q (some ring)).shared)
        0
        none
        (event_row slot ∷ rows)
unfolding assess_query add_int fault_is
evaluate_and_apply-events_example =
    let q = statement QueryKind.drop_table in
    let b = client whole catalog postgres defaults server session none none in
    evaluate_and_apply-events whole catalog postgres defaults server session none none q ring
      (λ k. (evaluate_and_apply whole b q (some ring)).shared) (cc) refl refl refl ring-IsValid (cc)
      refl
