-- ===== src/Examples/Runs.antt =====
-- Steps of several backends on one segment.
use pg_circuit.Prelude.{
  ℕ, ◌≡◌, ◌++◌, length, refl, ℤ, pos, false, true, [], ◌∷◌, Option, some, none, codes, arith, map,
  List, add_int, add_int64,
}
use pg_circuit.Types.{Mode, Decision}
use pg_circuit.Config.{defaults}
use pg_circuit.Shmem.{SharedState, shmem_startup}
use pg_circuit.Shmem.Ring.{event_snapshot, event_record}
use pg_circuit.Shmem.Ring.Calls.{Call, log_calls, empty_log}
use pg_circuit.Shmem.Ring.Log.{CountsDown}
use pg_circuit.Utility.{Node}
use pg_circuit.Hooks.{done, persist_risk_event, should_skip_check, utility_may_be_risky}
use pg_circuit.Collect.{collect_runtime_state, collect_sessions}
use pg_circuit.Replication.{collect_replication_signals}
use pg_circuit.Shmem.Wal.{wal_sample_update}
use pg_circuit.Event.{fill_risk_event}
use pg_circuit.Risk.Assess.{assess_query}
use pg_circuit.Utility.Analyze.{analyze_utility}
use pg_circuit.Hooks.Evaluate.{
  process_utility, evaluate_and_apply, guarded_check, after_collect, after_names,
}
use pg_circuit.Sql.Rows.{status, with_runtime}
use pg_circuit.System.{
  Agent, backend_of, utility, show_status, utility_calls, check_calls, guarded_calls,
  collected_calls, named_calls, Reaches, created, stepped,
}
use pg_circuit.System.Refine.{IsLogged, Reaches-IsLogged, Reaches-CountsDown}
use pg_circuit.Examples.Values.{whole, catalog, postgres, session, two_slots}
use pg_circuit.Examples.Ring.{two_slots-IsRegistered}
use pg_circuit.Examples.Sql.{server}

-- A backend in warn mode, and one in enforce mode.
abbrev warner : Agent
warner = record {
  config = defaults;
  server = server;
  session = session;
  is_parallel_worker = false;
  is_autovacuum_worker = false;
  names = done (some (codes "app"), none);
}

abbrev enforcer : Agent
enforcer = record warner { config = record defaults { mode = Mode.enforce } }

abbrev truncate_users : Node (List ℕ)
truncate_users = Node.truncate_stmt (codes "users" ∷ [])

abbrev first : Option (SharedState ℤ)
first = shmem_startup (pos 0) two_slots none

abbrev second : Option (SharedState ℤ)
second =
    (process_utility whole catalog (backend_of whole catalog postgres warner) (some truncate_users)
      first).shared

abbrev third : Option (SharedState ℤ)
third = (status whole catalog postgres enforcer.config enforcer.server 160000 true second).0

abbrev fourth : Option (SharedState ℤ)
fourth =
    (process_utility whole catalog (backend_of whole catalog postgres enforcer)
      (some truncate_users) third).shared

-- The recordings of the three steps.
abbrev recorded : List Call
recorded =
    (([] ++ utility_calls whole catalog postgres warner (some truncate_users) first) ++ [])
    ++ utility_calls whole catalog postgres enforcer (some truncate_users) third

steps : Reaches whole catalog postgres (pos 0) two_slots recorded fourth
steps =
    stepped
      (stepped (stepped created (utility warner (some truncate_users) first))
        (show_status enforcer 160000 true second))
      (utility enforcer (some truncate_users) third)

Reaches-IsLogged_example : IsLogged whole catalog postgres two_slots recorded fourth
Reaches-IsLogged_example =
    Reaches-IsLogged whole catalog postgres (pos 0) two_slots recorded fourth two_slots-IsRegistered
      steps

-- Two recordings are made.
recorded_run : length recorded ≡ 2
unfolding utility_calls check_calls guarded_calls collected_calls named_calls process_utility status
    shmem_startup evaluate_and_apply guarded_check after_collect after_names collect_runtime_state
    with_runtime persist_risk_event event_record should_skip_check utility_may_be_risky
    analyze_utility assess_query collect_sessions collect_replication_signals wal_sample_update
    fill_risk_event add_int add_int64
recorded_run = refl

Reaches-CountsDown_example :
    CountsDown (length (log_calls postgres recorded empty_log).entries) (event_snapshot fourth 64)
Reaches-CountsDown_example =
    Reaches-CountsDown whole catalog postgres (pos 0) two_slots recorded fourth 64
      two_slots-IsRegistered (omega (arith, recorded_run)) steps

-- The two statements are shown, the blocked one first.
shown_run :
    map {B = ℤ × Decision} (λ e. (e.event_id, e.decision)) (event_snapshot fourth 64)
    ≡ (pos 2, Decision.block) ∷ (pos 1, Decision.warn) ∷ []
unfolding process_utility status event_snapshot shmem_startup evaluate_and_apply guarded_check
    after_collect after_names collect_runtime_state with_runtime persist_risk_event event_record
    should_skip_check utility_may_be_risky analyze_utility assess_query collect_sessions
    collect_replication_signals wal_sample_update fill_risk_event add_int add_int64
shown_run = refl
