-- ===== src/Hooks/Evaluate.antt =====
-- src/hooks.c: evaluate_and_apply, and the hooks that call it.
pub mod Filter
pub mod Outcomes
pub mod Stores
pub mod Appends
pub mod Recorded
pub mod Closed
pub mod Stopped
use pg_circuit.Prelude.{
  ℕ, Bool, true, false, not, ◌&&◌, ◌||◌, if◌then◌else◌, List, [], ◌∷◌, Option, none, some, CString,
  codes,
}
use pg_circuit.Types.{QueryKind}
use pg_circuit.Platform.{Float}
use pg_circuit.Runtime.{RuntimeState}
use pg_circuit.Risk.{QueryInfo}
use pg_circuit.Risk.Assess.{assess_query}
use pg_circuit.Policy.{policy_evaluate}
use pg_circuit.Event.{fill_risk_event}
use pg_circuit.Shmem.{SharedState}
use pg_circuit.Breaker.{
  SqlState, insufficient_privilege, internal_error, other_state, Report, Verdict, proceed, raise,
  apply_decision_ex,
}
use pg_circuit.Relations.{Catalog}
use pg_circuit.Utility.{Node}
use pg_circuit.Utility.Analyze.{analyze_utility}
use pg_circuit.QueryAnalysis.{CmdType, PlannedStmt, analyze_plannedstmt}
use pg_circuit.Hooks.{
  Attempt, done, failed, Backend, Checked, fault_is, should_skip_check, handle_internal_failure,
  utility_may_be_risky, persist_risk_event, debug_log_decision,
}

-- `PG_CATCH`: a privilege error is thrown again, any other is an internal failure.
unfoldable pub catch_error : {D : Type 0} → Backend D → Report → Verdict
catch_error b e = elim e.sqlstate [
  | insufficient_privilege ↦ raise e
  | _ ↦ handle_internal_failure b.config e
]

-- `elog(ERROR, "injected runtime-state failure")`
abbrev pub injected_failure : Report
injected_failure = record {
  sqlstate = internal_error;
  message = codes "injected runtime-state failure";
  detail = [];
  hint = [];
}

module _ (F : Float) where
  open F use {Double}

  -- The end of the `PG_TRY` block, from the lookup of the two names for the event on.
  unfoldable pub after_names :
      Backend Double
      → QueryInfo Double
      → RuntimeState Double
      → Option (SharedState Double)
      → Attempt (Option CString × Option CString)
      → Checked Double
  after_names b q runtime shared (failed e) = record {
    shared = shared;
    logged = [];
    verdict = catch_error b e;
  }
  after_names b q runtime shared (done names) =
      let a = assess_query F b.config q runtime in
      let policy = policy_evaluate q runtime a in
      let event = fill_risk_event b.session q runtime a (some policy) in
      record {
        shared = persist_risk_event F b event q a policy names shared;
        logged = debug_log_decision F b.config q runtime a;
        verdict = elim (apply_decision_ex F b.config a runtime q) [
          | proceed warnings ↦ proceed warnings
          | raise e ↦ catch_error b e
        ];
      }

  -- The `PG_TRY` block behind the collection of the runtime state.
  unfoldable pub after_collect :
      Backend Double
      → QueryInfo Double
      → Option (SharedState Double) × Attempt (RuntimeState Double)
      → Checked Double
  after_collect b q (shared, failed e) = record {
    shared = shared;
    logged = [];
    verdict = catch_error b e;
  }
  after_collect b q (shared, done runtime) = after_names b q runtime shared b.names

  -- The `PG_TRY` block of `evaluate_and_apply`.
  unfoldable pub guarded_check :
      Backend Double → QueryInfo Double → Option (SharedState Double) → Checked Double
  guarded_check b q shared =
      if fault_is b.postgres b.fault (codes "runtime")
      then record { shared = shared; logged = []; verdict = catch_error b injected_failure }
      else after_collect b q (b.collect shared)

  -- `evaluate_and_apply`
  unfoldable pub evaluate_and_apply :
      Backend Double → QueryInfo Double → Option (SharedState Double) → Checked Double
  evaluate_and_apply b q shared = elim q.kind [
    | QueryKind.other ↦ record { shared = shared; logged = []; verdict = proceed [] }
    | _ ↦ guarded_check b q shared
  ]

  module _ (C : Catalog Double) where
    -- `pg_circuit_process_utility` up to the call of the next hook, which is made unless an error
    -- is raised. `none` from the analysis is an error on a bad option.
    unfoldable pub process_utility :
        Backend Double → Option (Node C.RangeVar) → Option (SharedState Double) → Checked Double
    process_utility b node shared =
        if not (should_skip_check b) && utility_may_be_risky node
        then elim (analyze_utility F C b.is_autovacuum_worker node) [
          | none ↦ record {
            shared = shared;
            logged = [];
            verdict = raise (record {
              sqlstate = other_state;
              message = codes "option requires a Boolean value";
              detail = [];
              hint = [];
            });
          }
          | some q ↦ evaluate_and_apply b q shared
        ]
        else record { shared = shared; logged = []; verdict = proceed [] }

    -- `pg_circuit_executor_start` up to the call of the next hook. The first option is the query
    -- descriptor, the second its plan; the flag is `EXEC_FLAG_EXPLAIN_ONLY`.
    unfoldable pub executor_start :
        Backend Double
        → Option (Option (PlannedStmt Double))
        → Bool
        → Option (SharedState Double)
        → Checked Double
    executor_start b (some (some stmt)) explain_only shared =
        let writes : Bool = elim stmt.command [ CmdType.other_command ↦ false | _ ↦ true ] in
        if not (should_skip_check b) && (writes && not explain_only)
        then evaluate_and_apply b (analyze_plannedstmt F C (some stmt)) shared
        else record { shared = shared; logged = []; verdict = proceed [] }
    executor_start b desc explain_only shared = record {
      shared = shared;
      logged = [];
      verdict = proceed [];
    }
