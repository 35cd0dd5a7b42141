-- ===== src/Hooks.antt =====
-- src/hooks.c: the check around a statement, its failure handling, and the hook chain.
pub mod Evaluate
pub mod Chain
pub mod Handlers
use pg_circuit.Prelude.{
  ℕ, Bool, true, false, not, ◌&&◌, ◌||◌, if◌then◌else◌, List, [], ◌∷◌, ◌++◌, Option, none, some,
  CString, codes, is_empty, str_eq, show_ℕ, show_ℤ,
}
use pg_circuit.Types.{Mode, Decision, QueryKind, kind_number}
use pg_circuit.Platform.{Float, Postgres}
use pg_circuit.Config.{Config}
use pg_circuit.Reporting.{decision_name, safety_mode_name}
use pg_circuit.Runtime.{RuntimeState}
use pg_circuit.Risk.{Assessment, QueryInfo}
use pg_circuit.Risk.Assess.{assess_query, format_findings}
use pg_circuit.Policy.{PolicyResult, policy_evaluate}
use pg_circuit.Event.{Session, RiskEvent, fill_risk_event, build_rule_ids}
use pg_circuit.Shmem.{SharedState, fit_or_empty}
use pg_circuit.Shmem.Ring.{event_record}
use pg_circuit.Breaker.{
  SqlState, insufficient_privilege, internal_error, warning, other_state, Report, Verdict, proceed,
  raise, apply_decision_ex,
}
use pg_circuit.Utility.{ObjectType, DefElem, Node}
use pg_circuit.Utility.Analyze.{analyze_utility}
use pg_circuit.Relations.{Catalog}

-- What a step that may raise an error of its own returns.
pub data Attempt (A : Type 0) : Type 0 where
  done : A → Attempt A
  failed : Report → Attempt A

-- What a backend's check depends on beside the statement.
pub record Backend (D : Type 0) : Type 0 where
  pub config : Config
  pub postgres : Postgres
  pub session : Session
  pub is_parallel_worker : Bool
  pub is_autovacuum_worker : Bool
  -- `pg_circuit_fault`; `none` in a build without fault injection
  pub fault : Option CString
  -- `pg_circuit_collect_runtime_state`: it updates the WAL cache, and returns or raises
  pub collect : Option (SharedState D) → Option (SharedState D) × Attempt (RuntimeState D)
  -- what `get_database_name` and `GetUserNameFromId` return, or the error that one raises
  pub names : Attempt (Option CString × Option CString)

-- The ring and the verdict after a check, and the messages that it sent to the log at DEBUG1.
pub record Checked (D : Type 0) : Type 0 where
  pub shared : Option (SharedState D)
  pub logged : List CString
  pub verdict : Verdict

-- `pg_circuit_fault_is`
unfoldable pub fault_is : Postgres → Option CString → CString → Bool
fault_is p none name = false
fault_is p (some fault) name = not (is_empty fault) && p.same_ignoring_case fault name

-- `should_skip_check`
unfoldable pub should_skip_check : {D : Type 0} → Backend D → Bool
should_skip_check b = if not b.config.enabled then true else b.is_parallel_worker

-- `handle_internal_failure`
unfoldable pub handle_internal_failure : Config → Report → Verdict
handle_internal_failure c e =
    let closed = (elim c.mode [ Mode.enforce ↦ true | _ ↦ false ]) && c.fail_closed in
    if closed
    then raise (record {
      sqlstate = internal_error;
      message = codes "PG Circuit internal error (fail_closed): " ++ e.message;
      detail = [];
      hint = codes "set pg_circuit.fail_closed=off to fail open, or fix the underlying fault";
    })
    else proceed (
        record {
          sqlstate = warning;
          message = codes "PG Circuit internal error (fail_open): " ++ e.message;
          detail = [];
          hint = codes "statement allowed; check logs and extension health";
        }
        ∷ [])

-- `options_has_full`
unfoldable pub options_has_full : List DefElem → Bool
options_has_full [] = false
options_has_full (opt ∷ options) = str_eq opt.defname (codes "full") || options_has_full options

-- `utility_may_be_risky`
unfoldable pub utility_may_be_risky : {RV : Type 0} → Option (Node RV) → Bool
unfolding options_has_full
utility_may_be_risky none = false
utility_may_be_risky (some (Node.truncate_stmt relations)) = true
utility_may_be_risky (some (Node.dropdb_stmt dbname)) = true
utility_may_be_risky (some (Node.alter_table_stmt relation cmds)) = true
utility_may_be_risky (some (Node.index_stmt concurrent relation)) = true
utility_may_be_risky (some (Node.reindex_stmt params relation)) = true
utility_may_be_risky (some (Node.cluster_stmt relation)) = true
utility_may_be_risky (some (Node.rename_stmt ObjectType.table relation)) = true
utility_may_be_risky (some (Node.rename_stmt ObjectType.column relation)) = true
utility_may_be_risky (some (Node.rename_stmt ObjectType.other_object relation)) = false
utility_may_be_risky (some (Node.drop_stmt ObjectType.table objects missing_ok)) = true
utility_may_be_risky (some (Node.drop_stmt ObjectType.column objects missing_ok)) = false
utility_may_be_risky (some (Node.drop_stmt ObjectType.other_object objects missing_ok)) = false
utility_may_be_risky (some (Node.vacuum_stmt false options rels)) = false
utility_may_be_risky (some (Node.vacuum_stmt true options rels)) = options_has_full options
utility_may_be_risky (some Node.other_stmt) = false

module _ (F : Float) where
  open F use {Double, show_whole}

  -- `debug_log_decision`
  unfoldable pub debug_log_decision :
      Config → QueryInfo Double → RuntimeState Double → Assessment Double → List CString
  debug_log_decision c q runtime a =
      if not c.debug
      then []
      else (codes "pg_circuit decision="
          ++ decision_name a.decision
          ++ codes " score="
          ++ show_ℤ a.score
          ++ codes " mode="
          ++ safety_mode_name runtime.mode
          ++ codes " pressure="
          ++ show_ℤ runtime.pressure_score
          ++ codes " kind="
          ++ show_ℕ (kind_number q.kind)
          ++ codes " rel="
          ++ (if is_empty q.relation_qualname then q.relation_name else q.relation_qualname)
          ++ codes " rows="
          ++ show_whole q.estimated_rows
          ++ codes " size="
          ++ show_ℤ q.relation_size
          ++ codes "\n"
          ++ format_findings a)
        ∷ []

  -- `pg_circuit_persist_risk_event`, once the names are known.
  unfoldable pub persist_risk_event :
      Backend Double
      → RiskEvent
      → QueryInfo Double
      → Assessment Double
      → PolicyResult
      → Option CString × Option CString
      → Option (SharedState Double)
      → Option (SharedState Double)
  unfolding fault_is
  persist_risk_event b e q a policy (database, user) shared =
      let relname = if is_empty q.relation_qualname then q.relation_name else q.relation_qualname in
      event_record b.postgres (fault_is b.postgres b.fault (codes "event_full")) e
        (some (build_rule_ids 64 a)) (some relname) (some (fit_or_empty 64 database))
        (some (fit_or_empty 64 user)) (some policy) shared
