-- ===== src/System.antt =====
-- The whole extension: the hooks of src/hooks.c and the functions of src/pg_circuit.c in any number of
-- backends, on the one segment of src/shmem.c.
pub mod History
pub mod Checks
pub mod Steps
pub mod Refine
use pg_circuit.Prelude.{
  ℕ, Bool, true, false, not, ◌&&◌, if◌then◌else◌, ◌≢◌, List, [], ◌∷◌, ◌++◌, Option, none, some,
  CString, codes, is_empty,
}
use pg_circuit.Platform.{Float, Postgres}
use pg_circuit.Config.{Config}
use pg_circuit.Types.{QueryKind}
use pg_circuit.Runtime.{RuntimeState}
use pg_circuit.Risk.{QueryInfo}
use pg_circuit.Risk.Assess.{assess_query}
use pg_circuit.Policy.{policy_evaluate}
use pg_circuit.Event.{Session, fill_risk_event, build_rule_ids}
use pg_circuit.Shmem.{SharedState, fit_or_empty, shmem_startup}
use pg_circuit.Shmem.Ring.Calls.{Call}
use pg_circuit.Relations.{Catalog}
use pg_circuit.Utility.{Node}
use pg_circuit.Utility.Analyze.{analyze_utility}
use pg_circuit.QueryAnalysis.{CmdType, PlannedStmt, analyze_plannedstmt}
use pg_circuit.Hooks.{
  Attempt, done, failed, Backend, fault_is, should_skip_check, utility_may_be_risky,
  persist_risk_event,
}
use pg_circuit.Hooks.Evaluate.{process_utility, executor_start}
use pg_circuit.Collect.{Server, collect_runtime_state}
use pg_circuit.Sql.Rows.{status, runtime_state}

-- A backend at the time of a step: its settings, what it sees of the server, and what the lookup of the
-- two names for an event does.
pub record Agent : Type 0 where
  pub config : Config
  pub server : Server
  pub session : Session
  pub is_parallel_worker : Bool
  pub is_autovacuum_worker : Bool
  pub names : Attempt (Option CString × Option CString)

module _ (F : Float) (C : Catalog F.Double) (p : Postgres) where
  open F use {Double}

  abbrev pub backend_of : Agent → Backend Double
  backend_of a = record {
    config = a.config;
    postgres = p;
    session = a.session;
    is_parallel_worker = a.is_parallel_worker;
    is_autovacuum_worker = a.is_autovacuum_worker;
    fault = a.server.fault;
    collect = collect_runtime_state F C p a.config a.server;
    names = a.names;
  }

  -- The steps of a check behind the collection, up to the recording.
  abbrev pub record_check :
      Agent
      → QueryInfo Double
      → RuntimeState Double
      → Option CString × Option CString
      → Option (SharedState Double)
      → Option (SharedState Double)
  record_check a q runtime names m =
      let assessment = assess_query F a.config q runtime in
      let policy = policy_evaluate q runtime assessment in
      let event = fill_risk_event a.session q runtime assessment (some policy) in
      persist_risk_event F (backend_of a) event q assessment policy names m

  -- The one call of `pg_circuit_event_record` that a check makes once it has the runtime state and the
  -- names.
  abbrev pub check_call :
      Agent → QueryInfo Double → RuntimeState Double → Option CString × Option CString → Call
  check_call a q runtime names =
      let assessment = assess_query F a.config q runtime in
      let policy = policy_evaluate q runtime assessment in
      record {
        full = fault_is p a.server.fault (codes "event_full");
        event = fill_risk_event a.session q runtime assessment (some policy);
        rule_ids = some (build_rule_ids 64 assessment);
        relation =
            some (if is_empty q.relation_qualname then q.relation_name else q.relation_qualname);
        database = some (fit_or_empty 64 names.0);
        user = some (fit_or_empty 64 names.1);
        policy = some policy;
      }

  -- The calls of a check: none where the collection or the names fail.
  unfoldable pub named_calls :
      Agent
      → QueryInfo Double
      → RuntimeState Double
      → Attempt (Option CString × Option CString)
      → List Call
  named_calls a q runtime (failed e) = []
  named_calls a q runtime (done names) = check_call a q runtime names ∷ []

  unfoldable pub collected_calls :
      Agent → QueryInfo Double → Attempt (RuntimeState Double) → List Call
  collected_calls a q (failed e) = []
  collected_calls a q (done runtime) = named_calls a q runtime a.names

  -- And none where a fault is injected.
  unfoldable pub guarded_calls : Agent → QueryInfo Double → Option (SharedState Double) → List Call
  guarded_calls a q m =
      if fault_is p a.server.fault (codes "runtime")
      then []
      else collected_calls a q (collect_runtime_state F C p a.config a.server m).1

  -- And none for a statement that is not listed.
  unfoldable pub check_calls : Agent → QueryInfo Double → Option (SharedState Double) → List Call
  check_calls a q m = elim q.kind [ QueryKind.other ↦ [] | _ ↦ guarded_calls a q m ]

  -- The calls of a utility statement, and of a plan.
  unfoldable pub utility_calls :
      Agent → Option (Node C.RangeVar) → Option (SharedState Double) → List Call
  utility_calls a node m =
      if not (should_skip_check (backend_of a)) && utility_may_be_risky node
      then elim (analyze_utility F C a.is_autovacuum_worker node) [
        | none ↦ []
        | some q ↦ check_calls a q m
      ]
      else []

  unfoldable pub plan_calls :
      Agent → Option (Option (PlannedStmt Double)) → Bool → Option (SharedState Double) → List Call
  plan_calls a (some (some stmt)) explain_only m =
      let writes : Bool = elim stmt.command [ CmdType.other_command ↦ false | _ ↦ true ] in
      if not (should_skip_check (backend_of a)) && (writes && not explain_only)
      then check_calls a (analyze_plannedstmt F C (some stmt)) m
      else []
  plan_calls a desc explain_only m = []

  -- What one backend does to the segment, with the recordings that it makes: it checks a utility
  -- statement or a plan, shows the status or the runtime state, or attaches to the segment as it
  -- starts. Each of the two parts of a check that take the lock, the collection and the recording, is a
  -- step too, since other backends may come in between.
  pub data Step
      : Option (SharedState Double) → List Call → Option (SharedState Double) → Type 0 where
    utility :
        (a : Agent) (node : Option (Node C.RangeVar)) (m : Option (SharedState Double))
        → Step m (utility_calls a node m) (process_utility F C (backend_of a) node m).shared
    execute :
        (a : Agent) (desc : Option (Option (PlannedStmt Double))) (explain_only : Bool)
        (m : Option (SharedState Double))
        → Step m
            (plan_calls a desc explain_only m)
            (executor_start F C (backend_of a) desc explain_only m).shared
    show_status :
        (a : Agent) (pg_version : ℕ) (is_row : Bool) (m : Option (SharedState Double))
        → Step m [] (status F C p a.config a.server pg_version is_row m).0
    show_runtime :
        (a : Agent) (is_row : Bool) (m : Option (SharedState Double))
        → Step m [] (runtime_state F C p a.config a.server is_row m).0
    collect :
        (a : Agent) (m : Option (SharedState Double))
        → Step m [] (collect_runtime_state F C p a.config a.server m).0
    persist :
        (a : Agent) (q : QueryInfo Double) (runtime : RuntimeState Double)
        (names : Option CString × Option CString) (m : Option (SharedState Double))
        → q.kind ≢ QueryKind.other
        → Step m (check_call a q runtime names ∷ []) (record_check a q runtime names m)
    attach :
        (z : Double) (c : Config) (m : Option (SharedState Double))
        → Step m [] (shmem_startup z c m)

  -- The segment after any steps in any order, from its creation under the settings `c` on, with the
  -- recordings made by the steps, oldest first.
  pub data Reaches (z : Double) (c : Config)
      : List Call → Option (SharedState Double) → Type 0 where
    created : Reaches z c [] (shmem_startup z c none)
    stepped :
        {calls new : List Call} {m m' : Option (SharedState Double)}
        → Reaches z c calls m
        → Step m new m'
        → Reaches z c (calls ++ new) m'
