-- ===== src/System/Steps.antt =====
-- Each step of a backend, of src/hooks.c, src/pg_circuit.c or src/shmem.c, keeps the history.
use pg_circuit.Prelude.{
  sym, subst, List, ◌++◌, Bool, true, false, [], ◌∷◌, Option, none, some, codes,
}
use pg_circuit.Platform.{Float, Postgres}
use pg_circuit.Config.{Config}
use pg_circuit.Runtime.{RuntimeState}
use pg_circuit.Risk.{QueryInfo}
use pg_circuit.Shmem.{SharedState, shmem_startup}
use pg_circuit.Shmem.Ring.Calls.{Call}
use pg_circuit.Relations.{Catalog}
use pg_circuit.Utility.{Node}
use pg_circuit.Utility.Analyze.{analyze_utility}
use pg_circuit.QueryAnalysis.{PlannedStmt, analyze_plannedstmt}
use pg_circuit.Hooks.{Checked}
use pg_circuit.Hooks.Evaluate.{evaluate_and_apply, process_utility, executor_start}
use pg_circuit.Breaker.{raise, other_state}
use pg_circuit.Collect.{collect_runtime_state}
use pg_circuit.Sql.Rows.{status, runtime_state, with_runtime, status_row, runtime_row}
use pg_circuit.System.{
  Agent, backend_of, record_check, check_call, check_calls, utility_calls, plan_calls, collect,
  persist, Step, utility, execute, show_status, show_runtime, attach,
}
use pg_circuit.System.History.{IsHistory, Holds, same, Holds-more, collect-Holds}
use pg_circuit.System.Checks.{Holds-if, persist-Holds, evaluate_and_apply-Holds}

module _ (F : Float) (C : Catalog F.Double) (p : Postgres) (cfg : Config) where
  open F use {Double}

  process_utility-Holds :
      (a : Agent) (node : Option (Node C.RangeVar)) (calls : List Call) (s : SharedState Double)
      → IsHistory F C p cfg calls s
      → Holds F C p cfg
          (calls ++ utility_calls F C p a node (some s))
          (process_utility F C (backend_of F C p a) node (some s)).shared
  unfolding process_utility utility_calls
  process_utility-Holds a node calls s h =
      Holds-if F C p cfg calls _ _ _ _ _
        (analysed (analyze_utility F C a.is_autovacuum_worker node)) (same F C p cfg calls s h)
    where
      analysed :
          (o : Option (QueryInfo Double))
          → Holds F C p cfg
              (calls ++ elim o as (λ x. List Call) [
                | none ↦ []
                | some q ↦ check_calls F C p a q (some s)
              ])
              (elim o as (λ x. Checked Double) [
                | none ↦ record {
                  shared = some s;
                  logged = [];
                  verdict = raise (record {
                    sqlstate = other_state;
                    message = codes "option requires a Boolean value";
                    detail = [];
                    hint = [];
                  });
                }
                | some q ↦ evaluate_and_apply F (backend_of F C p a) q (some s)
              ]).shared
      analysed none = same F C p cfg calls s h
      analysed (some q) = evaluate_and_apply-Holds F C p cfg a q calls s h

  executor_start-Holds :
      (a : Agent) (desc : Option (Option (PlannedStmt Double))) (explain_only : Bool)
      (calls : List Call) (s : SharedState Double)
      → IsHistory F C p cfg calls s
      → Holds F C p cfg
          (calls ++ plan_calls F C p a desc explain_only (some s))
          (executor_start F C (backend_of F C p a) desc explain_only (some s)).shared
  unfolding executor_start plan_calls
  executor_start-Holds a none explain_only calls s h = same F C p cfg calls s h
  executor_start-Holds a (some none) explain_only calls s h = same F C p cfg calls s h
  executor_start-Holds a (some (some stmt)) explain_only calls s h =
      Holds-if F C p cfg calls _ _ _ _ _
        (evaluate_and_apply-Holds F C p cfg a (analyze_plannedstmt F C (some stmt)) calls s h)
        (same F C p cfg calls s h)

  with_runtime-Holds :
      {R : Type 0} (row : RuntimeState Double → R) (a : Agent) (is_row : Bool) (calls : List Call)
      (s : SharedState Double)
      → IsHistory F C p cfg calls s
      → Holds F C p cfg (calls ++ []) (with_runtime F C p a.config a.server row is_row (some s)).0
  unfolding with_runtime
  with_runtime-Holds row a true calls s h =
      Holds-more F C p cfg calls (collect_runtime_state F C p a.config a.server (some s)).0
        (collect-Holds F C p cfg calls a s h)
  with_runtime-Holds row a false calls s h = same F C p cfg calls s h

  -- The magic number and the version that a start-up looks for are those that the first one wrote.
  shmem_startup-Holds :
      (z : Double) (c : Config) (calls : List Call) (s : SharedState Double)
      → IsHistory F C p cfg calls s
      → Holds F C p cfg (calls ++ []) (shmem_startup z c (some s))
  unfolding shmem_startup
  shmem_startup-Holds z c calls s h =
      simp (shmem_startup, h.magic, h.version, h.lock) (same F C p cfg calls s h)

  pub Step-Holds :
      (calls : List Call) {m : Option (SharedState Double)} {new : List Call}
      {m' : Option (SharedState Double)}
      → Step F C p m new m'
      → Holds F C p cfg calls m
      → Holds F C p cfg (calls ++ new) m'
  unfolding status runtime_state
  Step-Holds calls (utility a node m) (s, e, h) =
      subst
        (λ o.
          Holds F C p cfg (calls ++ utility_calls F C p a node o)
            (process_utility F C (backend_of F C p a) node o).shared)
        (sym e) (process_utility-Holds a node calls s h)
  Step-Holds calls (execute a desc explain_only m) (s, e, h) =
      subst
        (λ o.
          Holds F C p cfg (calls ++ plan_calls F C p a desc explain_only o)
            (executor_start F C (backend_of F C p a) desc explain_only o).shared)
        (sym e) (executor_start-Holds a desc explain_only calls s h)
  Step-Holds calls (show_status a pg_version is_row m) (s, e, h) =
      subst
        (λ o. Holds F C p cfg (calls ++ []) (status F C p a.config a.server pg_version is_row o).0)
        (sym e) (with_runtime-Holds (status_row F a.config pg_version) a is_row calls s h)
  Step-Holds calls (show_runtime a is_row m) (s, e, h) =
      subst (λ o. Holds F C p cfg (calls ++ []) (runtime_state F C p a.config a.server is_row o).0)
        (sym e) (with_runtime-Holds (runtime_row F) a is_row calls s h)
  Step-Holds calls (collect a m) (s, e, h) =
      subst (λ o. Holds F C p cfg (calls ++ []) (collect_runtime_state F C p a.config a.server o).0)
        (sym e) (Holds-more F C p cfg calls _ (collect-Holds F C p cfg calls a s h))
  Step-Holds calls (persist a q runtime names m listed) (s, e, h) =
      subst
        (λ o.
          Holds F C p cfg (calls ++ check_call F C p a q runtime names ∷ [])
            (record_check F C p a q runtime names o))
        (sym e) (persist-Holds F C p cfg a q calls runtime s names h)
  Step-Holds calls (attach z c m) (s, e, h) =
      subst (λ o. Holds F C p cfg (calls ++ []) (shmem_startup z c o)) (sym e)
        (shmem_startup-Holds z c calls s h)
