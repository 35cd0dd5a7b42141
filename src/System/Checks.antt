-- ===== src/System/Checks.antt =====
-- A check of src/hooks.c keeps the history of the segment.
use pg_circuit.Prelude.{
  sym, List, ◌∷◌, ◌++◌, subst, Bool, true, false, if◌then◌else◌, [], Option, some, CString,
}
use pg_circuit.Types.{QueryKind}
use pg_circuit.Platform.{Float, Postgres}
use pg_circuit.Config.{Config}
use pg_circuit.Runtime.{RuntimeState}
use pg_circuit.Risk.{QueryInfo}
use pg_circuit.Shmem.{SharedState}
use pg_circuit.Shmem.Ring.Calls.{Call, record_call}
use pg_circuit.Relations.{Catalog}
use pg_circuit.Hooks.{Attempt, done, failed, Checked, persist_risk_event}
use pg_circuit.Hooks.Evaluate.{after_names, after_collect, guarded_check, evaluate_and_apply}
use pg_circuit.Breaker.{proceed}
use pg_circuit.Collect.{collect_runtime_state}
use pg_circuit.System.{
  Agent, backend_of, record_check, check_call, named_calls, collected_calls, guarded_calls,
  check_calls,
}
use pg_circuit.System.History.{IsHistory, Holds, same, Holds-more, record_call-Holds, collect-Holds}

module _ (F : Float) (C : Catalog F.Double) (p : Postgres) (cfg : Config) where
  open F use {Double}

  pub Holds-if :
      (calls : List Call) (t : Bool) (x y : Checked Double) (new : List Call) (other : List Call)
      → Holds F C p cfg (calls ++ new) x.shared
      → Holds F C p cfg (calls ++ other) y.shared
      → Holds F C p cfg
          (calls ++ (if t then new else other))
          (if◌then◌else◌ {A = Checked Double} t x y).shared
  Holds-if calls true x y new other hx hy = hx
  Holds-if calls false x y new other hx hy = hy

  module _ (a : Agent) (q : QueryInfo Double) (calls : List Call) where
    pub persist-Holds :
        (runtime : RuntimeState Double) (s : SharedState Double)
        (names : Option CString × Option CString)
        → IsHistory F C p cfg calls s
        → Holds F C p cfg
            (calls ++ check_call F C p a q runtime names ∷ [])
            (record_check F C p a q runtime names (some s))
    unfolding persist_risk_event record_call
    persist-Holds runtime s names h =
        record_call-Holds F C p cfg calls (check_call F C p a q runtime names) s h

    after_names-Holds :
        (runtime : RuntimeState Double) (s : SharedState Double)
        (names : Attempt (Option CString × Option CString))
        → IsHistory F C p cfg calls s
        → Holds F C p cfg
            (calls ++ named_calls F C p a q runtime names)
            (after_names F (backend_of F C p a) q runtime (some s) names).shared
    unfolding after_names named_calls
    after_names-Holds runtime s (failed e) h = same F C p cfg calls s h
    after_names-Holds runtime s (done names) h = persist-Holds runtime s names h

    after_collect-Holds :
        (r : Option (SharedState Double) × Attempt (RuntimeState Double))
        → Holds F C p cfg calls r.0
        → Holds F C p cfg
            (calls ++ collected_calls F C p a q r.1)
            (after_collect F (backend_of F C p a) q r).shared
    unfolding after_collect collected_calls
    after_collect-Holds (m, failed e) h = Holds-more F C p cfg calls m h
    after_collect-Holds (m, done runtime) (s, e, h) =
        subst
          (λ m.
            Holds F C p cfg (calls ++ named_calls F C p a q runtime a.names)
              (after_names F (backend_of F C p a) q runtime m a.names).shared)
          (sym e) (after_names-Holds runtime s a.names h)

    guarded_check-Holds :
        (s : SharedState Double)
        → IsHistory F C p cfg calls s
        → Holds F C p cfg
            (calls ++ guarded_calls F C p a q (some s))
            (guarded_check F (backend_of F C p a) q (some s)).shared
    unfolding guarded_check guarded_calls
    guarded_check-Holds s h = Holds-if calls _ _ _ _ _ (same F C p cfg calls s h) (
        after_collect-Holds (collect_runtime_state F C p a.config a.server (some s))
          (collect-Holds F C p cfg calls a s h))

  pub evaluate_and_apply-Holds :
      (a : Agent) (q : QueryInfo Double) (calls : List Call) (s : SharedState Double)
      → IsHistory F C p cfg calls s
      → Holds F C p cfg
          (calls ++ check_calls F C p a q (some s))
          (evaluate_and_apply F (backend_of F C p a) q (some s)).shared
  unfolding evaluate_and_apply check_calls
  evaluate_and_apply-Holds a q calls s h = by_kind q.kind (guarded_check-Holds a q calls s h)
    where
      by_kind :
          (k : QueryKind)
          → Holds F C p cfg
              (calls ++ guarded_calls F C p a q (some s))
              (guarded_check F (backend_of F C p a) q (some s)).shared
          → Holds F C p cfg
              (calls ++ elim k as (λ x. List Call) [
                | QueryKind.other ↦ []
                | _ ↦ guarded_calls F C p a q (some s)
              ])
              (elim k as (λ x. Checked Double) [
                | QueryKind.other ↦ record { shared = some s; logged = []; verdict = proceed [] }
                | _ ↦ guarded_check F (backend_of F C p a) q (some s)
              ]).shared
      by_kind QueryKind.other h' = same F C p cfg calls s h
      by_kind k h' = h'
