-- ===== src/Hooks/Evaluate/Recorded.antt =====
-- What the check of src/hooks.c raises and records for each decision.
use pg_circuit.Prelude.{
  ◌≡◌, ◌≢◌, refl, sym, ◌∙◌, false, if◌then◌else◌, [], ◌∷◌, Option, some, CString, codes, ap, subst,
}
use pg_circuit.Types.{Decision, QueryKind}
use pg_circuit.Platform.{Float}
use pg_circuit.Config.{Config}
use pg_circuit.Runtime.{RuntimeState}
use pg_circuit.Risk.{Assessment, QueryInfo}
use pg_circuit.Risk.Assess.{assess_query}
use pg_circuit.Policy.{policy_evaluate}
use pg_circuit.Event.{fill_risk_event}
use pg_circuit.Shmem.{SharedState}
use pg_circuit.Shmem.Ring.Inv.{IsValid}
use pg_circuit.Breaker.{insufficient_privilege, Report, Verdict, proceed, raise, apply_decision_ex}
use pg_circuit.Hooks.{done, Backend, Checked, debug_log_decision, fault_is}
use pg_circuit.Hooks.Evaluate.{
  catch_error, after_names, after_collect, guarded_check, evaluate_and_apply, injected_failure,
}
use pg_circuit.Hooks.Evaluate.Appends.{Appends, persist-allow, persist-Appends}

module _ (F : Float) where
  open F use {Double}

  -- The verdict and the ring for a decision.
  abbrev pub Outcome :
      Backend Double
      → QueryInfo Double
      → Assessment Double
      → SharedState Double
      → Decision
      → Checked Double
      → Type 0
  Outcome b q a s Decision.allow r = (r.verdict ≡ proceed []) × (r.shared ≡ some s)
  Outcome b q a s Decision.warn r =
      ((w : Report) × (r.verdict ≡ proceed (w ∷ []))) × Appends F b q a s r.shared
  Outcome b q a s Decision.block r =
      ((e : Report) × (r.verdict ≡ raise e) × (e.sqlstate ≡ insufficient_privilege))
      × Appends F b q a s r.shared

  abbrev Announces : Decision → Verdict → Type 0
  Announces Decision.allow v = v ≡ proceed []
  Announces Decision.warn v = (w : Report) × (v ≡ proceed (w ∷ []))
  Announces Decision.block v = (e : Report) × (v ≡ raise e) × (e.sqlstate ≡ insufficient_privilege)

  apply_decision_ex-Announces :
      (c : Config) (a : Assessment Double) (runtime : RuntimeState Double) (q : QueryInfo Double)
      (d : Decision)
      → a.decision ≡ d
      → Announces d (apply_decision_ex F c a runtime q)
  unfolding apply_decision_ex
  apply_decision_ex-Announces c a runtime q Decision.allow h = rw h refl
  apply_decision_ex-Announces c a runtime q Decision.warn h = rw h (_, refl)
  apply_decision_ex-Announces c a runtime q Decision.block h = rw h (_, refl, refl)

  catch_error-privilege :
      (b : Backend Double) (e : Report)
      → e.sqlstate ≡ insufficient_privilege
      → catch_error b e ≡ raise e
  unfolding catch_error
  catch_error-privilege b e h = rw h refl

  caught-Announces :
      (b : Backend Double) (d : Decision) (v : Verdict)
      → Announces d v
      → Announces d (elim v [ proceed ws ↦ proceed ws | raise e ↦ catch_error b e ])
  caught-Announces b Decision.allow v h = rw h refl
  caught-Announces b Decision.warn v (w, h) = rw h (w, refl)
  caught-Announces b Decision.block v (e, h, p) = rw h (e, catch_error-privilege b e p, p)

  outcome_lem :
      (b : Backend Double) (q : QueryInfo Double) (a : Assessment Double) (s : SharedState Double)
      (d : Decision) (r : Checked Double)
      → a.decision ≡ d
      → Announces d r.verdict
      → (a.decision ≡ Decision.allow → r.shared ≡ some s)
      → (a.decision ≢ Decision.allow → Appends F b q a s r.shared)
      → Outcome b q a s d r
  outcome_lem b q a s Decision.allow r h v same more = (v, same h)
  outcome_lem b q a s Decision.warn r h v same more = (v, more (λ e. cc))
  outcome_lem b q a s Decision.block r h v same more = (v, more (λ e. cc))

  -- The steps of a check in which nothing fails.
  evaluate_and_apply-path :
      (b : Backend Double) (q : QueryInfo Double) (shared : Option (SharedState Double))
      (s : SharedState Double) (runtime : RuntimeState Double)
      (names : Option CString × Option CString)
      → q.kind ≢ QueryKind.other
      → fault_is b.postgres b.fault (codes "runtime") ≡ false
      → b.collect shared ≡ (some s, done runtime)
      → b.names ≡ done names
      → evaluate_and_apply F b q shared ≡ after_names F b q runtime (some s) (done names)
  unfolding evaluate_and_apply guarded_check after_collect
  evaluate_and_apply-path b q shared s runtime names listed calm collected named =
      listed_lem q.kind listed
      ∙ ap
          (λ t.
            if◌then◌else◌ {A = Checked Double} t
              (record { shared = shared; logged = []; verdict = catch_error b injected_failure })
              (after_collect F b q (b.collect shared)))
          calm
      ∙ ap (after_collect F b q) collected
      ∙ ap (after_names F b q runtime (some s)) named
    where
      listed_lem :
          (k : QueryKind)
          → k ≢ QueryKind.other
          → (elim k as (λ x. Checked Double) [
            | QueryKind.other ↦ record { shared = shared; logged = []; verdict = proceed [] }
            | _ ↦ guarded_check F b q shared
          ])
            ≡ guarded_check F b q shared
      listed_lem QueryKind.other h = absurd (h refl)
      listed_lem k h = refl

  -- For a listed statement, a collection that succeeds, names that are found and a valid ring
  -- without an injected fault: an ALLOW goes on in silence and leaves the ring alone; a WARN goes on
  -- with one warning, and a BLOCK raises a privilege error, and either one first puts an event with
  -- its decision, score and statement in front of the ring. The log gets what
  -- `debug_log_decision` writes.
  pub evaluate_and_apply_lem :
      (b : Backend Double) (q : QueryInfo Double) (shared : Option (SharedState Double))
      (s : SharedState Double) (runtime : RuntimeState Double)
      (names : Option CString × Option CString)
      → q.kind ≢ QueryKind.other
      → fault_is b.postgres b.fault (codes "runtime") ≡ false
      → fault_is b.postgres b.fault (codes "event_full") ≡ false
      → b.collect shared ≡ (some s, done runtime)
      → b.names ≡ done names
      → IsValid s
      → let a = assess_query F b.config q runtime in
        Outcome b q a s a.decision (evaluate_and_apply F b q shared)
        × ((evaluate_and_apply F b q shared).logged ≡ debug_log_decision F b.config q runtime a)
  unfolding after_names policy_evaluate fill_risk_event
  evaluate_and_apply_lem b q shared s runtime names listed calm room collected named valid =
      let a = assess_query F b.config q runtime in
      let policy = policy_evaluate q runtime a in
      let e = fill_risk_event b.session q runtime a (some policy) in
      let path = evaluate_and_apply-path b q shared s runtime names listed calm collected named in
      (
        subst (λ r. Outcome b q a s a.decision r) (sym path)
            (outcome_lem b q a s a.decision _ refl
              (caught-Announces b a.decision _
                (apply_decision_ex-Announces b.config a runtime q a.decision refl))
              (λ allow. persist-allow F b e q a policy names s allow refl)
              (persist-Appends F b q runtime a policy names s valid room)),
        ap (λ r. r.logged) path,
      )
