-- ===== src/Hooks/Evaluate/Closed.antt =====
-- evaluate_and_apply of src/hooks.c in enforce mode with fail_closed.
use pg_circuit.Prelude.{
  ◌≡◌, ◌≤ℤ◌, refl, pos, Bool, true, false, if◌then◌else◌, [], Option, CString, arith, add_int,
}
use pg_circuit.Types.{Mode, Decision, QueryKind}
use pg_circuit.Platform.{Float}
use pg_circuit.Config.{Config}
use pg_circuit.Runtime.{RuntimeState}
use pg_circuit.Risk.{QueryInfo, init_assessment, finalize_assessment}
use pg_circuit.Risk.Assess.{apply_rule, assess_query}
use pg_circuit.Risk.Score.{is_destructive}
use pg_circuit.Shmem.{SharedState}
use pg_circuit.Breaker.{
  SqlState, insufficient_privilege, internal_error, Report, Verdict, proceed, raise,
  apply_decision_ex,
}
use pg_circuit.Hooks.{Attempt, done, failed, Backend, Checked, handle_internal_failure}
use pg_circuit.Hooks.Evaluate.{
  catch_error, after_names, after_collect, evaluate_and_apply, guarded_check, injected_failure,
}

-- The statement is stopped.
abbrev pub Raises : Verdict → Type 0
Raises (proceed warnings) = ⊥
Raises (raise e) = Unit {0}

-- Checks are on, in enforce mode with fail_closed, and the block threshold is at most the score of any
-- destructive statement.
pub record IsStrict {D : Type 0} (b : Backend D) : Type 0 where
  pub enabled : b.config.enabled ≡ true
  pub leader : b.is_parallel_worker ≡ false
  pub no_autovacuum : b.is_autovacuum_worker ≡ false
  pub enforces : b.config.mode ≡ Mode.enforce
  pub closed : b.config.fail_closed ≡ true
  pub threshold : b.config.risk_block_threshold ≤ℤ pos 90

catch_error-Raises :
    {D : Type 0} (b : Backend D) (e : Report) → IsStrict b → Raises (catch_error b e)
unfolding catch_error handle_internal_failure
catch_error-Raises b e s = by_state e.sqlstate
  where
    stopped : Raises (handle_internal_failure b.config e)
    stopped = rw (s.enforces, s.closed, handle_internal_failure) tt

    by_state :
        (k : SqlState)
        → Raises
            (elim k [ insufficient_privilege ↦ raise e | _ ↦ handle_internal_failure b.config e ])
    by_state insufficient_privilege = tt
    by_state internal_error = stopped
    by_state SqlState.warning = stopped
    by_state SqlState.other_state = stopped

module _ (F : Float) where
  open F use {Double}

  rule_blocks :
      (c : Config) (k : QueryKind) (q : QueryInfo Double)
      → is_destructive k ≡ true
      → c.mode ≡ Mode.enforce
      → c.risk_block_threshold ≤ℤ pos 90
      → (finalize_assessment c (apply_rule F k q init_assessment)).decision ≡ Decision.block
  unfolding assess_query add_int
  rule_blocks c k q d m t = ground arith

  assess_query-blocks :
      (b : Backend Double) (q : QueryInfo Double) (runtime : RuntimeState Double)
      → IsStrict b
      → is_destructive q.kind ≡ true
      → (assess_query F b.config q runtime).decision ≡ Decision.block
  unfolding assess_query
  assess_query-blocks b q runtime s d = rule_blocks b.config q.kind q d s.enforces s.threshold

  apply_decision_ex-block :
      (b : Backend Double) (q : QueryInfo Double) (runtime : RuntimeState Double)
      → IsStrict b
      → is_destructive q.kind ≡ true
      → (e : Report) × (apply_decision_ex F b.config (assess_query F b.config q runtime) runtime q
          ≡ raise e)
  unfolding apply_decision_ex
  apply_decision_ex-block b q runtime s d =
      rw (assess_query-blocks b q runtime s d, apply_decision_ex) (_, refl)

  caught-Raises :
      (b : Backend Double) (v : Verdict) (e : Report)
      → IsStrict b
      → v ≡ raise e
      → Raises (elim v [ proceed warnings ↦ proceed warnings | raise e ↦ catch_error b e ])
  caught-Raises b v e s h = rw h (catch_error-Raises b e s)

  after_names-Raises :
      (b : Backend Double) (q : QueryInfo Double) (runtime : RuntimeState Double)
      (shared : Option (SharedState Double)) (n : Attempt (Option CString × Option CString))
      → IsStrict b
      → is_destructive q.kind ≡ true
      → Raises (after_names F b q runtime shared n).verdict
  unfolding after_names
  after_names-Raises b q runtime shared (failed e) s d = catch_error-Raises b e s
  after_names-Raises b q runtime shared (done names) s d =
      let (e, raised) = apply_decision_ex-block b q runtime s d in caught-Raises b _ e s raised

  after_collect-Raises :
      (b : Backend Double) (q : QueryInfo Double)
      (c : Option (SharedState Double) × Attempt (RuntimeState Double))
      → IsStrict b
      → is_destructive q.kind ≡ true
      → Raises (after_collect F b q c).verdict
  unfolding after_collect
  after_collect-Raises b q (shared, failed e) s d = catch_error-Raises b e s
  after_collect-Raises b q (shared, done runtime) s d =
      after_names-Raises b q runtime shared b.names s d

  if-Raises :
      (t : Bool) (x y : Checked Double)
      → Raises x.verdict
      → Raises y.verdict
      → Raises (if◌then◌else◌ {A = Checked Double} t x y).verdict
  if-Raises true x y hx hy = hx
  if-Raises false x y hx hy = hy

  guarded_check-Raises :
      (b : Backend Double) (q : QueryInfo Double) (shared : Option (SharedState Double))
      → IsStrict b
      → is_destructive q.kind ≡ true
      → Raises (guarded_check F b q shared).verdict
  unfolding guarded_check
  guarded_check-Raises b q shared s d =
      if-Raises _ _ _ (catch_error-Raises b injected_failure s)
        (after_collect-Raises b q (b.collect shared) s d)

  pub evaluate_and_apply-Raises :
      (b : Backend Double) (q : QueryInfo Double) (shared : Option (SharedState Double))
      → IsStrict b
      → is_destructive q.kind ≡ true
      → Raises (evaluate_and_apply F b q shared).verdict
  unfolding evaluate_and_apply
  evaluate_and_apply-Raises b q shared s d = by_kind q.kind d
    where
      by_kind :
          (k : QueryKind)
          → is_destructive k ≡ true
          → Raises
              (elim k as (λ x. Checked Double) [
                | QueryKind.other ↦ record { shared = shared; logged = []; verdict = proceed [] }
                | _ ↦ guarded_check F b q shared
              ]).verdict
      by_kind QueryKind.other h = cc
      by_kind k h = guarded_check-Raises b q shared s d
