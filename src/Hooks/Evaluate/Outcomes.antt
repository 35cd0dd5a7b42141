-- ===== src/Hooks/Evaluate/Outcomes.antt =====
-- What evaluate_and_apply of src/hooks.c does on each of its branches.
use pg_circuit.Prelude.{
  ◌≡◌, ◌⊎◌, refl, Bool, true, false, ◌&&◌, if◌then◌else◌, List, [], Option, CString, inl, inr,
}
use pg_circuit.Types.{Mode, QueryKind}
use pg_circuit.Platform.{Float}
use pg_circuit.Runtime.{RuntimeState}
use pg_circuit.Risk.{QueryInfo}
use pg_circuit.Shmem.{SharedState}
use pg_circuit.Breaker.{
  SqlState, insufficient_privilege, internal_error, Report, Verdict, proceed, raise,
}
use pg_circuit.Hooks.{Attempt, done, failed, Backend, Checked, handle_internal_failure}
use pg_circuit.Hooks.Evaluate.{
  catch_error, after_names, after_collect, evaluate_and_apply, guarded_check, injected_failure,
}

-- An error that leaves the check is a privilege error, or the check fails closed.
abbrev pub MayRaise : {D : Type 0} → Backend D → Verdict → Type 0
MayRaise b (proceed warnings) = Unit {0}
MayRaise b (raise e) =
    (e.sqlstate ≡ insufficient_privilege)
    ⊎ (e.sqlstate ≡ internal_error) × (b.config.mode ≡ Mode.enforce) × (b.config.fail_closed ≡ true)

-- The two outcomes of an internal failure, by the mode and the option.
closed_lem :
    {D : Type 0} (b : Backend D) (m : Mode) (fail_closed : Bool) (e : Report) (ws : List Report)
    → b.config.mode ≡ m
    → b.config.fail_closed ≡ fail_closed
    → e.sqlstate ≡ internal_error
    → MayRaise b (
        if (elim m [ Mode.enforce ↦ true | _ ↦ false ]) && fail_closed then raise e else proceed ws)
closed_lem b Mode.observe fail_closed e ws hm hf he = tt
closed_lem b Mode.warn fail_closed e ws hm hf he = tt
closed_lem b Mode.enforce false e ws hm hf he = tt
closed_lem b Mode.enforce true e ws hm hf he = inr (he, hm, hf)

handle_internal_failure-MayRaise :
    {D : Type 0} (b : Backend D) (e : Report) → MayRaise b (handle_internal_failure b.config e)
unfolding handle_internal_failure
handle_internal_failure-MayRaise b e =
    closed_lem b b.config.mode b.config.fail_closed _ _ refl refl refl

caught_lem :
    {D : Type 0} (b : Backend D) (e : Report) (s : SqlState)
    → e.sqlstate ≡ s
    → MayRaise b
        (elim s [ insufficient_privilege ↦ raise e | _ ↦ handle_internal_failure b.config e ])
caught_lem b e insufficient_privilege h = inl h
caught_lem b e internal_error h = handle_internal_failure-MayRaise b e
caught_lem b e SqlState.warning h = handle_internal_failure-MayRaise b e
caught_lem b e SqlState.other_state h = handle_internal_failure-MayRaise b e

catch_error-MayRaise : {D : Type 0} (b : Backend D) (e : Report) → MayRaise b (catch_error b e)
unfolding catch_error
catch_error-MayRaise b e = caught_lem b e e.sqlstate refl

verdict_lem :
    {D : Type 0} (b : Backend D) (v : Verdict)
    → MayRaise b (elim v [ proceed warnings ↦ proceed warnings | raise e ↦ catch_error b e ])
verdict_lem b (proceed warnings) = tt
verdict_lem b (raise e) = catch_error-MayRaise b e

module _ (F : Float) where
  open F use {Double}

  after_names-MayRaise :
      (b : Backend Double) (q : QueryInfo Double) (runtime : RuntimeState Double)
      (shared : Option (SharedState Double)) (n : Attempt (Option CString × Option CString))
      → MayRaise b (after_names F b q runtime shared n).verdict
  unfolding after_names
  after_names-MayRaise b q runtime shared (failed e) = catch_error-MayRaise b e
  after_names-MayRaise b q runtime shared (done names) = verdict_lem b _

  after_collect-MayRaise :
      (b : Backend Double) (q : QueryInfo Double)
      (c : Option (SharedState Double) × Attempt (RuntimeState Double))
      → MayRaise b (after_collect F b q c).verdict
  unfolding after_collect
  after_collect-MayRaise b q (shared, failed e) = catch_error-MayRaise b e
  after_collect-MayRaise b q (shared, done runtime) =
      after_names-MayRaise b q runtime shared b.names

  if-MayRaise :
      (b : Backend Double) (t : Bool) (x y : Checked Double)
      → MayRaise b x.verdict
      → MayRaise b y.verdict
      → MayRaise b (if◌then◌else◌ {A = Checked Double} t x y).verdict
  if-MayRaise b true x y hx hy = hx
  if-MayRaise b false x y hx hy = hy

  guarded_check-MayRaise :
      (b : Backend Double) (q : QueryInfo Double) (shared : Option (SharedState Double))
      → MayRaise b (guarded_check F b q shared).verdict
  unfolding guarded_check
  guarded_check-MayRaise b q shared =
      if-MayRaise b _ _ _ (catch_error-MayRaise b injected_failure)
        (after_collect-MayRaise b q (b.collect shared))

  -- Whatever the statement, the configuration and the errors of its steps, the check raises only
  -- privilege errors, and internal errors in enforce mode with fail_closed on.
  pub evaluate_and_apply-MayRaise :
      (b : Backend Double) (q : QueryInfo Double) (shared : Option (SharedState Double))
      → MayRaise b (evaluate_and_apply F b q shared).verdict
  unfolding evaluate_and_apply
  evaluate_and_apply-MayRaise b q shared =
      elim q.kind
        as (λ k.
          MayRaise b
            (elim k as (λ x. Checked Double) [
              | QueryKind.other ↦ record { shared = shared; logged = []; verdict = proceed [] }
              | _ ↦ guarded_check F b q shared
            ]).verdict) [ QueryKind.other ↦ tt | _ ↦ guarded_check-MayRaise b q shared ]
