-- ===== src/Sql/Explain/Agree.antt =====
-- The two explanations of src/pg_circuit.c agree, and they read the names that the extension writes.
use pg_circuit.Prelude.{
  ◌≡◌, ◌≢◌, ◌≤ℤ◌, refl, sym, ◌∙◌, ℤ, pos, Bool, true, false, some, ◌⊎◌, inl, inr, CString,
  Option-cases,
}
use pg_circuit.Types.{SafetyMode, QueryKind}
use pg_circuit.Platform.{Float, Postgres}
use pg_circuit.Config.{Config}
use pg_circuit.Runtime.{RuntimeState}
use pg_circuit.Reporting.{safety_mode_name}
use pg_circuit.Event.{query_kind_name}
use pg_circuit.Risk.Assess.{assess_query, alter_table_base}
use pg_circuit.Risk.Score.{assess_query-Explains}
use pg_circuit.Risk.Parse.{
  lower, FoldsCase, parse_query_kind, parse_safety_mode, parse_query_kind-query_kind_name,
}
use pg_circuit.Hooks.{Attempt, done, failed}
use pg_circuit.Breaker.{Report}
use pg_circuit.Collect.{zero_runtime}
use pg_circuit.Sql.Explain.{
  ExplainRow, explain_row, synthetic_info, shape, is_heavy, shape_ex, with_names, explain_risk,
  explain_risk_ex,
}

-- Two answers fail with the same error, or they have the same score, decision and level.
pub data SameAnswer : Attempt ExplainRow → Attempt ExplainRow → Type 0 where
  both_failed : {e f : Report} → e ≡ f → SameAnswer (failed e) (failed f)
  both_done :
      {r t : ExplainRow}
      → r.score ≡ t.score
      → r.decision ≡ t.decision
      → r.level ≡ t.level
      → SameAnswer (done r) (done t)

module _ (F : Float) (c : Config) where
  open F use {Double}

  shapes_agree :
      (k : QueryKind) (rows : Double) (size : ℤ) (st t : RuntimeState Double)
      → SameAnswer
          (done (explain_row (assess_query F c (shape k (synthetic_info k rows size)) st)))
          (done (explain_row (assess_query F c (shape_ex k (synthetic_info k rows size)) t)))
  unfolding assess_query shape shape_ex is_heavy alter_table_base
  shapes_agree QueryKind.other rows size st t = both_done refl refl refl
  shapes_agree k rows size st t = both_done refl refl refl

  module _ (p : Postgres) where
    with_names-SameAnswer :
        (is_row : Bool) (op mode : CString) (f g : QueryKind → SafetyMode → ExplainRow)
        → ((k : QueryKind) (m : SafetyMode) → SameAnswer (done (f k m)) (done (g k m)))
        → SameAnswer (with_names F p c is_row op mode f) (with_names F p c is_row op mode g)
    unfolding with_names
    with_names-SameAnswer false op mode f g h = both_failed refl
    with_names-SameAnswer true op mode f g h = elim (Option-cases (parse_query_kind p (some op))) [
      | inl unknown ↦ rw unknown (both_failed refl)
      | inr (k, known) ↦ elim (Option-cases (parse_safety_mode p (some mode))) [
        | inl unknown ↦ rw (known, unknown) (both_failed refl)
        | inr (m, named) ↦ rw (known, named) (h k m)
      ]
    ]

    with_names_known :
        (op mode : CString) (f : QueryKind → SafetyMode → ExplainRow) (k : QueryKind)
        (m : SafetyMode)
        → parse_query_kind p (some op) ≡ some k
        → parse_safety_mode p (some mode) ≡ some m
        → with_names F p c true op mode f ≡ done (f k m)
    unfolding with_names
    with_names_known op mode f k m known named = rw (known, named) refl

    -- The two explanations of a statement fail alike or agree on score, decision and level, whatever
    -- the lag and the inputs for locks are.
    pub explain_risk-explain_risk_ex :
        (is_row : Bool) (op : CString) (rows : Double) (size : ℤ) (mode : CString)
        (lag lag_ex : Double) (blocked blocking : ℤ) (max_wait : Double)
        → SameAnswer
            (explain_risk F p c is_row op rows size mode lag)
            (explain_risk_ex F p c is_row op rows size mode lag_ex blocked blocking max_wait)
    unfolding explain_risk explain_risk_ex
    explain_risk-explain_risk_ex is_row op rows size mode lag lag_ex blocked blocking max_wait =
        with_names-SameAnswer is_row op mode _ _ (λ k m. shapes_agree k rows size _ _)

    shape-kind :
        (k : QueryKind) (rows : Double) (size : ℤ) → (shape k (synthetic_info k rows size)).kind ≡ k
    unfolding shape
    shape-kind QueryKind.other rows size = refl
    shape-kind k rows size = refl

    -- Where case is folded as for ASCII names, the name of a kind and the name of a mode are explained,
    -- in any mixture of capitals and small letters: with the score 0 for the kind OTHER, and else with a
    -- score from 15 to 100.
    pub explain_risk-query_kind_name :
        (op mode : CString) (k : QueryKind) (m : SafetyMode) (rows : Double) (size : ℤ)
        (lag : Double)
        → FoldsCase p
        → lower op ≡ query_kind_name k
        → lower mode ≡ lower (safety_mode_name m)
        → (r : ExplainRow) × (explain_risk F p c true op rows size mode lag ≡ done r)
          × (((k ≡ QueryKind.other) × (r.score ≡ pos 0))
              ⊎ ((k ≢ QueryKind.other) × (pos 15 ≤ℤ r.score) × (r.score ≤ℤ pos 100)))
    unfolding explain_risk
    explain_risk-query_kind_name op mode k m rows size lag folds h h' =
        let (known, named) = parse_query_kind-query_kind_name p op mode k m folds h h' in
        let q = shape k (synthetic_info k rows size) in
        let same = shape-kind k rows size in
        (
          _,
          with_names_known op mode _ k m known named,
          elim (assess_query-Explains F c q
              (record (zero_runtime F) { mode = m; max_replication_lag_seconds = lag })) [
                | inl (other, _, score, _) ↦ inl (sym same ∙ other, score)
                | inr (f, listed, _, _, _, _, low, high, _) ↦
                    inr (λ e. listed (same ∙ e), low, high)
              ],
        )
