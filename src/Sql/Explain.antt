-- ===== src/Sql/Explain.antt =====
-- src/pg_circuit.c: pg_circuit_explain_risk and pg_circuit_explain_risk_ex.
pub mod Agree
use pg_circuit.Prelude.{
  ℤ, pos, Bool, true, false, not, if◌then◌else◌, [], Option, none, some, CString, codes, fit,
}
use pg_circuit.Types.{SafetyMode, QueryKind, LockClass, WorkloadClass, Decision, RiskLevel}
use pg_circuit.Platform.{Float, Postgres}
use pg_circuit.Config.{Config}
use pg_circuit.Reporting.{decision_name, risk_level_name}
use pg_circuit.Runtime.{RuntimeState}
use pg_circuit.Risk.{Assessment, QueryInfo}
use pg_circuit.Risk.Assess.{assess_query, format_findings}
use pg_circuit.Risk.Parse.{parse_query_kind, parse_safety_mode}
use pg_circuit.Hooks.{Attempt, done, failed}
use pg_circuit.Collect.{zero_runtime}
use pg_circuit.Sql.{not_a_row, unknown_name}

-- The columns of the result.
pub record ExplainRow : Type 0 where
  pub score : ℤ
  pub decision : CString
  pub level : CString
  pub findings : CString

-- What `values` and `findings` get from an assessment.
abbrev pub explain_row : {D : Type 0} → Assessment D → ExplainRow
explain_row a = record {
  score = a.score;
  decision = decision_name a.decision;
  level = risk_level_name a.level;
  findings = format_findings a;
}

-- The conditions of `pg_circuit_explain_risk_ex`.
unfoldable pub is_heavy : QueryKind → Bool
is_heavy QueryKind.alter_table = true
is_heavy QueryKind.vacuum_full = true
is_heavy QueryKind.cluster = true
is_heavy QueryKind.reindex = true
is_heavy kind = false

module _ {D : Type 0} where
  -- The statement of both functions before its kind is looked at.
  abbrev pub synthetic_info : QueryKind → D → ℤ → QueryInfo D
  synthetic_info kind estimated_rows relation_size = record {
    kind = kind;
    relation_oid = 0;
    relation_name = fit 64 (codes "synthetic");
    relation_qualname = [];
    estimated_rows = estimated_rows;
    relation_size = relation_size;
    has_where = false;
    is_write = true;
    concurrent = false;
    rewrite_likely = false;
    lock_class = LockClass.none;
    workload_class = WorkloadClass.read;
    ddl_detail = [];
  }

  -- The switch of `pg_circuit_explain_risk`.
  unfoldable pub shape : QueryKind → QueryInfo D → QueryInfo D
  shape QueryKind.alter_table q = record q {
    lock_class = LockClass.high;
    rewrite_likely = true;
    ddl_detail = codes "ALTER COLUMN TYPE";
  }
  shape QueryKind.create_index q = record q { lock_class = LockClass.medium }
  shape QueryKind.create_index_concurrently q = record q {
    concurrent = true;
    lock_class = LockClass.low;
  }
  shape QueryKind.reindex q = record q { lock_class = LockClass.high }
  shape QueryKind.vacuum_full q = record q { lock_class = LockClass.high; rewrite_likely = true }
  shape QueryKind.cluster q = record q { lock_class = LockClass.high; rewrite_likely = true }
  shape kind q = q

  unfoldable pub shape_ex : QueryKind → QueryInfo D → QueryInfo D
  unfolding is_heavy
  shape_ex kind q =
      if is_heavy kind
      then record q {
        lock_class = LockClass.high;
        rewrite_likely = elim kind [ QueryKind.reindex ↦ false | _ ↦ true ];
        ddl_detail = codes "synthetic ddl";
      }
      else elim kind [ QueryKind.create_index ↦ record q { lock_class = LockClass.medium } | _ ↦ q ]

module _ (F : Float) (p : Postgres) (c : Config) where
  open F use {Double}

  -- Both functions from the checks of their arguments on; `assess` is the rest.
  unfoldable pub with_names :
      Bool → CString → CString → (QueryKind → SafetyMode → ExplainRow) → Attempt ExplainRow
  with_names is_row op mode_text assess =
      if not is_row then failed not_a_row else elim (parse_query_kind p (some op)) [
        | none ↦ failed (unknown_name (codes "operation") op)
        | some kind ↦ elim (parse_safety_mode p (some mode_text)) [
          | none ↦ failed (unknown_name (codes "runtime_mode") mode_text)
          | some mode ↦ done (assess kind mode)
        ]
      ]

  -- `pg_circuit_explain_risk`; `is_row` is the answer of `get_call_result_type`.
  unfoldable pub explain_risk : Bool → CString → Double → ℤ → CString → Double → Attempt ExplainRow
  unfolding with_names shape
  explain_risk is_row op estimated_rows relation_size mode_text lag =
      with_names is_row op mode_text (λ kind mode. explain_row (
        assess_query F c (shape kind (synthetic_info kind estimated_rows relation_size))
          (record (zero_runtime F) { mode = mode; max_replication_lag_seconds = lag })))

  -- `pg_circuit_explain_risk_ex`
  unfoldable pub explain_risk_ex :
      Bool → CString → Double → ℤ → CString → Double → ℤ → ℤ → Double → Attempt ExplainRow
  unfolding with_names shape_ex
  explain_risk_ex is_row op estimated_rows relation_size mode_text lag blocked blocking max_wait =
      with_names is_row op mode_text (λ kind mode. explain_row (
        assess_query F c (shape_ex kind (synthetic_info kind estimated_rows relation_size))
          (record (zero_runtime F) {
            mode = mode;
            max_replication_lag_seconds = lag;
            blocked_sessions = blocked;
            blocking_sessions = blocking;
            max_lock_wait_seconds = max_wait;
          })))
