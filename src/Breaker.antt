-- ===== src/Breaker.antt =====
-- src/circuit_breaker.c: the text of a decision, and what a decision does to the statement.
pub mod Groups
pub mod Digits
use pg_circuit.Prelude.{
  ℕ, ◌+◌, ◌%◌, ◌==◌, ltb, pos, ltb_ℤ, not, ◌&&◌, if◌then◌else◌, List, [], ◌∷◌, ◌++◌, CString, codes,
  is_empty, str_eq, show_ℕ, show_ℤ,
}
use mathlib.Core.List.{reverse}
use pg_circuit.Types.{Decision}
use pg_circuit.Platform.{Float}
use pg_circuit.Config.{Config}
use pg_circuit.Reporting.{mode_name, safety_mode_name, decision_name}
use pg_circuit.Runtime.{RuntimeState}
use pg_circuit.Risk.{Assessment, QueryInfo}

-- The loop of `append_grouped_u64` over the digits from the last to the first: `tmp` is what is
-- left of them, `digits` counts those copied.
unfoldable pub group_digits : ℕ → CString → CString
group_digits digits [] = []
group_digits digits (c ∷ tmp) =
    let rest = c ∷ group_digits (digits + 1) tmp in
    if ltb 0 digits && digits % 3 == 0 then b',' ∷ rest else rest

-- `append_grouped_u64`: what it appends.
unfoldable pub grouped : ℕ → CString
unfolding group_digits
grouped value = reverse (group_digits 0 (reverse (show_ℕ value)))

-- The errors and warnings of `ereport`.
pub data SqlState : Type 0 where
  insufficient_privilege internal_error warning other_state : SqlState

pub record Report : Type 0 where
  pub sqlstate : SqlState
  pub message : CString
  pub detail : CString
  pub hint : CString

-- What a step of the check does: it goes on, with the warnings it sent, or raises an error.
pub data Verdict : Type 0 where
  proceed : List Report → Verdict
  raise : Report → Verdict

module _ (F : Float) where
  open F use {Double, of_int, le, to_uint64, show_tenths}

  -- `format_decision_detail`
  unfoldable pub format_decision_detail :
      Config → Assessment Double → RuntimeState Double → QueryInfo Double → CString
  unfolding grouped mode_name safety_mode_name decision_name
  format_decision_detail c a runtime q =
      codes "Risk: "
      ++ show_ℤ a.score
      ++ codes "/100"
      ++ (if le (of_int (pos 0)) q.estimated_rows
          then codes "\nEstimated rows: " ++ grouped (to_uint64 q.estimated_rows)
          else [])
      ++ (if not (is_empty q.relation_qualname)
          then codes "\nRelation: " ++ q.relation_qualname
          else if not (is_empty q.relation_name) && not (str_eq q.relation_name (codes "?"))
          then codes "\nRelation: " ++ q.relation_name
          else [])
      ++ codes "\nOperating mode: "
      ++ mode_name c.mode
      ++ codes "\nRuntime mode: "
      ++ safety_mode_name runtime.mode
      ++ codes "\nPressure: "
      ++ show_ℤ runtime.pressure_score
      ++ codes "/100"
      ++ codes "\nReplication lag: "
      ++ show_tenths runtime.max_replication_lag_seconds
      ++ codes "s"
      ++ (if ltb_ℤ (pos 0) runtime.long_transactions
          then codes "\nLong transactions: " ++ show_ℤ runtime.long_transactions
          else [])
      ++ (if ltb_ℤ (pos 0) runtime.blocked_sessions
          then codes "\nBlocked sessions: " ++ show_ℤ runtime.blocked_sessions
          else [])
      ++ codes "\nDecision: "
      ++ decision_name a.decision

  -- `pg_circuit_apply_decision_ex`; the policy is not read.
  unfoldable pub apply_decision_ex :
      Config → Assessment Double → RuntimeState Double → QueryInfo Double → Verdict
  unfolding format_decision_detail
  apply_decision_ex c a runtime q =
      let rule = if is_empty a.primary_rule then codes "PGC000" else a.primary_rule in
      let detail = format_decision_detail c a runtime q in
      elim a.decision [
        | Decision.allow ↦ proceed []
        | Decision.block ↦ raise (record {
          sqlstate = insufficient_privilege;
          message = codes "PG Circuit [" ++ rule ++ codes "] blocked high-risk operation";
          detail = detail;
          hint =
              codes
                "retry in smaller batches (add WHERE); then SELECT * FROM pg_circuit_events() and pg_circuit_explain_risk(...); adjust pg_circuit.mode or risk_*_threshold";
        })
        | Decision.warn ↦ proceed (
            record {
              sqlstate = warning;
              message = codes "PG Circuit [" ++ rule ++ codes "] high-risk operation";
              detail = detail;
              hint =
                  codes
                    "set pg_circuit.mode=enforce to block, or reduce scope; inspect with pg_circuit_events() / pg_circuit_explain_risk(...)";
            }
            ∷ [])
      ]

  -- `pg_circuit_apply_decision`
  unfoldable pub apply_decision :
      Config → Assessment Double → RuntimeState Double → QueryInfo Double → Verdict
  unfolding apply_decision_ex
  apply_decision c a runtime q = apply_decision_ex c a runtime q

-- `pg_circuit_decide`
unfoldable pub decide : {D : Type 0} → Assessment D → Decision
decide a = a.decision
