-- ===== src/Risk.antt =====
-- src/risk_engine.c: findings, scoring and the decision.
pub mod Assess
pub mod Decide
pub mod Score
pub mod Parse
use pg_circuit.Prelude.{
  ℕ, ◌*◌, ◌^◌, ℤ, pos, negsuc, ltb, leb, ltb_ℤ, leb_ℤ, add_int, Bool, true, false, not, ◌&&◌, ◌||◌,
  if◌then◌else◌, List, [], ◌∷◌, ◌++◌, CString, codes, is_empty, fit,
}
use pg_circuit.Types.{Mode, Decision, RiskLevel, QueryKind, LockClass, WorkloadClass}
use pg_circuit.Platform.{Float}
use pg_circuit.Config.{Config}
use pg_circuit.Reporting.{score_to_level}
use pg_circuit.Runtime.{RuntimeState}

-- `PgCircuitFinding`. The optional `title` and `remediation` stay as `palloc0` leaves them.
pub record Finding (D : Type 0) : Type 0 where
  pub rule_id : CString
  pub level : RiskLevel
  pub score_contribution : ℤ
  pub reason : CString
  pub title : CString
  pub remediation : CString
  pub relation_oid : ℕ
  pub relation_name : CString
  pub estimated_rows : D
  pub relation_size : ℤ

-- `PgCircuitRiskAssessment`
pub record Assessment (D : Type 0) : Type 0 where
  pub score : ℤ
  pub level : RiskLevel
  pub should_warn : Bool
  pub should_block : Bool
  pub decision : Decision
  pub findings : List (Finding D)
  pub primary_rule : CString

-- `PgCircuitQueryInfo`
pub record QueryInfo (D : Type 0) : Type 0 where
  pub kind : QueryKind
  pub relation_oid : ℕ
  pub relation_name : CString
  pub relation_qualname : CString
  pub estimated_rows : D
  pub relation_size : ℤ
  pub has_where : Bool
  pub is_write : Bool
  pub concurrent : Bool
  pub rewrite_likely : Bool
  pub lock_class : LockClass
  pub workload_class : WorkloadClass
  pub ddl_detail : CString

-- `pg_circuit_clamp_score`
unfoldable pub clamp_score : ℤ → ℤ
clamp_score score =
    if ltb_ℤ score (pos 0) then pos 0 else if ltb_ℤ (pos 100) score then pos 100 else score

abbrev gb : ℕ
gb = 1024 * 1024 * 1024

-- `pg_circuit_score_relation_size`
unfoldable pub score_relation_size : ℤ → ℤ
score_relation_size bytes =
    if ltb_ℤ bytes (pos 0)
    then pos 0
    else if leb_ℤ (pos (gb * 100)) bytes
    then pos 15
    else if leb_ℤ (pos (gb * 10)) bytes
    then pos 10
    else if leb_ℤ (pos gb) bytes
    then pos 5
    else pos 0

-- `pg_circuit_lock_class_name`
unfoldable pub lock_class_name : LockClass → CString
lock_class_name LockClass.none = codes "none"
lock_class_name LockClass.low = codes "low"
lock_class_name LockClass.medium = codes "medium"
lock_class_name LockClass.high = codes "high"

-- The switch of `pg_circuit_finalize_assessment`.
unfoldable pub decide_mode : Mode → Bool → Bool → Decision
decide_mode Mode.observe should_warn should_block = Decision.allow
decide_mode Mode.warn should_warn should_block =
    if should_warn then Decision.warn else Decision.allow
decide_mode Mode.enforce should_warn should_block =
    if should_block then Decision.block else if should_warn then Decision.warn else Decision.allow

module _ {D : Type 0} where
  -- `pg_circuit_init_assessment`
  unfoldable pub init_assessment : Assessment D
  init_assessment = record {
    score = pos 0;
    level = RiskLevel.info;
    should_warn = false;
    should_block = false;
    decision = Decision.allow;
    findings = [];
    primary_rule = [];
  }

  -- `pg_circuit_free_assessment`
  unfoldable pub free_assessment : Assessment D → Assessment D
  free_assessment a = record a { findings = [] }

  -- The finding that `pg_circuit_add_finding` allocates.
  unfoldable pub make_finding : CString → ℤ → CString → ℕ → CString → D → ℤ → Finding D
  unfolding score_to_level
  make_finding rule_id contribution reason relation_oid relation_name estimated_rows size = record {
    rule_id = fit 16 rule_id;
    level = score_to_level contribution;
    score_contribution = contribution;
    reason = fit 256 reason;
    title = [];
    remediation = [];
    relation_oid = relation_oid;
    relation_name = fit 64 relation_name;
    estimated_rows = estimated_rows;
    relation_size = size;
  }

  -- `pg_circuit_add_finding`
  unfoldable pub add_finding :
      Assessment D → CString → ℤ → CString → ℕ → CString → D → ℤ → Assessment D
  unfolding make_finding
  add_finding a rule_id contribution reason relation_oid relation_name estimated_rows size =
      record a {
        findings =
            a.findings
            ++ make_finding rule_id contribution reason relation_oid relation_name estimated_rows
                size
              ∷ [];
        score = add_int a.score contribution;
        primary_rule =
            if is_empty a.primary_rule || leb_ℤ (pos 80) contribution
            then fit 16 rule_id
            else a.primary_rule;
      }

  -- `pg_circuit_finalize_assessment`
  unfoldable pub finalize_assessment : Config → Assessment D → Assessment D
  unfolding clamp_score score_to_level decide_mode
  finalize_assessment c a =
      let score = clamp_score a.score in
      let should_warn = leb_ℤ c.risk_warn_threshold score in
      let should_block = leb_ℤ c.risk_block_threshold score in
      record a {
        score = score;
        level = score_to_level score;
        should_warn = should_warn;
        should_block = should_block;
        decision = decide_mode c.mode should_warn should_block;
      }

  -- `pg_circuit_classify_workload`
  unfoldable pub classify_workload : QueryInfo D → WorkloadClass
  classify_workload q = elim q.kind [
    | QueryKind.vacuum_full ↦ WorkloadClass.maintenance
    | QueryKind.cluster ↦ WorkloadClass.maintenance
    | QueryKind.reindex ↦ WorkloadClass.maintenance
    | QueryKind.alter_table ↦ WorkloadClass.ddl
    | QueryKind.create_index ↦ WorkloadClass.ddl
    | QueryKind.create_index_concurrently ↦ WorkloadClass.ddl
    | QueryKind.drop_table ↦ WorkloadClass.ddl
    | QueryKind.drop_database ↦ WorkloadClass.ddl
    | QueryKind.truncate ↦ WorkloadClass.ddl
    | QueryKind.delete_no_where ↦ WorkloadClass.bulk_write
    | QueryKind.update_no_where ↦ WorkloadClass.bulk_write
    | QueryKind.other ↦ if q.is_write then WorkloadClass.oltp_small else WorkloadClass.read
  ]
