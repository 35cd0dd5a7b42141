-- ===== src/Risk/Assess.antt =====
-- src/risk_engine.c: `pg_circuit_assess_query`, the rules PGC001 to PGC016.
use pg_circuit.Prelude.{
  ◌*◌, ℤ, pos, negsuc, leb, ltb_ℤ, leb_ℤ, Bool, ◌&&◌, if◌then◌else◌, List, [], ◌∷◌, ◌++◌, CString,
  codes, is_empty, fit, show_ℤ,
}
use pg_circuit.Types.{QueryKind, LockClass, lock_rank}
use pg_circuit.Platform.{Float}
use pg_circuit.Config.{Config}
use pg_circuit.Runtime.{RuntimeState}
use pg_circuit.Risk.{
  Finding, Assessment, QueryInfo, init_assessment, add_finding, finalize_assessment,
  lock_class_name,
}

-- The score that ALTER TABLE starts from.
unfoldable pub alter_table_base : LockClass → ℤ
alter_table_base lock =
    if leb (lock_rank LockClass.high) (lock_rank lock)
    then pos 60
    else if leb (lock_rank LockClass.medium) (lock_rank lock)
    then pos 45
    else pos 35

-- The `snprintf` into `reason[256]`.
unfoldable pub alter_table_reason : CString → LockClass → Bool → CString
unfolding lock_class_name
alter_table_reason ddl_detail lock rewrite_likely = fit 256 (
    codes "ALTER TABLE high-lock-risk operation ("
    ++ (if is_empty ddl_detail then codes "ALTER TABLE" else ddl_detail)
    ++ codes ", lock class "
    ++ lock_class_name lock
    ++ (if rewrite_likely then codes ", rewrite likely" else [])
    ++ codes ")")

-- A relation of known size below 64 MB takes the lower score.
unfoldable pub create_index_score : ℤ → ℤ
create_index_score size =
    if leb_ℤ (pos 0) size && ltb_ℤ size (pos (64 * 1024 * 1024)) then pos 25 else pos 50

module _ (F : Float) where
  open F use {Double, of_int}

  -- The switch of `pg_circuit_assess_query`, on a fresh assessment.
  unfoldable pub apply_rule : QueryKind → QueryInfo Double → Assessment Double → Assessment Double
  apply_rule QueryKind.delete_no_where q a =
      add_finding a (codes "PGC001") (pos 95) (codes "DELETE without WHERE clause") q.relation_oid
        q.relation_name q.estimated_rows q.relation_size
  apply_rule QueryKind.update_no_where q a =
      add_finding a (codes "PGC002") (pos 95) (codes "UPDATE without WHERE clause") q.relation_oid
        q.relation_name q.estimated_rows q.relation_size
  apply_rule QueryKind.truncate q a =
      add_finding a (codes "PGC003") (pos 90) (codes "TRUNCATE statement") q.relation_oid
        q.relation_name q.estimated_rows q.relation_size
  apply_rule QueryKind.drop_table q a =
      add_finding a (codes "PGC004") (pos 95) (codes "DROP TABLE statement") q.relation_oid
        q.relation_name (of_int (negsuc 0)) q.relation_size
  apply_rule QueryKind.drop_database q a =
      add_finding a (codes "PGC005") (pos 100) (codes "DROP DATABASE statement") 0 q.relation_name
        (of_int (negsuc 0)) (negsuc 0)
  apply_rule QueryKind.alter_table q a =
      add_finding a (codes "PGC012") (alter_table_base q.lock_class)
        (alter_table_reason q.ddl_detail q.lock_class q.rewrite_likely) q.relation_oid
        q.relation_name q.estimated_rows q.relation_size
  apply_rule QueryKind.create_index q a =
      add_finding a (codes "PGC013") (create_index_score q.relation_size)
        (codes "CREATE INDEX without CONCURRENTLY") q.relation_oid q.relation_name q.estimated_rows
        q.relation_size
  apply_rule QueryKind.create_index_concurrently q a =
      add_finding a (codes "PGC013") (pos 15)
        (codes "CREATE INDEX CONCURRENTLY (lower lock impact)") q.relation_oid q.relation_name
        q.estimated_rows q.relation_size
  apply_rule QueryKind.reindex q a =
      if q.concurrent
      then add_finding a (codes "PGC014") (pos 20) (codes "REINDEX CONCURRENTLY") q.relation_oid
          q.relation_name q.estimated_rows q.relation_size
      else add_finding a (codes "PGC014") (pos 55) (codes "REINDEX without CONCURRENTLY")
          q.relation_oid q.relation_name q.estimated_rows q.relation_size
  apply_rule QueryKind.vacuum_full q a =
      add_finding a (codes "PGC015") (pos 70) (codes "VACUUM FULL on relation") q.relation_oid
        q.relation_name q.estimated_rows q.relation_size
  apply_rule QueryKind.cluster q a =
      add_finding a (codes "PGC016") (pos 70) (codes "CLUSTER on relation") q.relation_oid
        q.relation_name q.estimated_rows q.relation_size
  apply_rule QueryKind.other q a = a

  -- `pg_circuit_assess_query`; the runtime state is not read.
  unfoldable pub assess_query : Config → QueryInfo Double → RuntimeState Double → Assessment Double
  unfolding apply_rule alter_table_base alter_table_reason create_index_score add_finding
      init_assessment finalize_assessment
  assess_query c q runtime = finalize_assessment c (apply_rule q.kind q init_assessment)

-- One line of `pg_circuit_format_findings`.
format_finding : {D : Type 0} → Finding D → CString
format_finding f =
    f.rule_id ++ codes " " ++ f.reason ++ codes " +" ++ show_ℤ f.score_contribution ++ codes "\n"

format_all : {D : Type 0} → List (Finding D) → CString
format_all [] = []
format_all (f ∷ fs) = format_finding f ++ format_all fs

-- `pg_circuit_format_findings`
unfoldable pub format_findings : {D : Type 0} → Assessment D → CString
unfolding format_all format_finding
format_findings a = format_all a.findings ++ codes "Final score: " ++ show_ℤ a.score ++ codes "/100"
