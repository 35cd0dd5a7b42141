-- ===== src/QueryAnalysis/Kinds.antt =====
-- Which plans pg_circuit_analyze_plannedstmt of src/query_analysis.c reports.
use pg_circuit.Prelude.{◌≡◌, ◌↔◌, ◌⊎◌, refl, Bool, true, false, Option, none, some, arith}
use pg_circuit.Types.{QueryKind}
use pg_circuit.Platform.{Float}
use pg_circuit.Risk.{QueryInfo}
use pg_circuit.Relations.{Catalog}
use pg_circuit.QueryAnalysis.{
  CmdType, cmd_delete, cmd_update, SubPlan, Plan, PlannedStmt, child_has_where, tree_has_where,
  planned_has_where, planned_relation_oid, plan_estimated_rows, write_info, init_query_info,
  dml_kind, analyze_plannedstmt,
}

module _ {D : Type 0} where
  -- The plan changes the rows of a sequential scan that has no condition.
  pub record IsUnfiltered (tree : Option (Plan D)) : Type 0 where
    pub plan : Plan D
    pub sub : SubPlan D
    pub is_plan : tree ≡ some plan
    pub modifies : plan.is_modify_table ≡ true
    pub is_sub : plan.lefttree ≡ some sub
    pub scans : sub.is_seq_scan ≡ true
    pub unconditional : sub.has_qual ≡ false

  child_has_where-IsUnfiltered :
      (plan : Plan D) (child : Option (SubPlan D))
      → plan.lefttree ≡ child
      → child_has_where plan.is_modify_table child ≡ false
      → IsUnfiltered (some plan)
  unfolding child_has_where
  child_has_where-IsUnfiltered plan none e h = cc
  child_has_where-IsUnfiltered plan (some sub) e h = record {
    plan = plan;
    sub = sub;
    is_plan = refl;
    modifies = ground arith;
    is_sub = e;
    scans = ground arith;
    unconditional = ground arith;
  }

  pub tree_has_where-IsUnfiltered :
      (tree : Option (Plan D)) → (tree_has_where tree ≡ false) ↔ IsUnfiltered tree
  unfolding tree_has_where child_has_where
  tree_has_where-IsUnfiltered tree =
      (unfiltered tree, λ u. rw (u.is_plan, u.modifies, u.is_sub, u.scans, u.unconditional) refl)
    where
      unfiltered : (t : Option (Plan D)) → tree_has_where t ≡ false → IsUnfiltered t
      unfiltered none h = cc
      unfiltered (some plan) h = child_has_where-IsUnfiltered plan plan.lefttree refl h

dml_kind_lem :
    (F : Float) (C : Catalog F.Double) (c : CmdType) (b : Bool)
    → let k = dml_kind F C c b in
      ((k ≡ QueryKind.delete_no_where) ↔ ((c ≡ cmd_delete) × (b ≡ false)))
      × ((k ≡ QueryKind.update_no_where) ↔ ((c ≡ cmd_update) × (b ≡ false)))
      × ((k ≡ QueryKind.other) ⊎ (k ≡ QueryKind.delete_no_where) ⊎ (k ≡ QueryKind.update_no_where))
unfolding dml_kind
dml_kind_lem F C c b = ground arith

module _ (F : Float) (C : Catalog F.Double) where
  open F use {Double}

  analyze_plannedstmt-kind :
      (stmt : PlannedStmt Double)
      → (analyze_plannedstmt F C (some stmt)).kind
        ≡ dml_kind F C stmt.command (tree_has_where stmt.plan_tree)
  unfolding analyze_plannedstmt write_info dml_kind init_query_info
  analyze_plannedstmt-kind stmt =
      elim stmt.command
        as (λ c.
          (elim c as (λ x. QueryInfo Double) [
            | CmdType.other_command ↦ init_query_info F C
            | command ↦
                write_info F C command (planned_relation_oid F C stmt) (planned_has_where F C stmt)
                  (plan_estimated_rows F C (some stmt))
          ]).kind
          ≡ dml_kind F C c (tree_has_where stmt.plan_tree)) [
            | CmdType.other_command ↦ refl
            | _ ↦ refl
          ]

  -- A planned statement is reported as a DELETE without WHERE exactly if it is a DELETE whose plan is
  -- an unconditional sequential scan, in the same way as an UPDATE, and else it is not listed. It is the
  -- plan that is judged, not the text: over any other plan the statement is not listed.
  pub analyze_plannedstmt_lem :
      (stmt : PlannedStmt Double)
      → let k = (analyze_plannedstmt F C (some stmt)).kind in
        ((k ≡ QueryKind.delete_no_where)
          ↔ ((stmt.command ≡ cmd_delete) × IsUnfiltered stmt.plan_tree))
        × ((k ≡ QueryKind.update_no_where)
            ↔ ((stmt.command ≡ cmd_update) × IsUnfiltered stmt.plan_tree))
        × ((k ≡ QueryKind.other)
            ⊎ (k ≡ QueryKind.delete_no_where)
            ⊎ (k ≡ QueryKind.update_no_where))
  analyze_plannedstmt_lem stmt =
      let (delete, update, kinds) = dml_kind_lem F C stmt.command (tree_has_where stmt.plan_tree) in
      let tree = tree_has_where-IsUnfiltered stmt.plan_tree in
      rw (analyze_plannedstmt-kind stmt) (
        (λ h. ((delete.0 h).0, tree.0 (delete.0 h).1), λ u. delete.1 (u.0, tree.1 u.1)),
        (λ h. ((update.0 h).0, tree.0 (update.0 h).1), λ u. update.1 (u.0, tree.1 u.1)),
        kinds,
      )
