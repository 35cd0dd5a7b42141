-- ===== src/Utility/Analyze.antt =====
-- src/utility_analysis.c: `pg_circuit_analyze_utility`.
use pg_circuit.Prelude.{
  ◌==◌, Bool, true, false, ◌&&◌, if◌then◌else◌, List, [], ◌∷◌, Option, none, some, CString, codes,
  fit,
}
use pg_circuit.Types.{QueryKind, LockClass}
use pg_circuit.Platform.{Float}
use pg_circuit.Risk.{QueryInfo}
use pg_circuit.Relations.{Catalog}
use pg_circuit.Utility.{
  ObjectType, DefElem, Node, def_list_has_bool, init_qinfo, fill_relation_from_rangevar,
  classify_alter_table, mark_write,
}

module _ (F : Float) (C : Catalog F.Double) where
  open F use {Double}
  open C use {RangeVar, from_names}

  -- `fill_relation_from_rangevar` of a list's first element; `NULL` on an empty list.
  abbrev fill_first : List (Option RangeVar) → QueryInfo Double → QueryInfo Double
  fill_first [] q = q
  fill_first (rv ∷ rvs) q = fill_relation_from_rangevar F C rv q

  -- `case T_TruncateStmt`
  unfoldable pub analyze_truncate : List RangeVar → QueryInfo Double
  analyze_truncate relations =
      let q =
        mark_write F C QueryKind.truncate LockClass.high (codes "TRUNCATE") (init_qinfo F C) in
      elim relations [ [] ↦ q | rv ∷ rvs ↦ fill_relation_from_rangevar F C (some rv) q ]

  -- `case T_DropStmt`
  unfoldable pub analyze_drop : ObjectType → List (List CString) → Bool → QueryInfo Double
  analyze_drop ObjectType.table [] missing_ok =
      mark_write F C QueryKind.drop_table LockClass.high (codes "DROP TABLE") (init_qinfo F C)
  analyze_drop ObjectType.table (name ∷ names) missing_ok =
      let q = fill_relation_from_rangevar F C (some (from_names name)) (
        mark_write F C QueryKind.drop_table LockClass.high (codes "DROP TABLE") (init_qinfo F C)) in
      if missing_ok && q.relation_oid == 0 then init_qinfo F C else q
  analyze_drop ObjectType.column objects missing_ok = init_qinfo F C
  analyze_drop ObjectType.other_object objects missing_ok = init_qinfo F C

  -- `case T_DropdbStmt`
  unfoldable pub analyze_dropdb : Option CString → QueryInfo Double
  analyze_dropdb dbname =
      let q =
        mark_write F C QueryKind.drop_database LockClass.high (codes "DROP DATABASE")
          (init_qinfo F C) in
      elim dbname [ none ↦ q | some name ↦ record q { relation_name = fit 64 name } ]

  -- `case T_RenameStmt`
  unfoldable pub analyze_rename : ObjectType → Option RangeVar → QueryInfo Double
  analyze_rename ObjectType.table relation =
      fill_relation_from_rangevar F C relation (
        mark_write F C QueryKind.alter_table LockClass.high (codes "RENAME TABLE") (init_qinfo F C))
  analyze_rename ObjectType.column relation =
      fill_relation_from_rangevar F C relation (
        mark_write F C QueryKind.alter_table LockClass.high (codes "RENAME COLUMN")
          (init_qinfo F C))
  analyze_rename ObjectType.other_object relation = init_qinfo F C

  -- `case T_IndexStmt`
  unfoldable pub analyze_index : Bool → Option RangeVar → QueryInfo Double
  analyze_index concurrent relation =
      let q = fill_relation_from_rangevar F C relation (init_qinfo F C) in
      record (if concurrent
        then mark_write F C QueryKind.create_index_concurrently LockClass.low
            (codes "CREATE INDEX CONCURRENTLY") q
        else mark_write F C QueryKind.create_index LockClass.medium (codes "CREATE INDEX") q) {
          concurrent = concurrent;
        }

  -- `case T_ReindexStmt`; `none` is an error on a bad option.
  unfoldable pub analyze_reindex : List DefElem → Option RangeVar → Option (QueryInfo Double)
  analyze_reindex params relation = elim (def_list_has_bool params (codes "concurrently")) [
    | none ↦ none
    | some concurrent ↦ some (
        fill_relation_from_rangevar F C relation
          (record (mark_write F C QueryKind.reindex
            (if concurrent then LockClass.low else LockClass.high)
            (if concurrent then codes "REINDEX CONCURRENTLY" else codes "REINDEX")
            (init_qinfo F C)) { concurrent = concurrent }))
  ]

  -- `case T_VacuumStmt`
  unfoldable pub analyze_vacuum :
      Bool → List DefElem → List (Option RangeVar) → Option (QueryInfo Double)
  analyze_vacuum false options rels = some (init_qinfo F C)
  analyze_vacuum true options rels = elim (def_list_has_bool options (codes "full")) [
    | none ↦ none
    | some false ↦ some (init_qinfo F C)
    | some true ↦ some (
        fill_first rels
          (record (mark_write F C QueryKind.vacuum_full LockClass.high (codes "VACUUM FULL")
            (init_qinfo F C)) { rewrite_likely = true }))
  ]

  -- `case T_ClusterStmt`
  unfoldable pub analyze_cluster : Option RangeVar → QueryInfo Double
  analyze_cluster relation =
      fill_relation_from_rangevar F C relation
        (record (mark_write F C QueryKind.cluster LockClass.high (codes "CLUSTER")
          (init_qinfo F C)) { rewrite_likely = true })

  -- The switch of `pg_circuit_analyze_utility`.
  unfoldable pub analyze_node : Node RangeVar → Option (QueryInfo Double)
  analyze_node (Node.truncate_stmt relations) = some (analyze_truncate relations)
  analyze_node (Node.drop_stmt type objects missing_ok) =
      some (analyze_drop type objects missing_ok)
  analyze_node (Node.dropdb_stmt dbname) = some (analyze_dropdb dbname)
  analyze_node (Node.alter_table_stmt relation cmds) =
      some (classify_alter_table F C relation cmds (init_qinfo F C))
  analyze_node (Node.rename_stmt type relation) = some (analyze_rename type relation)
  analyze_node (Node.index_stmt concurrent relation) = some (analyze_index concurrent relation)
  analyze_node (Node.reindex_stmt params relation) = analyze_reindex params relation
  analyze_node (Node.vacuum_stmt is_vacuumcmd options rels) =
      analyze_vacuum is_vacuumcmd options rels
  analyze_node (Node.cluster_stmt relation) = some (analyze_cluster relation)
  analyze_node Node.other_stmt = some (init_qinfo F C)

  -- `pg_circuit_analyze_utility`; the flag is `AmAutoVacuumWorkerProcess()`.
  unfoldable pub analyze_utility : Bool → Option (Node RangeVar) → Option (QueryInfo Double)
  unfolding analyze_node analyze_truncate analyze_drop analyze_dropdb classify_alter_table
      analyze_rename analyze_index analyze_reindex analyze_vacuum analyze_cluster def_list_has_bool
      init_qinfo fill_relation_from_rangevar
  analyze_utility autovacuum none = some (init_qinfo F C)
  analyze_utility true (some node) = some (init_qinfo F C)
  analyze_utility false (some node) = analyze_node node
