-- ===== src/QueryAnalysis.antt =====
-- src/query_analysis.c: classification of DELETE and UPDATE from the parse tree or the plan.
pub mod Kinds
pub mod Bound
pub mod Rows
use pg_circuit.Prelude.{
  ℕ, ◌-◌, ◌==◌, ltb, leb, ℤ, pos, negsuc, ltb_ℤ, leb_ℤ, pos_part, Bool, true, false, not, ◌&&◌,
  if◌then◌else◌, List, [], ◌∷◌, length, get_elem?, Option, none, some,
}
use pg_circuit.Types.{QueryKind, LockClass, WorkloadClass}
use pg_circuit.Platform.{Float}
use pg_circuit.Risk.{QueryInfo}
use pg_circuit.Relations.{
  Catalog, relation_name, relation_qualname, relation_estimated_tuples,
  relation_physical_tuple_bound, relation_size,
}

-- The trees of PostgreSQL, as far as the program reads them.
pub data CmdType : Type 0 where
  cmd_delete cmd_update other_command : CmdType

-- `none` is a null entry of the range table, `is_relation` is `rtekind == RTE_RELATION`.
pub record RangeTblEntry : Type 0 where
  pub is_relation : Bool
  pub relid : ℕ

-- `lefttree`: whether it is a `SeqScan`, and whether its `qual` is set.
pub record SubPlan (D : Type 0) : Type 0 where
  pub is_seq_scan : Bool
  pub has_qual : Bool
  pub plan_rows : D

pub record Plan (D : Type 0) : Type 0 where
  pub is_modify_table : Bool
  pub plan_rows : D
  pub lefttree : Option (SubPlan D)

pub record PlannedStmt (D : Type 0) : Type 0 where
  pub command : CmdType
  pub result_relations : List ℕ
  pub rtable : List (Option RangeTblEntry)
  pub plan_tree : Option (Plan D)

-- `jointree` says whether its `quals` are set.
pub record Query : Type 0 where
  pub command : CmdType
  pub result_relation : ℤ
  pub rtable : List (Option RangeTblEntry)
  pub jointree : Option Bool

-- `has_where` for a plan, by its flag and its left tree.
unfoldable pub child_has_where : {D : Type 0} → Bool → Option (SubPlan D) → Bool
child_has_where modifies none = true
child_has_where modifies (some sub) = not (modifies && (sub.is_seq_scan && not sub.has_qual))

unfoldable pub tree_has_where : {D : Type 0} → Option (Plan D) → Bool
unfolding child_has_where
tree_has_where none = true
tree_has_where (some plan) = child_has_where plan.is_modify_table plan.lefttree

-- `rt_fetch(index, rtable)` and the relation that the entry names, or 0.
abbrev pub fetch_relid : ℕ → List (Option RangeTblEntry) → ℕ
fetch_relid index rtable = elim (get_elem? rtable (index - 1)) [
  | some (some rte) ↦ if rte.is_relation then rte.relid else 0
  | some none ↦ 0
  | none ↦ 0
]

-- `result_relation_oid`
unfoldable pub result_relation_oid : Query → ℕ
result_relation_oid q =
    if leb_ℤ q.result_relation (pos 0)
    then 0
    else if ltb_ℤ (pos (length q.rtable)) q.result_relation
    then 0
    else fetch_relid (pos_part q.result_relation) q.rtable

-- `query_has_where`
unfoldable pub query_has_where : Query → Bool
query_has_where q = elim q.jointree [ none ↦ false | some quals ↦ quals ]

module _ (F : Float) (C : Catalog F.Double) where
  open F use {Double, of_int, lt, le}

  abbrev zero_rows : Double
  zero_rows = of_int (pos 0)

  -- `init_qinfo`
  unfoldable pub init_query_info : QueryInfo Double
  init_query_info = record {
    kind = QueryKind.other;
    relation_oid = 0;
    relation_name = [];
    relation_qualname = [];
    estimated_rows = of_int (negsuc 0);
    relation_size = negsuc 0;
    has_where = false;
    is_write = false;
    concurrent = false;
    rewrite_likely = false;
    lock_class = LockClass.none;
    workload_class = WorkloadClass.read;
    ddl_detail = [];
  }

  -- `clamp_estimated_rows`
  unfoldable pub clamp_estimated_rows : ℕ → Double → Double
  unfolding relation_physical_tuple_bound
  clamp_estimated_rows relid rows =
      let bound = relation_physical_tuple_bound F C relid in
      if lt rows zero_rows
      then rows
      else if le zero_rows bound && lt bound rows
      then bound
      else rows

  -- `plan_estimated_rows`
  unfoldable pub plan_estimated_rows : Option (PlannedStmt Double) → Double
  plan_estimated_rows none = of_int (negsuc 0)
  plan_estimated_rows (some stmt) = elim stmt.plan_tree [
    | none ↦ of_int (negsuc 0)
    | some plan ↦
        let below : Double = elim plan.lefttree [
          | none ↦ of_int (negsuc 0)
          | some sub ↦ sub.plan_rows
        ] in
        let own = if lt zero_rows plan.plan_rows then plan.plan_rows else of_int (negsuc 0) in
        let has_below : Bool = elim plan.lefttree [
          | none ↦ false
          | some sub ↦ lt zero_rows sub.plan_rows
        ] in
        if plan.is_modify_table && has_below then below else own
  ]

  -- The rows of a statement: those of the whole table where it has no WHERE and they are known.
  unfoldable pub affected_rows : Bool → ℕ → Double → Double
  unfolding relation_estimated_tuples clamp_estimated_rows
  affected_rows has_where relid rows =
      let tuples = relation_estimated_tuples F C relid in
      clamp_estimated_rows relid
        (if not has_where && not (relid == 0) && lt zero_rows tuples then tuples else rows)

  -- The kind that a command without or with WHERE gets.
  unfoldable pub dml_kind : CmdType → Bool → QueryKind
  dml_kind CmdType.cmd_delete false = QueryKind.delete_no_where
  dml_kind CmdType.cmd_update false = QueryKind.update_no_where
  dml_kind command has_where = QueryKind.other

  -- The assignments that both analyses make for a DELETE or an UPDATE.
  unfoldable pub write_info : CmdType → ℕ → Bool → Double → QueryInfo Double
  unfolding affected_rows dml_kind init_query_info relation_name relation_qualname relation_size
  write_info command relid has_where rows = record init_query_info {
    is_write = true;
    relation_oid = relid;
    relation_name = relation_name F C relid 64;
    relation_qualname = relation_qualname F C relid 130;
    relation_size = relation_size F C relid;
    has_where = has_where;
    estimated_rows = affected_rows has_where relid rows;
    kind = dml_kind command has_where;
  }

  -- `pg_circuit_analyze_query`
  unfoldable pub analyze_query : Option Query → Option (PlannedStmt Double) → QueryInfo Double
  unfolding write_info result_relation_oid query_has_where plan_estimated_rows
  analyze_query none stmt = init_query_info
  analyze_query (some q) stmt = elim q.command [
    | CmdType.other_command ↦ init_query_info
    | command ↦
        write_info command (result_relation_oid q) (query_has_where q) (plan_estimated_rows stmt)
  ]

  -- `resultRelations` of a plan: the first index, if it lies in the range table.
  unfoldable pub planned_relation_oid : PlannedStmt Double → ℕ
  planned_relation_oid stmt = elim stmt.result_relations [
    | [] ↦ 0
    | rti ∷ others ↦
        if ltb 0 rti && leb rti (length stmt.rtable) then fetch_relid rti stmt.rtable else 0
  ]

  -- Whether the plan filters: it does unless a ModifyTable stands over a bare sequential scan.
  unfoldable pub planned_has_where : PlannedStmt Double → Bool
  unfolding tree_has_where
  planned_has_where stmt = tree_has_where stmt.plan_tree

  -- `pg_circuit_analyze_plannedstmt`
  unfoldable pub analyze_plannedstmt : Option (PlannedStmt Double) → QueryInfo Double
  unfolding write_info planned_relation_oid planned_has_where plan_estimated_rows
  analyze_plannedstmt none = init_query_info
  analyze_plannedstmt (some stmt) = elim stmt.command [
    | CmdType.other_command ↦ init_query_info
    | command ↦
        write_info command (planned_relation_oid stmt) (planned_has_where stmt)
          (plan_estimated_rows (some stmt))
  ]
