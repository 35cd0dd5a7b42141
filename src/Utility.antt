-- ===== src/Utility.antt =====
-- src/utility_analysis.c: classification of utility statements.
pub mod Fill
pub mod Analyze
pub mod Alter
use pg_circuit.Prelude.{
  ℕ, ◌==◌, ltb, ℤ, pos, negsuc, Bool, true, false, not, ◌&&◌, ◌||◌, if◌then◌else◌, List, [], ◌∷◌,
  ◌++◌, Option, some, CString, codes, fit, str_eq,
}
use pg_circuit.Types.{QueryKind, LockClass, WorkloadClass, lock_rank}
use pg_circuit.Platform.{Float}
use pg_circuit.Risk.{QueryInfo}
use pg_circuit.Relations.{Catalog, relation_qualname, relation_size, relation_estimated_tuples}

-- The parse trees of PostgreSQL, as far as the program tells them apart.
pub data ObjectType : Type 0 where
  table column other_object : ObjectType

pub data AlterTableType : Type 0 where
  add_column drop_column alter_column_type set_not_null drop_not_null : AlterTableType
  add_constraint drop_constraint set_table_space set_logged set_unlogged : AlterTableType
  other_command : AlterTableType

-- `value` is what `defGetBoolean` answers; `none` is its error on a value that is no Boolean.
pub record DefElem : Type 0 where
  pub defname : CString
  pub value : Option Bool

pub data Node (RangeVar : Type 0) : Type 0 where
  truncate_stmt : List RangeVar → Node RangeVar
  -- the type, the names of the objects, and `missing_ok`
  drop_stmt : ObjectType → List (List CString) → Bool → Node RangeVar
  dropdb_stmt : Option CString → Node RangeVar
  alter_table_stmt : Option RangeVar → List AlterTableType → Node RangeVar
  rename_stmt : ObjectType → Option RangeVar → Node RangeVar
  index_stmt : Bool → Option RangeVar → Node RangeVar
  reindex_stmt : List DefElem → Option RangeVar → Node RangeVar
  -- `is_vacuumcmd`, the options and the relations
  vacuum_stmt : Bool → List DefElem → List (Option RangeVar) → Node RangeVar
  cluster_stmt : Option RangeVar → Node RangeVar
  other_stmt : Node RangeVar

-- `def_list_has_bool`: the first option of that name counts. `none` is an error.
unfoldable pub def_list_has_bool : List DefElem → CString → Option Bool
def_list_has_bool [] name = some false
def_list_has_bool (opt ∷ options) name =
    let rest = def_list_has_bool options name in if str_eq opt.defname name then opt.value else rest

-- What `classify_alter_table` keeps while it goes through the subcommands.
pub record AlterScan : Type 0 where
  pub worst : LockClass
  pub rewrite : Bool
  pub detail : CString

-- `if (worst < bound) worst = bound`
unfoldable pub raise_to : LockClass → LockClass → LockClass
raise_to bound worst = if ltb (lock_rank worst) (lock_rank bound) then bound else worst

-- One round of the switch in `classify_alter_table`.
unfoldable pub scan_command : AlterTableType → AlterScan → AlterScan
unfolding raise_to
scan_command AlterTableType.add_column s = record s {
  worst = raise_to LockClass.medium s.worst;
  detail = codes "ADD COLUMN";
}
scan_command AlterTableType.drop_column s = record {
  worst = LockClass.high;
  rewrite = true;
  detail = codes "DROP COLUMN";
}
scan_command AlterTableType.alter_column_type s = record {
  worst = LockClass.high;
  rewrite = true;
  detail = codes "ALTER COLUMN TYPE";
}
scan_command AlterTableType.set_not_null s = record s {
  worst = LockClass.high;
  detail = codes "SET NOT NULL";
}
scan_command AlterTableType.drop_not_null s = record s {
  worst = raise_to LockClass.medium s.worst;
  detail = codes "DROP NOT NULL";
}
scan_command AlterTableType.add_constraint s = record s {
  worst = LockClass.high;
  detail = codes "ADD CONSTRAINT";
}
scan_command AlterTableType.drop_constraint s = record s {
  worst = LockClass.high;
  detail = codes "DROP CONSTRAINT";
}
scan_command AlterTableType.set_table_space s = record {
  worst = LockClass.high;
  rewrite = true;
  detail = codes "storage rewrite ALTER";
}
scan_command AlterTableType.set_logged s = record {
  worst = LockClass.high;
  rewrite = true;
  detail = codes "storage rewrite ALTER";
}
scan_command AlterTableType.set_unlogged s = record {
  worst = LockClass.high;
  rewrite = true;
  detail = codes "storage rewrite ALTER";
}
scan_command AlterTableType.other_command s = record s {
  worst = raise_to LockClass.low s.worst;
  detail = codes "ALTER TABLE (other)";
}

unfoldable pub scan_commands : List AlterTableType → AlterScan → AlterScan
unfolding scan_command
scan_commands [] s = s
scan_commands (cmd ∷ cmds) s = scan_commands cmds (scan_command cmd s)

module _ (F : Float) (C : Catalog F.Double) where
  open F use {Double, of_int}
  open C use {RangeVar, relname, get_relid, from_names}

  -- `init_qinfo`
  unfoldable pub init_qinfo : QueryInfo Double
  init_qinfo = record {
    kind = QueryKind.other;
    relation_oid = 0;
    relation_name = [];
    relation_qualname = [];
    estimated_rows = of_int (negsuc 0);
    relation_size = negsuc 0;
    has_where = false;
    is_write = false;
    concurrent = false;
    rewrite_likely = false;
    lock_class = LockClass.none;
    workload_class = WorkloadClass.read;
    ddl_detail = [];
  }

  -- `fill_relation_from_rangevar`
  unfoldable pub fill_relation_from_rangevar : Option RangeVar → QueryInfo Double → QueryInfo Double
  fill_relation_from_rangevar Option.none q = q
  fill_relation_from_rangevar (some rv) q =
      let relid = get_relid rv in
      let named = record q { relation_name = fit 64 (relname rv); relation_oid = relid } in
      if relid == 0 then named else record named {
        relation_qualname = relation_qualname F C relid 130;
        relation_size = relation_size F C relid;
        estimated_rows = relation_estimated_tuples F C relid;
      }

  -- `classify_alter_table`
  unfoldable pub classify_alter_table :
      Option RangeVar → List AlterTableType → QueryInfo Double → QueryInfo Double
  unfolding scan_commands fill_relation_from_rangevar
  classify_alter_table relation cmds q =
      let scan =
        scan_commands cmds
          (record { worst = LockClass.low; rewrite = false; detail = codes "ALTER TABLE" }) in
      let filled =
        fill_relation_from_rangevar relation
          (record q { is_write = true; kind = QueryKind.alter_table }) in
      record filled {
        lock_class = scan.worst;
        rewrite_likely = scan.rewrite;
        ddl_detail = fit 128 scan.detail;
      }

  -- The first assignments that the cases of `pg_circuit_analyze_utility` share.
  abbrev pub mark_write : QueryKind → LockClass → CString → QueryInfo Double → QueryInfo Double
  mark_write kind lock detail q = record q {
    is_write = true;
    kind = kind;
    lock_class = lock;
    ddl_detail = fit 128 detail;
  }
