-- ===== src/Examples/Plans.antt =====
-- Inputs for src/query_analysis.c, for the WAL sample of src/shmem.c, and for the names.
use pg_circuit.Prelude.{
  ℕ, sub_int64, ◌≡◌, ◌↔◌, ◌⊎◌, refl, ℤ, pos, true, false, List, [], ◌∷◌, none, inl, some, codes,
  arith, str_eq,
}
use pg_circuit.Types.{QueryKind, SafetyMode}
use pg_circuit.Config.{defaults}
use pg_circuit.Platform.{Postgres}
use pg_circuit.Event.{query_kind_name}
use pg_circuit.Reporting.{safety_mode_name}
use pg_circuit.Risk.Parse.{
  lower, FoldsCase, parse_query_kind, parse_safety_mode, parse_query_kind-query_kind_name,
}
use pg_circuit.Shmem.{SharedState, fresh_state}
use pg_circuit.Shmem.Ring.Inv.{IsValid}
use pg_circuit.Shmem.Ring.Refine.{contents}
use pg_circuit.Shmem.Wal.{
  wal_sample_update, wal_cache_read, wal_level, points_of, wal_cache_read-wal_sample_update,
}
use pg_circuit.Pressure.{pressure_score_wal}
use pg_circuit.QueryAnalysis.{cmd_delete, cmd_update, PlannedStmt, analyze_plannedstmt}
use pg_circuit.QueryAnalysis.Kinds.{IsUnfiltered, analyze_plannedstmt_lem}
use pg_circuit.Relations.{relation_estimated_tuples, relation_table_rows_estimate}
use pg_circuit.QueryAnalysis.{Query, analyze_query, planned_relation_oid}
use pg_circuit.QueryAnalysis.Bound.{IsOrdered}
use pg_circuit.QueryAnalysis.Rows.{
  IsCapped, HasCappedRows, analyze_plannedstmt-IsCapped, analyze_plannedstmt-table_rows,
}
use pg_circuit.Utility.{ObjectType, Node}
use pg_circuit.Risk.Score.{enforcing}
use pg_circuit.Hooks.{failed, Backend}
use pg_circuit.Hooks.Evaluate.{injected_failure, process_utility, executor_start}
use pg_circuit.Hooks.Evaluate.Closed.{Raises, IsStrict}
use pg_circuit.Hooks.Evaluate.Stopped.{process_utility-Raises}
use pg_circuit.Examples.Values.{whole, catalog, postgres, backend}

-- DELETE FROM users
abbrev pub delete_all : PlannedStmt ℤ
delete_all = record {
  command = cmd_delete;
  result_relations = 1 ∷ [];
  rtable = some (record { is_relation = true; relid = 7 }) ∷ [];
  plan_tree = some (record {
    is_modify_table = true;
    plan_rows = pos 0;
    lefttree = some (record { is_seq_scan = true; has_qual = false; plan_rows = pos 300 });
  });
}

-- The query of that plan.
abbrev delete_query : Query
delete_query = record {
  command = cmd_delete;
  result_relation = pos 1;
  rtable = some (record { is_relation = true; relid = 7 }) ∷ [];
  jointree = some false;
}

delete_all_run :
    (analyze_plannedstmt whole catalog (some delete_all)).kind ≡ QueryKind.delete_no_where
unfolding analyze_plannedstmt
delete_all_run = refl

analyze_plannedstmt_lem_example :
    let k = (analyze_plannedstmt whole catalog (some delete_all)).kind in
    ((k ≡ QueryKind.delete_no_where)
      ↔ ((delete_all.command ≡ cmd_delete) × IsUnfiltered delete_all.plan_tree))
    × ((k ≡ QueryKind.update_no_where)
        ↔ ((delete_all.command ≡ cmd_update) × IsUnfiltered delete_all.plan_tree))
    × ((k ≡ QueryKind.other) ⊎ (k ≡ QueryKind.delete_no_where) ⊎ (k ≡ QueryKind.update_no_where))
analyze_plannedstmt_lem_example = analyze_plannedstmt_lem whole catalog delete_all

-- A segment with a sample of 1000 bytes at time 0.
abbrev sampled : SharedState ℤ
sampled = record (fresh_state (pos 0) 2) {
  wal = record {
    valid = true;
    wal_bytes = 1000;
    sample_time = pos 0;
    bytes_per_sec = pos 0;
    pressure_level = pos 0;
  };
}

sampled-IsValid : IsValid sampled
unfolding fresh_state
sampled-IsValid = record {
  room = omega arith;
  small = omega arith;
  slots = refl;
  head_in = omega arith;
  count_in = omega arith;
}

-- 9000 bytes in two seconds.
wal_cache_read-wal_sample_update_example :
    let r = wal_sample_update whole defaults 10000 (pos 2000000) (some sampled) in
    (t : SharedState ℤ) × (r.0 ≡ some t)
    × (wal_cache_read whole r.0 ≡ (r.1, r.2))
    × IsValid t
    × (t.events ≡ sampled.events)
    × (contents t ≡ contents sampled)
    × (pressure_score_wal whole defaults (pos 4500)
        ≡ points_of (wal_level whole defaults (pos 4500)))
wal_cache_read-wal_sample_update_example =
    wal_cache_read-wal_sample_update whole defaults 10000 (pos 2000000) sampled (pos 4500)
      sampled-IsValid

sample_run :
    let r = wal_sample_update whole defaults 10000 (pos 2000000) (some sampled) in
    (r.1 ≡ pos 4500) × (r.2 ≡ pos 1)
unfolding wal_sample_update sub_int64
sample_run = (refl, refl)

-- A comparison that folds the case of ASCII letters.
abbrev pub folding : Postgres
folding = record postgres { same_ignoring_case = λ s t. str_eq (lower s) (lower t) }

pub folding-FoldsCase : FoldsCase folding
folding-FoldsCase s t = refl

parse_query_kind-query_kind_name_example :
    (parse_query_kind folding (some (codes "Drop_Table")) ≡ some QueryKind.drop_table)
    × (parse_safety_mode folding (some (codes "Protect")) ≡ some SafetyMode.protect)
unfolding query_kind_name safety_mode_name
parse_query_kind-query_kind_name_example =
    parse_query_kind-query_kind_name folding (codes "Drop_Table") (codes "Protect")
      QueryKind.drop_table SafetyMode.protect folding-FoldsCase refl refl

-- A backend whose collection and names fail, in enforce mode with fail_closed.
abbrev failing : Backend ℤ
failing = record (backend (record enforcing { fail_closed = true })) {
  collect = λ shared. (shared, failed injected_failure);
  names = failed injected_failure;
}

failing-IsStrict : IsStrict failing
failing-IsStrict = record {
  enabled = refl;
  leader = refl;
  no_autovacuum = refl;
  enforces = refl;
  closed = refl;
  threshold = omega arith;
}

abbrev drop_users : Node (List ℕ)
drop_users = Node.drop_stmt ObjectType.table ((codes "users" ∷ []) ∷ []) true

delete_all-IsUnfiltered : IsUnfiltered delete_all.plan_tree
delete_all-IsUnfiltered = record {
  plan = _;
  sub = _;
  is_plan = refl;
  modifies = refl;
  is_sub = refl;
  scans = refl;
  unconditional = refl;
}

process_utility-Raises_example :
    Raises (process_utility whole catalog failing (some drop_users) none).verdict
    × Raises (executor_start whole catalog failing (some (some delete_all)) false none).verdict
process_utility-Raises_example =
    process_utility-Raises whole catalog failing drop_users delete_all none failing-IsStrict refl
      (inl refl) delete_all-IsUnfiltered

whole-IsOrdered : IsOrdered whole
whole-IsOrdered = record {
  irreflexive = λ x. ground arith;
  below_zero = refl;
  one_sided = λ x h. ground arith;
  times_zero = λ n. ground arith;
  product = λ m n. ground arith;
}

analyze_plannedstmt-IsCapped_example :
    HasCappedRows whole catalog (analyze_query whole catalog (some delete_query) (some delete_all))
    × HasCappedRows whole catalog (analyze_plannedstmt whole catalog (some delete_all))
    × IsCapped whole catalog 7 (relation_table_rows_estimate whole catalog 7)
analyze_plannedstmt-IsCapped_example =
    analyze_plannedstmt-IsCapped whole catalog (some delete_query) (some delete_all) 7
      whole-IsOrdered

analyze_plannedstmt-table_rows_example :
    let q = analyze_plannedstmt whole catalog (some delete_all) in
    (q.relation_oid ≡ 7)
    × (q.estimated_rows ≡ relation_table_rows_estimate whole catalog q.relation_oid)
unfolding planned_relation_oid relation_estimated_tuples
analyze_plannedstmt-table_rows_example =
    analyze_plannedstmt-table_rows whole catalog delete_all (inl refl) delete_all-IsUnfiltered
      whole-IsOrdered refl
