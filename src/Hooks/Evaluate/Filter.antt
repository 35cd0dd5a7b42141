-- ===== src/Hooks/Evaluate/Filter.antt =====
-- utility_may_be_risky of src/hooks.c against the full analysis of src/utility_analysis.c.
use pg_circuit.Prelude.{
  ◌≡◌, refl, Bool, true, false, not, ◌&&◌, List, [], ◌∷◌, Option, none, some, codes, arith,
}
use pg_circuit.Platform.{Float}
use pg_circuit.Relations.{Catalog}
use pg_circuit.Shmem.{SharedState}
use pg_circuit.Utility.{ObjectType, DefElem, Node, def_list_has_bool, init_qinfo}
use pg_circuit.Utility.Analyze.{
  analyze_utility, analyze_node, analyze_drop, analyze_rename, analyze_vacuum,
}
use pg_circuit.Hooks.{Backend, Checked, options_has_full, should_skip_check, utility_may_be_risky}
use pg_circuit.Hooks.Evaluate.{evaluate_and_apply, process_utility}

has_full_lem :
    (options : List DefElem)
    → options_has_full options ≡ false
    → def_list_has_bool options (codes "full") ≡ some false
unfolding options_has_full def_list_has_bool
has_full_lem [] h = refl
has_full_lem (opt ∷ options) h = ground (arith, has_full_lem options)

and_false : (b : Bool) → (b && false) ≡ false
and_false true = refl
and_false false = refl

module _ (F : Float) (C : Catalog F.Double) where
  -- What the filter turns away is no risky statement.
  filter_node :
      (node : Node C.RangeVar)
      → utility_may_be_risky (some node) ≡ false
      → analyze_node F C node ≡ some (init_qinfo F C)
  unfolding utility_may_be_risky analyze_node analyze_drop analyze_rename analyze_vacuum
  filter_node (Node.truncate_stmt relations) h = cc
  filter_node (Node.drop_stmt ObjectType.table objects missing_ok) h = cc
  filter_node (Node.drop_stmt ObjectType.column objects missing_ok) h = refl
  filter_node (Node.drop_stmt ObjectType.other_object objects missing_ok) h = refl
  filter_node (Node.dropdb_stmt dbname) h = cc
  filter_node (Node.alter_table_stmt relation cmds) h = cc
  filter_node (Node.rename_stmt ObjectType.table relation) h = cc
  filter_node (Node.rename_stmt ObjectType.column relation) h = cc
  filter_node (Node.rename_stmt ObjectType.other_object relation) h = refl
  filter_node (Node.index_stmt concurrent relation) h = cc
  filter_node (Node.reindex_stmt params relation) h = cc
  filter_node (Node.vacuum_stmt false options rels) h = refl
  filter_node (Node.vacuum_stmt true options rels) h = rw (has_full_lem options h, analyze_vacuum)
  filter_node (Node.cluster_stmt relation) h = cc
  filter_node Node.other_stmt h = refl

  filter_lem :
      (autovacuum : Bool) (node : Option (Node C.RangeVar))
      → utility_may_be_risky node ≡ false
      → analyze_utility F C autovacuum node ≡ some (init_qinfo F C)
  unfolding analyze_utility
  filter_lem autovacuum none h = refl
  filter_lem true (some node) h = refl
  filter_lem false (some node) h = filter_node node h

  -- A check that always analyses a utility statement, with no filter in front.
  unfoldable pub check_unfiltered :
      Backend F.Double → Node C.RangeVar → Option (SharedState F.Double) → Option (Checked F.Double)
  check_unfiltered b node shared = elim (analyze_utility F C b.is_autovacuum_worker (some node)) [
    | none ↦ none
    | some q ↦ some (evaluate_and_apply F b q shared)
  ]

  -- The cheap filter loses nothing: for a statement that it turns away the full analysis raises
  -- no error either, and the check leaves the ring alone and lets the statement go on.
  pub process_utility-filter :
      (b : Backend F.Double) (node : Node C.RangeVar) (shared : Option (SharedState F.Double))
      → utility_may_be_risky (some node) ≡ false
      → check_unfiltered b node shared ≡ some (process_utility F C b (some node) shared)
  unfolding check_unfiltered process_utility evaluate_and_apply init_qinfo
  process_utility-filter b node shared h = rw (
    process_utility,
    h,
    and_false (not (should_skip_check b)),
    check_unfiltered,
    filter_lem b.is_autovacuum_worker (some node) h,
  )
