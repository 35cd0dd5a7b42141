-- ===== src/Examples/Statements.antt =====
-- Inputs for src/utility_analysis.c and src/hooks.c.
use pg_circuit.Prelude.{
  ℕ, ◌≤◌, ◌≡◌, ◌≢◌, ◌⊎◌, refl, ℤ, pos, true, false, List, [], ◌∷◌, All, none, some, codes, arith,
  add_int,
}
use pg_circuit.Prelude.{◌<◌, length, show_ℕ, show_ℤ}
use mathlib.Core.List.{reverse}
use pg_circuit.Reporting.{decision_name, safety_mode_name}
use pg_circuit.Breaker.{grouped}
use pg_circuit.Breaker.Groups.{IsGrouped}
use pg_circuit.Breaker.Digits.{read_digits, read_digits-grouped}
use pg_circuit.Types.{Decision, QueryKind, LockClass, lock_rank}
use pg_circuit.Risk.Assess.{assess_query, format_findings}
use pg_circuit.Risk.Score.{enforcing}
use pg_circuit.Shmem.{SharedState, fresh_state}
use pg_circuit.Shmem.Ring.Inv.{IsValid}
use pg_circuit.Utility.{ObjectType, AlterTableType, Node, classify_alter_table, init_qinfo}
use pg_circuit.Utility.Alter.{class_of, any_rewrites, Any, classify_alter_table_lem}
use pg_circuit.Utility.Analyze.{analyze_utility}
use pg_circuit.Hooks.{fault_is, utility_may_be_risky, debug_log_decision}
use pg_circuit.Hooks.Chain.{foreign, Hooks}
use pg_circuit.Hooks.Handlers.{Overlay, IsChain, uninstall_hooks-install_hooks}
use pg_circuit.Hooks.Evaluate.{evaluate_and_apply, process_utility}
use pg_circuit.Hooks.Evaluate.Filter.{check_unfiltered, process_utility-filter}
use pg_circuit.Hooks.Evaluate.Outcomes.{MayRaise, evaluate_and_apply-MayRaise}
use pg_circuit.Hooks.Evaluate.Recorded.{Outcome, evaluate_and_apply_lem}
use pg_circuit.Examples.Plans.{delete_all}
use pg_circuit.Examples.Values.{whole, calm, catalog, statement, backend}

abbrev commands : List AlterTableType
commands = AlterTableType.add_column ∷ AlterTableType.set_logged ∷ AlterTableType.add_column ∷ []

classify_alter_table_lem_example :
    let r =
      classify_alter_table whole catalog
        (some (codes "users"))
        commands
        (init_qinfo whole catalog) in
    (r.kind ≡ QueryKind.alter_table)
    × (1 ≤ lock_rank r.lock_class)
    × All (λ cmd. lock_rank (class_of cmd) ≤ lock_rank r.lock_class) commands
    × ((r.lock_class ≡ LockClass.low) ⊎ Any (λ cmd. r.lock_class ≡ class_of cmd) commands)
    × (r.rewrite_likely ≡ any_rewrites commands)
classify_alter_table_lem_example =
    classify_alter_table_lem whole catalog (some (codes "users")) commands
      (init_qinfo whole catalog)

abbrev blank_ring : SharedState ℤ
blank_ring = fresh_state (pos 0) 2

abbrev rename_index : Node (List ℕ)
rename_index = Node.rename_stmt ObjectType.other_object (some (codes "users"))

process_utility-filter_example :
    check_unfiltered whole catalog (backend enforcing) rename_index (some blank_ring)
    ≡ some (process_utility whole catalog (backend enforcing) (some rename_index) (some blank_ring))
unfolding utility_may_be_risky
process_utility-filter_example =
    process_utility-filter whole catalog (backend enforcing) rename_index (some blank_ring) refl

evaluate_and_apply-MayRaise_example :
    MayRaise
      (backend enforcing)
      (evaluate_and_apply whole
        (backend enforcing)
        (statement QueryKind.truncate)
        (some blank_ring)).verdict
evaluate_and_apply-MayRaise_example =
    evaluate_and_apply-MayRaise whole (backend enforcing) (statement QueryKind.truncate)
      (some blank_ring)

blank_ring-IsValid : IsValid blank_ring
unfolding fresh_state
blank_ring-IsValid = record {
  room = omega arith;
  small = omega arith;
  slots = refl;
  head_in = omega arith;
  count_in = omega arith;
}

truncate-listed : QueryKind.truncate ≢ QueryKind.other
truncate-listed e = cc

evaluate_and_apply_lem_example :
    Outcome whole
      (backend enforcing)
      (statement QueryKind.truncate)
      (assess_query whole enforcing (statement QueryKind.truncate) calm)
      blank_ring
      Decision.block
      (evaluate_and_apply whole
        (backend enforcing)
        (statement QueryKind.truncate)
        (some blank_ring))
    × ((evaluate_and_apply whole
          (backend enforcing)
          (statement QueryKind.truncate)
          (some blank_ring)).logged
        ≡ [])
unfolding assess_query fault_is add_int debug_log_decision
evaluate_and_apply_lem_example =
    evaluate_and_apply_lem whole (backend enforcing) (statement QueryKind.truncate)
      (some blank_ring) blank_ring calm (some (codes "app"), some (codes "alice")) truncate-listed
      refl refl refl refl blank_ring-IsValid

abbrev hooks : Hooks
hooks = record {
  planner = record { current = none; prev = none };
  process_utility = record { current = some (foreign 1); prev = none };
  executor_start = record { current = some (foreign 2); prev = none };
  executor_end = record { current = none; prev = none };
}

-- DROP TABLE IF EXISTS of a missing and of an existing table.
abbrev drop_two : Node (List ℕ)
drop_two = Node.drop_stmt ObjectType.table ((codes "missing" ∷ []) ∷ (codes "users" ∷ []) ∷ []) true

-- Another extension has put its function 3 over ours for utility statements alone.
abbrev one_over : Overlay
one_over = record {
  planner = none;
  process_utility = some 3;
  executor_start = none;
  executor_end = none;
}

uninstall_hooks-install_hooks_example :
    IsChain whole catalog hooks one_over
      (backend enforcing)
      none
      (some drop_two)
      (some (some delete_all))
      false
uninstall_hooks-install_hooks_example =
    uninstall_hooks-install_hooks whole catalog hooks one_over (backend enforcing) none
      (some drop_two) (some (some delete_all)) false

drop_two_run : analyze_utility whole catalog false (some drop_two) ≡ some (init_qinfo whole catalog)
unfolding analyze_utility
drop_two_run = refl

grouped_run : grouped 1234 ≡ codes "1,234"
unfolding grouped show_ℕ
grouped_run = refl

read_digits-grouped_example :
    IsGrouped (reverse (grouped 48192211))
    × (read_digits 0 (grouped 48192211) ≡ 48192211)
    × (length (show_ℕ 48192211) < 32)
    × (length (grouped 48192211) < 48)
read_digits-grouped_example = read_digits-grouped 48192211 (omega arith)

-- The line in the log for a TRUNCATE under pg_circuit.debug.
debug_log_run :
    debug_log_decision whole
      (record enforcing { debug = true })
      (statement QueryKind.truncate)
      calm
      (assess_query whole enforcing (statement QueryKind.truncate) calm)
    ≡ codes
        "pg_circuit decision=BLOCK score=90 mode=NORMAL pressure=0 kind=3 rel=public.users rows=300 size=40960\nPGC003 TRUNCATE statement +90\nFinal score: 90/100"
      ∷ []
unfolding debug_log_decision assess_query add_int decision_name safety_mode_name show_ℕ show_ℤ
    format_findings
debug_log_run = refl
