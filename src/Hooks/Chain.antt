-- ===== src/Hooks/Chain.antt =====
-- src/hooks.c: installing the four hooks in front of those of other extensions, and taking them out.
use pg_circuit.Prelude.{ℕ, ◌≡◌, Option, none, some}

-- What a hook variable points to: a function of this extension, or one of another.
pub data Hook : Type 0 where
  ours : Hook
  foreign : ℕ → Hook

-- A hook variable of PostgreSQL and the static variable that keeps its former value.
pub record Slot : Type 0 where
  pub current : Option Hook
  pub prev : Option Hook

pub record Hooks : Type 0 where
  pub planner : Slot
  pub process_utility : Slot
  pub executor_start : Slot
  pub executor_end : Slot

unfoldable pub install_slot : Slot → Slot
install_slot s = record { current = some ours; prev = s.current }

unfoldable pub uninstall_slot : Slot → Slot
uninstall_slot s = elim s.current [ some ours ↦ record s { current = s.prev } | _ ↦ s ]

-- `pg_circuit_install_hooks`
unfoldable pub install_hooks : Hooks → Hooks
unfolding install_slot
install_hooks h = record {
  planner = install_slot h.planner;
  process_utility = install_slot h.process_utility;
  executor_start = install_slot h.executor_start;
  executor_end = install_slot h.executor_end;
}

-- `pg_circuit_uninstall_hooks`
unfoldable pub uninstall_hooks : Hooks → Hooks
unfolding uninstall_slot
uninstall_hooks h = record {
  planner = uninstall_slot h.planner;
  process_utility = uninstall_slot h.process_utility;
  executor_start = uninstall_slot h.executor_start;
  executor_end = uninstall_slot h.executor_end;
}

-- What a hook goes on to: the former hook, or the standard function of PostgreSQL.
pub data Next : Type 0 where
  former : Hook → Next
  standard : Next

-- `if (prev_hook) prev_hook(...); else standard_function(...);`
unfoldable pub call_next : Slot → Next
call_next s = elim s.prev [ some h ↦ former h | none ↦ standard ]

-- `pg_circuit_planner` and `pg_circuit_executor_end` do nothing else.
unfoldable pub planner_hook : Hooks → Next
unfolding call_next
planner_hook h = call_next h.planner

unfoldable pub executor_end_hook : Hooks → Next
unfolding call_next
executor_end_hook h = call_next h.executor_end

-- Some hook variables before and after a change of another extension.
pub record Restores (h t : Hooks) : Type 0 where
  pub planner : t.planner.current ≡ h.planner.current
  pub process_utility : t.process_utility.current ≡ h.process_utility.current
  pub executor_start : t.executor_start.current ≡ h.executor_start.current
  pub executor_end : t.executor_end.current ≡ h.executor_end.current

-- Our functions stand in the four variables.
pub record IsInstalled (h : Hooks) : Type 0 where
  pub planner : h.planner.current ≡ some ours
  pub process_utility : h.process_utility.current ≡ some ours
  pub executor_start : h.executor_start.current ≡ some ours
  pub executor_end : h.executor_end.current ≡ some ours
