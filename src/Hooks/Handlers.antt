-- ===== src/Hooks/Handlers.antt =====
-- The hooks of src/hooks.c with what they go on to, and the hook variables behind an uninstallation.
use pg_circuit.Prelude.{ℕ, ◌≡◌, refl, Bool, Option, none, some}
use pg_circuit.Platform.{Float}
use pg_circuit.Shmem.{SharedState}
use pg_circuit.Breaker.{Verdict, proceed, raise}
use pg_circuit.Relations.{Catalog}
use pg_circuit.Utility.{Node}
use pg_circuit.QueryAnalysis.{PlannedStmt}
use pg_circuit.Hooks.{Backend, Checked}
use pg_circuit.Hooks.Evaluate.{process_utility, executor_start}
use pg_circuit.Hooks.Chain.{
  Hook, foreign, Slot, Hooks, Next, former, standard, call_next, install_slot, uninstall_slot,
  install_hooks, uninstall_hooks, planner_hook, executor_end_hook, IsInstalled,
}

-- A check, and what is called behind it, if anything is.
pub record Handled (D : Type 0) : Type 0 where
  pub checked : Checked D
  pub next : Option Next

-- An error leaves the hook before the call.
unfoldable pub behind_check : Slot → Verdict → Option Next
unfolding call_next
behind_check s (proceed warnings) = some (call_next s)
behind_check s (raise e) = none

-- Other extensions, loaded later, may have put functions of theirs over ours in some of the four
-- variables.
pub record Overlay : Type 0 where
  pub planner : Option ℕ
  pub process_utility : Option ℕ
  pub executor_start : Option ℕ
  pub executor_end : Option ℕ

abbrev pub overlay_slot : Option ℕ → Slot → Slot
overlay_slot none s = s
overlay_slot (some n) s = record s { current = some (foreign n) }

abbrev pub overlay : Overlay → Hooks → Hooks
overlay o h = record {
  planner = overlay_slot o.planner h.planner;
  process_utility = overlay_slot o.process_utility h.process_utility;
  executor_start = overlay_slot o.executor_start h.executor_start;
  executor_end = overlay_slot o.executor_end h.executor_end;
}

-- A variable that held `before` is left with the function put over ours, or with what it held.
abbrev pub IsLeft : Option ℕ → Option Hook → Option Hook → Type 0
IsLeft none before left = left ≡ before
IsLeft (some n) before left = left ≡ some (foreign n)

-- The hook that was there, or the standard function.
abbrev pub next_of : Option Hook → Next
next_of none = standard
next_of (some h) = former h

-- A statement that may proceed is passed on to what was there; an error passes nothing on.
abbrev pub PassesOn : Option Hook → Verdict → Option Next → Type 0
PassesOn before (proceed warnings) next = next ≡ some (next_of before)
PassesOn before (raise e) next = next ≡ none

module _ (F : Float) (C : Catalog F.Double) where
  open F use {Double}

  -- `pg_circuit_process_utility`
  unfoldable pub process_utility_hook :
      Backend Double
      → Hooks
      → Option (Node C.RangeVar)
      → Option (SharedState Double)
      → Handled Double
  unfolding behind_check
  process_utility_hook b h node shared =
      let c = process_utility F C b node shared in
      record { checked = c; next = behind_check h.process_utility c.verdict }

  -- `pg_circuit_executor_start`
  unfoldable pub executor_start_hook :
      Backend Double
      → Hooks
      → Option (Option (PlannedStmt Double))
      → Bool
      → Option (SharedState Double)
      → Handled Double
  unfolding behind_check
  executor_start_hook b h desc explain_only shared =
      let c = executor_start F C b desc explain_only shared in
      record { checked = c; next = behind_check h.executor_start c.verdict }

  -- What the four hooks do while they are installed, and what is left of them, for the variables `h`
  -- before and the functions `o` put over ours.
  pub record IsChain (h : Hooks) (o : Overlay) (b : Backend Double)
      (m : Option (SharedState Double)) (parsetree : Option (Node C.RangeVar))
      (desc : Option (Option (PlannedStmt Double))) (explain_only : Bool) : Type 0 where
    pub installed : IsInstalled (install_hooks h)
    pub planner_left :
        IsLeft o.planner h.planner.current
          (uninstall_hooks (overlay o (install_hooks h))).planner.current
    pub process_utility_left :
        IsLeft o.process_utility h.process_utility.current
          (uninstall_hooks (overlay o (install_hooks h))).process_utility.current
    pub executor_start_left :
        IsLeft o.executor_start h.executor_start.current
          (uninstall_hooks (overlay o (install_hooks h))).executor_start.current
    pub executor_end_left :
        IsLeft o.executor_end h.executor_end.current
          (uninstall_hooks (overlay o (install_hooks h))).executor_end.current
    pub plans : planner_hook (overlay o (install_hooks h)) ≡ next_of h.planner.current
    pub ends : executor_end_hook (overlay o (install_hooks h)) ≡ next_of h.executor_end.current
    pub utility_passes :
        PassesOn h.process_utility.current
          (process_utility F C b parsetree m).verdict
          (process_utility_hook b (overlay o (install_hooks h)) parsetree m).next
    pub start_passes :
        PassesOn h.executor_start.current
          (executor_start F C b desc explain_only m).verdict
          (executor_start_hook b (overlay o (install_hooks h)) desc explain_only m).next

  slot-IsLeft :
      (o : Option ℕ) (s : Slot)
      → IsLeft o s.current (uninstall_slot (overlay_slot o (install_slot s))).current
  unfolding install_slot uninstall_slot
  slot-IsLeft none s = refl
  slot-IsLeft (some n) s = refl

  call_next-install_slot :
      (o : Option ℕ) (s : Slot) → call_next (overlay_slot o (install_slot s)) ≡ next_of s.current
  unfolding install_slot call_next
  call_next-install_slot o s = by_former o s.current
    where
      by_former :
          (o : Option ℕ) (c : Option Hook)
          → (elim (overlay_slot o (install_slot (record { current = c; prev = none }))).prev
              as (λ x. Next) [ some h ↦ former h | none ↦ standard ])
            ≡ next_of c
      by_former none none = refl
      by_former none (some h) = refl
      by_former (some n) none = refl
      by_former (some n) (some h) = refl

  slot-PassesOn :
      (o : Option ℕ) (s : Slot) (v : Verdict)
      → PassesOn s.current v (behind_check (overlay_slot o (install_slot s)) v)
  unfolding behind_check
  slot-PassesOn o s (proceed warnings) = rw (call_next-install_slot o s) refl
  slot-PassesOn o s (raise e) = refl

  -- Installing puts our four functions into their variables. Each of them goes on to the hook that its variable held before, or to the
  -- standard function where it held none; the two that check a statement do so exactly if the check
  -- does not raise an error. Uninstalling gives back what a variable held before, and leaves alone
  -- exactly the variables in which another extension has put a function of its own since.
  pub uninstall_hooks-install_hooks :
      (h : Hooks) (o : Overlay) (b : Backend Double) (m : Option (SharedState Double))
      (parsetree : Option (Node C.RangeVar)) (desc : Option (Option (PlannedStmt Double)))
      (explain_only : Bool)
      → IsChain h o b m parsetree desc explain_only
  unfolding install_hooks install_slot uninstall_hooks planner_hook executor_end_hook
      process_utility_hook executor_start_hook
  uninstall_hooks-install_hooks h o b m parsetree desc explain_only = record {
    installed = record {
      planner = refl;
      process_utility = refl;
      executor_start = refl;
      executor_end = refl;
    };
    planner_left = slot-IsLeft o.planner h.planner;
    process_utility_left = slot-IsLeft o.process_utility h.process_utility;
    executor_start_left = slot-IsLeft o.executor_start h.executor_start;
    executor_end_left = slot-IsLeft o.executor_end h.executor_end;
    plans = call_next-install_slot o.planner h.planner;
    ends = call_next-install_slot o.executor_end h.executor_end;
    utility_passes = slot-PassesOn o.process_utility h.process_utility _;
    start_passes = slot-PassesOn o.executor_start h.executor_start _;
  }
