-- ===== src/Blockers/Build/Conflicts.antt =====
-- The tests of pg_circuit_build_blocker_graph in src/blocker_graph.c, as facts on two lock entries.
use pg_circuit.Prelude.{
  ℕ, zero, suc, ◌+◌, ◌-◌, ◌≤◌, ◌<◌, ◌≡◌, ◌≢◌, ◌↔◌, refl, sym, subst, ℤ, pos, negsuc, pos_part,
  leb_ℤ, Bool, true, false, not, ◌&&◌, ◌||◌, ◌==◌, ==_iff, inl, inr, Bool-cases, arith,
}
use pg_circuit.Transactions.{eq_ℤ}
use pg_circuit.Blockers.LockTable.{
  LockTag, LockInstance, LockManager, locktags_equal, holds_mode, conflicts_from, is_waiter,
  is_blocked_by,
}

locktags_equal_iff : (a b : LockTag) → (locktags_equal a b ≡ true) ↔ (a ≡ b)
unfolding locktags_equal
locktags_equal_iff a b = (λ h. ground arith, λ e. ground arith)

eq_ℤ_iff : (a b : ℤ) → (eq_ℤ a b ≡ true) ↔ (a ≡ b)
eq_ℤ_iff (pos m) (pos n) = ground arith
eq_ℤ_iff (pos m) (negsuc n) = ground arith
eq_ℤ_iff (negsuc m) (pos n) = ground arith
eq_ℤ_iff (negsuc m) (negsuc n) = ground arith

eq_ℤ_ne : (a b : ℤ) → a ≢ b → eq_ℤ a b ≡ false
eq_ℤ_ne a b h = elim (Bool-cases (eq_ℤ a b)) [
  | inl same ↦ absurd (h ((eq_ℤ_iff a b).0 same))
  | inr other ↦ other
]

==_ne : (a b : ℕ) → a ≢ b → (a == b) ≡ false
==_ne a b h = ground arith

leb_ℤ_zero : (a : ℤ) → (leb_ℤ a (pos 0) ≡ false) ↔ ((a ≡ pos (pos_part a)) × (0 < pos_part a))
leb_ℤ_zero (pos n) = ground arith
leb_ℤ_zero (negsuc n) = ground arith

and_true : (a b : Bool) → a && b ≡ true → (a ≡ true) × (b ≡ true)
and_true a b h = ground arith

and3_true : (a b c : Bool) → a && b && c ≡ true → (a ≡ true) × (b ≡ true) × (c ≡ true)
and3_true a b c h = ground arith

and4_true :
    (a b c d : Bool) → a && b && c && d ≡ true → (a ≡ true) × (b ≡ true) × (c ≡ true) × (d ≡ true)
and4_true a b c d h = ground arith

or_false : (a b : Bool) → a || b ≡ false → (a ≡ false) × (b ≡ false)
or_false a b h = ground arith

not-true : {b : Bool} → not b ≡ true → b ≡ false
not-true {b} h = ground arith

-- A mode that is held and conflicts.
pub record Clash (M : LockManager) (mask awaited low high : ℕ) : Type 0 where
  pub mode : ℕ
  pub above : low ≤ mode
  pub below : mode < high
  pub held : holds_mode mask mode ≡ true
  pub conflict : M.do_lock_modes_conflict mode awaited ≡ true

conflicts_from_sound :
    (M : LockManager) (mask awaited mode left : ℕ)
    → conflicts_from M mask awaited mode left ≡ true
    → Clash M mask awaited mode (mode + left)
unfolding conflicts_from
conflicts_from_sound M mask awaited mode zero h = cc
conflicts_from_sound M mask awaited mode (suc left) h =
    elim (Bool-cases (holds_mode mask mode && M.do_lock_modes_conflict mode awaited)) [
      | inl both ↦
          let (held, conflict) = and_true _ _ both in
          record {
            mode = mode;
            above = omega arith;
            below = omega arith;
            held = held;
            conflict = conflict;
          }
      | inr free ↦
          let c = conflicts_from_sound M mask awaited (mode + 1) left (ground arith) in
          record {
            mode = c.mode;
            above = omega (arith, c.above);
            below = omega (arith, c.below);
            held = c.held;
            conflict = c.conflict;
          }
    ]

conflicts_from_complete :
    (M : LockManager) (mask awaited mode left : ℕ)
    → Clash M mask awaited mode (mode + left)
    → conflicts_from M mask awaited mode left ≡ true
unfolding conflicts_from
conflicts_from_complete M mask awaited mode zero c = absurd (omega (arith, c.above, c.below))
conflicts_from_complete M mask awaited mode (suc left) c =
    elim (Bool-cases (holds_mode mask mode && M.do_lock_modes_conflict mode awaited)) [
      | inl both ↦ rw both refl
      | inr free ↦ rw free (
          conflicts_from_complete M mask awaited (mode + 1) left (record {
            mode = c.mode;
            above = elim (Bool-cases (mode == c.mode)) [
              | inl same ↦
                  let e = (==_iff mode c.mode).0 same in
                  let held = subst (λ m. holds_mode mask m ≡ true) (sym e) c.held in
                  let conflict =
                    subst (λ m. M.do_lock_modes_conflict m awaited ≡ true) (sym e) c.conflict in
                  absurd (ground arith)
              | inr other ↦ let low = c.above in ground arith
            ];
            below = omega (arith, c.below);
            held = c.held;
            conflict = c.conflict;
          }))
    ]

-- The entry is that of another process, which awaits a lock.
pub record IsWaiting (my_pid : ℤ) (w : LockInstance) : Type 0 where
  pub process : w.pid ≡ pos (pos_part w.pid)
  pub positive : 0 < pos_part w.pid
  pub awaits : w.wait_lock_mode ≢ 0
  pub other : w.pid ≢ my_pid

pub is_waiter_iff :
    (my_pid : ℤ) (w : LockInstance) → (is_waiter my_pid w ≡ true) ↔ IsWaiting my_pid w
unfolding is_waiter
is_waiter_iff my_pid w = (
  λ h.
      let (live, waits, other) = and3_true _ _ _ h in
      let (process, positive) = (leb_ℤ_zero w.pid).0 (not-true live) in
      record {
        process = process;
        positive = positive;
        awaits = λ e. ground arith;
        other = λ e. let same = (eq_ℤ_iff w.pid my_pid).1 e in ground arith;
      },
  λ i.
      rw ((leb_ℤ_zero w.pid).1 (i.process, i.positive), ==_ne _ _ i.awaits, eq_ℤ_ne _ _ i.other)
        refl,
)

-- The entry is that of another process, which holds the lock in a mode that conflicts with the awaited one.
pub record IsBlocked (M : LockManager) (w h : LockInstance) : Type 0 where
  pub process : h.pid ≡ pos (pos_part h.pid)
  pub positive : 0 < pos_part h.pid
  pub other : h.pid ≢ w.pid
  pub holds : h.hold_mask ≢ 0
  pub same_lock : w.locktag ≡ h.locktag
  pub clash : Clash M h.hold_mask w.wait_lock_mode 1 M.max_lockmodes

pub is_blocked_by_iff :
    (M : LockManager) (w h : LockInstance) → (is_blocked_by M w h ≡ true) ↔ IsBlocked M w h
unfolding is_blocked_by
is_blocked_by_iff M w h = (
  λ e.
      let (there, holds, same, clash) = and4_true _ _ _ _ e in
      let (live, other) = or_false _ _ (not-true there) in
      let (process, positive) = (leb_ℤ_zero h.pid).0 live in
      let c = conflicts_from_sound M h.hold_mask w.wait_lock_mode 1 (M.max_lockmodes - 1) clash in
      record {
        process = process;
        positive = positive;
        other = λ e. let same = (eq_ℤ_iff h.pid w.pid).1 e in ground arith;
        holds = λ e. ground arith;
        same_lock = (locktags_equal_iff w.locktag h.locktag).0 same;
        clash = record {
          mode = c.mode;
          above = c.above;
          below = omega (arith, c.above, c.below);
          held = c.held;
          conflict = c.conflict;
        };
      },
  λ i.
      let c = i.clash in
      let clash =
        conflicts_from_complete M h.hold_mask w.wait_lock_mode 1 (M.max_lockmodes - 1) (record {
          mode = c.mode;
          above = c.above;
          below = omega (arith, c.above, c.below);
          held = c.held;
          conflict = c.conflict;
        }) in
      rw
        (
          (leb_ℤ_zero h.pid).1 (i.process, i.positive),
          eq_ℤ_ne _ _ i.other,
          ==_ne _ _ i.holds,
          (locktags_equal_iff w.locktag h.locktag).1 i.same_lock,
          clash,
        )
        refl,
)
