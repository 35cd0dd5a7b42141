-- ===== src/Blockers/LockTable.antt =====
-- src/blocker_graph.c: the entries of the lock table, and which of them wait for which.
use pg_circuit.Prelude.{
  ℕ, zero, suc, ◌+◌, ◌-◌, ◌/◌, ◌%◌, ◌^◌, ℤ, pos, leb_ℤ, ◌==◌, Bool, true, false, not, ◌&&◌, ◌||◌,
  if◌then◌else◌, CString,
}
use pg_circuit.Transactions.{eq_ℤ}

-- `LOCKTAG`
pub record LockTag : Type 0 where
  pub field1 : ℕ
  pub field2 : ℕ
  pub field3 : ℕ
  pub field4 : ℕ
  pub locktag_type : ℕ
  pub lockmethodid : ℕ

-- `LockInstanceData`, the fields that are read. `hold_mask` has bit `2 ^ mode` for each mode held, and
-- a `wait_lock_mode` of 0 is `NoLock`.
pub record LockInstance : Type 0 where
  pub locktag : LockTag
  pub hold_mask : ℕ
  pub wait_lock_mode : ℕ
  pub pid : ℤ
  pub wait_start : ℤ

-- What the lock manager of PostgreSQL provides: `DoLockModesConflict`, `MAX_LOCKMODES`, the
-- constants of `LockTagType`, `LockTagTypeNames` and `GetLockmodeName`.
pub record LockManager : Type 0 where
  pub do_lock_modes_conflict : ℕ → ℕ → Bool
  pub max_lockmodes : ℕ
  pub locktag_relation : ℕ
  pub locktag_relation_extend : ℕ
  pub locktag_page : ℕ
  pub locktag_tuple : ℕ
  pub locktag_last_type : ℕ
  pub lock_tag_type_name : ℕ → CString
  pub lockmode_name : ℕ → CString

-- `locktags_equal`: the structure has no padding, so `memcmp` compares its fields.
unfoldable pub locktags_equal : LockTag → LockTag → Bool
locktags_equal a b =
    (a.field1 == b.field1)
    && (a.field2 == b.field2)
    && (a.field3 == b.field3)
    && (a.field4 == b.field4)
    && (a.locktag_type == b.locktag_type)
    && (a.lockmethodid == b.lockmethodid)

-- `(mask & LOCKBIT_ON(mode)) != 0`
abbrev pub holds_mode : ℕ → ℕ → Bool
holds_mode mask mode = mask / 2 ^ mode % 2 == 1

-- The loop over the modes from `mode`, with `left` rounds to go.
unfoldable pub conflicts_from : LockManager → ℕ → ℕ → ℕ → ℕ → Bool
conflicts_from M mask awaited mode zero = false
conflicts_from M mask awaited mode (suc left) =
    if holds_mode mask mode && M.do_lock_modes_conflict mode awaited
    then true
    else conflicts_from M mask awaited (mode + 1) left

-- The guards of the outer loop: the entry is that of another process that awaits a lock.
unfoldable pub is_waiter : ℤ → LockInstance → Bool
is_waiter my_pid w =
    not (leb_ℤ w.pid (pos 0)) && not (w.wait_lock_mode == 0) && not (eq_ℤ w.pid my_pid)

-- The guards of the inner loop: the entry holds a mode that conflicts with the one awaited.
unfoldable pub is_blocked_by : LockManager → LockInstance → LockInstance → Bool
unfolding locktags_equal conflicts_from
is_blocked_by M w h =
    not (leb_ℤ h.pid (pos 0) || eq_ℤ h.pid w.pid)
    && not (h.hold_mask == 0)
    && locktags_equal w.locktag h.locktag
    && conflicts_from M h.hold_mask w.wait_lock_mode 1 (M.max_lockmodes - 1)
