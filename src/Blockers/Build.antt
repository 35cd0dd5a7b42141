-- ===== src/Blockers/Build.antt =====
-- src/blocker_graph.c: pg_circuit_build_blocker_graph, from the entries of the lock table to the graph.
pub mod Rosters
pub mod Pairs
pub mod Loops
pub mod Conflicts
pub mod Waiting
pub mod Correct
use pg_circuit.Prelude.{
  ℕ, zero, suc, ◌+◌, ◌-◌, ◌/◌, ◌%◌, ◌^◌, ℤ, pos, pos_part, ltb, leb, leb_ℤ, ltb_ℤ, sub_int64, ◌==◌,
  Bool, true, false, not, ◌&&◌, ◌||◌, if◌then◌else◌, List, [], ◌∷◌, ◌++◌, length, Option, none,
  some, CString, codes, fit,
}
use pg_circuit.Platform.{Float}
use pg_circuit.Relations.{Catalog, relation_name}
use pg_circuit.Transactions.{BackendStatus, eq_ℤ}
use pg_circuit.Blockers.{blocker_graph_init, Edge, Graph, max_blocker_edges}
use pg_circuit.Blockers.Cycle.{graph_has_cycle}
use pg_circuit.Blockers.Chain.{chain_severity}
use pg_circuit.Blockers.LockTable.{
  LockTag, LockInstance, LockManager, locktags_equal, holds_mode, conflicts_from, is_waiter,
  is_blocked_by,
}

-- `k` among the first entries of `blocked_pids` or `blocking_pids`
unfoldable pub seen : List ℕ → ℕ → Bool
seen [] pid = false
seen (p ∷ pids) pid = (p == pid) || seen pids pid

unfoldable pub note_pid : List ℕ → ℕ → List ℕ
unfolding seen
note_pid pids pid =
    if not (seen pids pid) && ltb (length pids) max_blocker_edges then pids ++ pid ∷ [] else pids

-- The variables of the scan.
pub record Scan (D : Type 0) : Type 0 where
  pub edges : List (Edge D)
  pub blocked_pids : List ℕ
  pub blocking_pids : List ℕ
  pub max_blocked_for_seconds : D

-- How a part of the scan ends: the loops go on, or `goto done_scan`.
pub data Flow (D : Type 0) : Type 0 where
  going : Scan D → Flow D
  done_scan : Scan D → Flow D

module _ (F : Float) where
  open F use {Double, of_int, decimal, div, lt}

  -- `pid_xact_age_seconds`; `none` is a null entry.
  unfoldable pub pid_xact_age_seconds : ℤ → ℤ → List (Option BackendStatus) → Double
  pid_xact_age_seconds pid now [] = decimal 0 1
  pid_xact_age_seconds pid now (none ∷ entries) = pid_xact_age_seconds pid now entries
  pid_xact_age_seconds pid now (some e ∷ entries) =
      let rest = pid_xact_age_seconds pid now entries in
      if not (eq_ℤ e.procpid pid)
      then rest
      else if eq_ℤ e.xact_start (pos 0)
      then decimal 0 1
      else div (of_int (sub_int64 now e.xact_start)) (decimal 1000000 1)

  -- `blocked_for`
  unfoldable pub blocked_for : ℤ → LockInstance → Double
  blocked_for now w =
      let seconds = div (of_int (sub_int64 now w.wait_start)) (decimal 1000000 1) in
      if ltb_ℤ (pos 0) w.wait_start
      then if lt seconds (decimal 0 1) then decimal 0 1 else seconds
      else decimal 0 1

  -- The types of lock tags whose first fields are a database and a relation.
  unfoldable pub is_relation_tag : LockManager → ℕ → Bool
  is_relation_tag M type =
      (type == M.locktag_relation)
      || (type == M.locktag_relation_extend)
      || (type == M.locktag_page)
      || (type == M.locktag_tuple)

  module _ (C : Catalog Double) (M : LockManager) where
    -- `fill_relation_from_locktag`
    unfoldable pub fill_relation_from_locktag : LockTag → Edge Double → Edge Double
    unfolding is_relation_tag
    fill_relation_from_locktag tag e =
        if is_relation_tag M tag.locktag_type
        then record e {
          database_oid = tag.field1;
          relation_oid = tag.field2;
          relation_name = if tag.field2 == 0 then [] else relation_name F C tag.field2 64;
        }
        else record e { database_oid = 0; relation_oid = 0; relation_name = [] }

    module _ (now : ℤ) (backends : List (Option BackendStatus)) where
      -- The edge of a waiter and a holder.
      unfoldable pub make_edge : LockInstance → LockInstance → Edge Double
      unfolding fill_relation_from_locktag pid_xact_age_seconds
      make_edge w h = fill_relation_from_locktag w.locktag (record {
        blocked_pid = pos_part w.pid;
        blocking_pid = pos_part h.pid;
        blocked_for_seconds = blocked_for now w;
        blocking_transaction_age_seconds = pid_xact_age_seconds h.pid now backends;
        database_oid = 0;
        relation_oid = 0;
        relation_name = [];
        lock_type = fit 32 (
            if ltb w.locktag.locktag_type M.locktag_last_type
            then M.lock_tag_type_name w.locktag.locktag_type
            else codes "?");
        lock_mode = fit 32 (M.lockmode_name w.wait_lock_mode);
      })

      -- The end of a round of the inner loop.
      unfoldable pub add_edge : LockInstance → LockInstance → Scan Double → Scan Double
      unfolding make_edge note_pid
      add_edge w h s = record s {
        edges = s.edges ++ make_edge w h ∷ [];
        blocked_pids = note_pid s.blocked_pids (pos_part w.pid);
        blocking_pids = note_pid s.blocking_pids (pos_part h.pid);
      }

      -- One round of the inner loop.
      unfoldable pub scan_holder : LockInstance → LockInstance → Scan Double → Flow Double
      unfolding is_blocked_by add_edge
      scan_holder w h s =
          if not (is_blocked_by M w h)
          then going s
          else if leb max_blocker_edges (length s.edges)
          then done_scan s
          else going (add_edge w h s)

      unfoldable pub scan_holders : LockInstance → List LockInstance → Scan Double → Flow Double
      unfolding scan_holder
      scan_holders w [] s = going s
      scan_holders w (h ∷ hs) s = elim (scan_holder w h s) [
        | going s' ↦ scan_holders w hs s'
        | done_scan s' ↦ done_scan s'
      ]

      -- `if (blocked_for > graph->max_blocked_for_seconds)`
      unfoldable pub note_wait : LockInstance → Scan Double → Scan Double
      unfolding blocked_for
      note_wait w s = record s {
        max_blocked_for_seconds =
            if lt s.max_blocked_for_seconds (blocked_for now w)
            then blocked_for now w
            else s.max_blocked_for_seconds;
      }

      module _ (my_pid : ℤ) (locks : List LockInstance) where
        -- One round of the outer loop.
        unfoldable pub scan_waiter : LockInstance → Scan Double → Flow Double
        unfolding is_waiter note_wait scan_holders
        scan_waiter w s =
            if is_waiter my_pid w then scan_holders w locks (note_wait w s) else going s

        unfoldable pub scan_waiters : List LockInstance → Scan Double → Flow Double
        unfolding scan_waiter
        scan_waiters [] s = going s
        scan_waiters (w ∷ ws) s = elim (scan_waiter w s) [
          | going s' ↦ scan_waiters ws s'
          | done_scan s' ↦ done_scan s'
        ]

abbrev pub scan_of : {D : Type 0} → Flow D → Scan D
scan_of (Flow.going s) = s
scan_of (Flow.done_scan s) = s

-- What stands behind `done_scan`.
unfoldable pub finish_graph : {D : Type 0} → Scan D → Graph D
finish_graph s =
    let (depth, descendants) = chain_severity s.edges in
    record {
      edges = s.edges;
      blocked_sessions = length s.blocked_pids;
      blocking_sessions = length s.blocking_pids;
      max_blocked_for_seconds = s.max_blocked_for_seconds;
      has_cycle = graph_has_cycle s.edges;
      max_chain_depth = depth;
      max_descendant_count = descendants;
    }

-- `pg_circuit_build_blocker_graph`; `none` is a null `lockData`.
unfoldable pub build_blocker_graph :
    (F : Float)
    → Catalog F.Double
    → LockManager
    → ℤ
    → List (Option BackendStatus)
    → ℤ
    → Option (List LockInstance)
    → Graph F.Double
unfolding blocker_graph_init finish_graph scan_waiters
build_blocker_graph F C M now backends my_pid none = blocker_graph_init F
build_blocker_graph F C M now backends my_pid (some locks) = finish_graph (
    scan_of (
      scan_waiters F C M now backends my_pid locks locks (record {
        edges = [];
        blocked_pids = [];
        blocking_pids = [];
        max_blocked_for_seconds = F.decimal 0 1;
      })))
