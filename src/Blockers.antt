-- ===== src/Blockers.antt =====
-- include/blocker_graph.h and src/blocker_graph.c: the graph of sessions that wait for others.
pub mod Matrix
pub mod Warshall
pub mod Numbering
pub mod Cycle
pub mod Chain
pub mod LockTable
pub mod Build
use pg_circuit.Prelude.{
  ℕ, zero, suc, ◌+◌, ℤ, pos, leb, ◌==◌, Bool, true, false, if◌then◌else◌, List, [], ◌∷◌, ◌++◌,
  length, Option, none, some, CString,
}
use pg_circuit.Platform.{Float}

-- `PgCircuitBlockerEdge`. A process id is a number; the lock manager never shows a negative one.
pub record Edge (D : Type 0) : Type 0 where
  pub blocked_pid : ℕ
  pub blocking_pid : ℕ
  pub blocked_for_seconds : D
  pub blocking_transaction_age_seconds : D
  pub database_oid : ℕ
  pub relation_oid : ℕ
  pub relation_name : CString
  pub lock_type : CString
  pub lock_mode : CString

-- `PgCircuitBlockerGraph`
pub record Graph (D : Type 0) : Type 0 where
  pub edges : List (Edge D)
  pub blocked_sessions : ℕ
  pub blocking_sessions : ℕ
  pub max_blocked_for_seconds : D
  pub has_cycle : Bool
  pub max_chain_depth : ℕ
  pub max_descendant_count : ℕ

-- `pg_circuit_blocker_graph_init`
unfoldable pub blocker_graph_init : (F : Float) → Graph F.Double
blocker_graph_init F = record {
  edges = [];
  blocked_sessions = 0;
  blocking_sessions = 0;
  max_blocked_for_seconds = F.decimal 0 1;
  has_cycle = false;
  max_chain_depth = 0;
  max_descendant_count = 0;
}

-- `pg_circuit_blocker_graph_free`
unfoldable pub blocker_graph_free : {D : Type 0} → Graph D → Graph D
blocker_graph_free graph = record graph { edges = [] }

abbrev pub max_blocker_edges : ℕ
max_blocker_edges = 256

abbrev pub max_blocker_pids : ℕ
max_blocker_pids = 64

-- `pid_index`: `pids` is the filled part of the array, and `none` is -1.
unfoldable pub pid_index : List ℕ → ℕ → Option ℕ
pid_index [] pid = none
pid_index (p ∷ pids) pid =
    let rest : Option ℕ = elim (pid_index pids pid) [ some k ↦ some (suc k) | none ↦ none ] in
    if p == pid then some 0 else rest

-- The index of a process id, which is added if there is room (`none` is the `continue`).
unfoldable pub intern : List ℕ → ℕ → Option (ℕ × List ℕ)
unfolding pid_index
intern pids pid = elim (pid_index pids pid) [
  | some k ↦ some (k, pids)
  | none ↦ if leb max_blocker_pids (length pids) then none else some (length pids, pids ++ pid ∷ [])
]

-- The loop over the edges that `graph_has_cycle` and `compute_chain_severity` share: `mark` is what
-- either does with the two indices.
module _ {D S : Type 0} (mark : ℕ → ℕ → S → S) where
  unfoldable pub scan_edge : Edge D → List ℕ × S → List ℕ × S
  scan_edge e (pids, s) = elim (intern pids e.blocked_pid) [
    | none ↦ (pids, s)
    | some (a, pids') ↦ elim (intern pids' e.blocking_pid) [
      | none ↦ (pids', s)
      | some (b, pids'') ↦ (pids'', mark a b s)
    ]
  ]

  unfoldable pub scan_edges : List (Edge D) → List ℕ × S → List ℕ × S
  scan_edges [] st = st
  scan_edges (e ∷ es) st = scan_edges es (scan_edge e st)
