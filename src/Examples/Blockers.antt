-- ===== src/Examples/Blockers.antt =====
-- Inputs for src/blocker_graph.c.
use pg_circuit.Prelude.{ℕ, ◌≡◌, refl, ℤ, pos, true, false, List, [], ◌∷◌, inl, inr, codes, arith}
use pg_circuit.Blockers.{Edge, pid_index, intern, scan_edge}
use pg_circuit.Blockers.Matrix.{get_bit}
use pg_circuit.Blockers.Cycle.{graph_has_cycle, WaitsFor, one, more}
use pg_circuit.Blockers.Chain.{explore, chain_severity}
use pg_circuit.Blockers.Chain.Severity.{IsExplored, explore-IsExplored}
use pg_circuit.Blockers.Chain.Correct.{IsSeverity, chain_severity_lem}
use pg_circuit.Blockers.Cycle.Correct.{graph_has_cycle_sound, graph_has_cycle_complete}

abbrev edge : ℕ → ℕ → Edge ℤ
edge blocked blocking = record {
  blocked_pid = blocked;
  blocking_pid = blocking;
  blocked_for_seconds = pos 2;
  blocking_transaction_age_seconds = pos 9;
  database_oid = 5;
  relation_oid = 7;
  relation_name = codes "users";
  lock_type = codes "relation";
  lock_mode = codes "ExclusiveLock";
}

-- 11 waits for 12, 12 for 13, and 13 for 11.
abbrev deadlock : List (Edge ℤ)
deadlock = edge 11 12 ∷ edge 12 13 ∷ edge 13 11 ∷ []

-- 11 and 12 wait for 13.
abbrev queue : List (Edge ℤ)
queue = edge 11 13 ∷ edge 12 13 ∷ edge 11 12 ∷ []

queue_run : graph_has_cycle queue ≡ false
unfolding graph_has_cycle get_bit
queue_run = refl

deadlock_run : graph_has_cycle deadlock ≡ true
unfolding graph_has_cycle get_bit
deadlock_run = refl

graph_has_cycle_sound_example : (p : ℕ) × WaitsFor deadlock p p
graph_has_cycle_sound_example = graph_has_cycle_sound deadlock deadlock_run

graph_has_cycle_complete_example : graph_has_cycle deadlock ≡ true
unfolding pid_index
graph_has_cycle_complete_example =
    graph_has_cycle_complete deadlock (11 ∷ 12 ∷ 13 ∷ []) (omega arith)
      ((0, refl), (1, refl), ((1, refl), (2, refl), ((2, refl), (0, refl), tt)))
      (
        11,
        more (inl (refl, refl))
            (more (inr (inl (refl, refl))) (one (inr (inr (inl (refl, refl)))))),
      )

-- 13 is the one root: 11 waits for it directly and through 12, so the depth is 1.
queue_severity : chain_severity queue ≡ (1, 2)
unfolding chain_severity scan_edge intern
queue_severity = refl

-- 14 waits for 13 through 12.
queue_depth : chain_severity (edge 14 12 ∷ edge 12 13 ∷ []) ≡ (2, 2)
unfolding chain_severity scan_edge intern
queue_depth = refl

-- Nobody is a root in a deadlock.
deadlock_severity : chain_severity deadlock ≡ (0, 0)
unfolding chain_severity scan_edge intern
deadlock_severity = refl

explore-IsExplored_example :
    IsExplored (11 ∷ 13 ∷ 12 ∷ []) queue 1 (explore (11 ∷ 13 ∷ 12 ∷ []) queue 1)
explore-IsExplored_example =
    explore-IsExplored (11 ∷ 13 ∷ 12 ∷ []) queue 1 (omega arith) (omega arith)

chain_severity_lem_example : IsSeverity queue (chain_severity queue)
unfolding pid_index
chain_severity_lem_example =
    chain_severity_lem queue (11 ∷ 12 ∷ 13 ∷ []) (omega arith)
      ((0, refl), (2, refl), ((1, refl), (2, refl), ((0, refl), (1, refl), tt)))
