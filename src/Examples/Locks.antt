-- ===== src/Examples/Locks.antt =====
-- Inputs for the construction of the graph in src/blocker_graph.c, and for src/locks.c.
use pg_circuit.Prelude.{
  ℕ, ◌+◌, ◌≡◌, refl, ℤ, pos, pos_part, ap, subst, inl, inr, leb, List, [], ◌∷◌, length, some, codes,
  arith, true,
}
use pg_circuit.Blockers.{Graph, intern, scan_edge}
use pg_circuit.Blockers.Cycle.{graph_has_cycle}
use pg_circuit.Blockers.Matrix.{get_bit}
use mathlib.Core.List.{Memᴰ}
use pg_circuit.Blockers.Chain.Visit.{Elem}
use pg_circuit.Blockers.Build.Waiting.{Awaits}
use pg_circuit.Blockers.LockTable.{LockTag, LockInstance, LockManager}
use pg_circuit.Blockers.Build.{build_blocker_graph}
use pg_circuit.Blockers.Build.Pairs.{all_edges}
use pg_circuit.Blockers.Build.Correct.{IsGraph, build_blocker_graph-IsGraph}
use pg_circuit.Locks.{collect_lock_signals}
use pg_circuit.Locks.Signals.{AgreesWithLocks, collect_lock_signals-AgreesWithLocks}
use pg_circuit.Examples.Values.{whole, catalog, calm}

-- Ten lock modes, where two strong ones conflict.
abbrev pub manager : LockManager
manager = record {
  do_lock_modes_conflict = λ held awaited. leb 9 (held + awaited);
  max_lockmodes = 10;
  locktag_relation = 0;
  locktag_relation_extend = 1;
  locktag_page = 3;
  locktag_tuple = 4;
  locktag_last_type = 11;
  lock_tag_type_name = λ type. codes "relation";
  lockmode_name = λ mode. codes "ExclusiveLock";
}

abbrev tag : ℕ → LockTag
tag oid = record {
  field1 = 5;
  field2 = oid;
  field3 = 0;
  field4 = 0;
  locktag_type = 0;
  lockmethodid = 1;
}

-- An entry that holds a lock in mode 7, and one that awaits it.
abbrev holds : ℕ → ℕ → LockInstance
holds pid oid = record {
  locktag = tag oid;
  hold_mask = 128;
  wait_lock_mode = 0;
  pid = pos pid;
  wait_start = pos 0;
}

abbrev awaits : ℕ → ℕ → LockInstance
awaits pid oid = record {
  locktag = tag oid;
  hold_mask = 0;
  wait_lock_mode = 7;
  pid = pos pid;
  wait_start = pos 1000000;
}

-- 11 and 12 hold one table each, and each awaits the table of the other. 13 waits for 12, too.
abbrev pub locks : List LockInstance
locks = holds 11 7 ∷ holds 12 8 ∷ awaits 11 8 ∷ awaits 12 7 ∷ awaits 13 8 ∷ []

abbrev pub built : Graph ℤ
built = build_blocker_graph whole catalog manager (pos 9000000) [] (pos 42) (some locks)

pub built_edges : length built.edges ≡ 3
unfolding build_blocker_graph
built_edges = refl

built_sessions : built.blocked_sessions + built.blocking_sessions ≡ 5
unfolding build_blocker_graph
built_sessions = refl

built_cycle : built.has_cycle ≡ true
unfolding build_blocker_graph graph_has_cycle scan_edge intern get_bit
built_cycle = refl

build_blocker_graph-IsGraph_example :
    IsGraph (all_edges whole catalog manager (pos 9000000) [] (pos 42) locks locks) built
build_blocker_graph-IsGraph_example =
    build_blocker_graph-IsGraph whole catalog manager (pos 9000000) [] (pos 42) locks

-- The processes of a lock table.
abbrev pub pids_of : List LockInstance → List ℕ
pids_of [] = []
pids_of (l ∷ ls) = pos_part l.pid ∷ pids_of ls

Mem-pids_of :
    (ls : List LockInstance) (w : LockInstance) → Memᴰ w ls → Elem (pos_part w.pid) (pids_of ls)
Mem-pids_of [] w m = elim m [ ]
Mem-pids_of (l ∷ ls) w (Memᴰ.head e) = inl (ap (λ x. pos_part x.pid) e)
Mem-pids_of (l ∷ ls) w (Memᴰ.tail m) = inr (Mem-pids_of ls w m)

pub Awaits-pids_of :
    (p q : ℕ) → Awaits manager (pos 42) locks p q → Elem p (pids_of locks) × Elem q (pids_of locks)
Awaits-pids_of p q a = (
  subst (λ x. Elem x (pids_of locks)) a.waiter_pid (Mem-pids_of locks a.waiter a.waiter_in),
  subst (λ x. Elem x (pids_of locks)) a.holder_pid (Mem-pids_of locks a.holder a.holder_in),
)

collect_lock_signals-AgreesWithLocks_example :
    AgreesWithLocks whole catalog manager
      (pos 9000000)
      []
      (pos 42)
      locks
      (collect_lock_signals whole catalog manager (pos 9000000) [] (pos 42) (some locks) calm)
collect_lock_signals-AgreesWithLocks_example =
    collect_lock_signals-AgreesWithLocks whole catalog manager (pos 9000000) [] (pos 42) locks
      (pids_of locks) (omega (arith, built_edges)) (omega arith) Awaits-pids_of calm
