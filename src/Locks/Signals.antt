-- ===== src/Locks/Signals.antt =====
-- What the lock signals of src/locks.c say of the lock table.
use pg_circuit.Prelude.{
  ℕ, ◌≤◌, ◌<◌, ◌≡◌, ◌↔◌, refl, ap, ℤ, pos, true, List, [], ◌∷◌, length, Option, some, inl, inr,
}
use pg_circuit.Platform.{Float}
use pg_circuit.Relations.{Catalog}
use pg_circuit.Runtime.{RuntimeState}
use pg_circuit.Transactions.{BackendStatus}
use pg_circuit.Blockers.{Edge, Graph}
use pg_circuit.Blockers.Cycle.{Waits}
use pg_circuit.Blockers.Chain.Visit.{Elem}
use pg_circuit.Blockers.Chain.Marks.{Some}
use pg_circuit.Blockers.LockTable.{LockInstance, LockManager}
use pg_circuit.Blockers.Build.{build_blocker_graph}
use pg_circuit.Blockers.Build.Rosters.{Distinct}
use pg_circuit.Blockers.Build.Waiting.{Awaits, AwaitsFor}
use pg_circuit.Blockers.Build.Correct.{
  build_blocker_graph-IsGraph, build_blocker_graph-deadlock, edges-Awaits, Awaits-edges,
}
use pg_circuit.Locks.{collect_lock_signals}

-- A number counts the processes that have `P`.
pub record Counts (P : ℕ → Type 0) (n : ℤ) : Type 0 where
  pub pids : List ℕ
  pub distinct : Distinct pids
  pub members : (p : ℕ) → Elem p pids ↔ P p
  pub number : n ≡ pos (length pids)

module _ {D : Type 0} where
  Waits-Some :
      (es : List (Edge D)) (p q : ℕ) → Waits es p q → Some (λ (e : Edge D). e.blocked_pid ≡ p) es
  Waits-Some [] p q w = absurd w
  Waits-Some (e ∷ es) p q (inl (here, _)) = inl here
  Waits-Some (e ∷ es) p q (inr w) = inr (Waits-Some es p q w)

  Some-Waits :
      (es : List (Edge D)) (p : ℕ)
      → Some (λ (e : Edge D). e.blocked_pid ≡ p) es
      → (q : ℕ) × Waits es p q
  Some-Waits [] p m = absurd m
  Some-Waits (e ∷ es) p (inl here) = (e.blocking_pid, inl (here, refl))
  Some-Waits (e ∷ es) p (inr m) = let (q, w) = Some-Waits es p m in (q, inr w)

  Waits-Some_blocking :
      (es : List (Edge D)) (p q : ℕ) → Waits es p q → Some (λ (e : Edge D). e.blocking_pid ≡ q) es
  Waits-Some_blocking [] p q w = absurd w
  Waits-Some_blocking (e ∷ es) p q (inl (_, here)) = inl here
  Waits-Some_blocking (e ∷ es) p q (inr w) = inr (Waits-Some_blocking es p q w)

  Some-blocking-Waits :
      (es : List (Edge D)) (q : ℕ)
      → Some (λ (e : Edge D). e.blocking_pid ≡ q) es
      → (p : ℕ) × Waits es p q
  Some-blocking-Waits [] q m = absurd m
  Some-blocking-Waits (e ∷ es) q (inl here) = (e.blocked_pid, inl (refl, here))
  Some-blocking-Waits (e ∷ es) q (inr m) = let (p, w) = Some-blocking-Waits es q m in (p, inr w)

module _ (F : Float) (C : Catalog F.Double) (M : LockManager) (now : ℤ)
    (backends : List (Option BackendStatus)) (my_pid : ℤ) (locks : List LockInstance) where
  abbrev graph : Graph F.Double
  graph = build_blocker_graph F C M now backends my_pid (some locks)

  -- The signals agree with the lock table.
  pub record AgreesWithLocks (st : RuntimeState F.Double) : Type 0 where
    pub blocked : Counts (λ p. (q : ℕ) × Awaits M my_pid locks p q) st.blocked_sessions
    pub blocking : Counts (λ q. (p : ℕ) × Awaits M my_pid locks p q) st.blocking_sessions
    pub cycle : (st.lock_cycle_detected ≡ true) ↔ ((p : ℕ) × AwaitsFor M my_pid locks p p)

  -- With fewer than 256 edges and at most 64 processes that await another or that another awaits, the
  -- signals count the processes that await another and those that another awaits, and report a cycle
  -- exactly if a process awaits itself, directly or through others.
  pub collect_lock_signals-AgreesWithLocks :
      (known : List ℕ)
      → length graph.edges < 256
      → length known ≤ 64
      → ((p q : ℕ) → Awaits M my_pid locks p q → Elem p known × Elem q known)
      → (st : RuntimeState F.Double)
      → AgreesWithLocks (collect_lock_signals F C M now backends my_pid (some locks) st)
  unfolding collect_lock_signals
  collect_lock_signals-AgreesWithLocks known few_edges few all_known st =
      let g = build_blocker_graph-IsGraph F C M now backends my_pid locks in
      let sound = edges-Awaits F C M now backends my_pid locks in
      let complete = Awaits-edges F C M now backends my_pid locks few_edges in
      record {
        blocked = record {
          pids = g.blocked_pids;
          distinct = g.blocked.distinct;
          members = λ p. (
            λ m.
                let (q, w) = Some-Waits graph.edges p ((g.blocked.members p).0 m) in
                (q, sound p q w),
            λ (q, a). (g.blocked.members p).1 (Waits-Some graph.edges p q (complete p q a)),
          );
          number = ap (λ n. pos n) g.blocked_counted;
        };
        blocking = record {
          pids = g.blocking_pids;
          distinct = g.blocking.distinct;
          members = λ q. (
            λ m.
                let (p, w) = Some-blocking-Waits graph.edges q ((g.blocking.members q).0 m) in
                (p, sound p q w),
            λ (p, a).
                (g.blocking.members q).1 (Waits-Some_blocking graph.edges p q (complete p q a)),
          );
          number = ap (λ n. pos n) g.blocking_counted;
        };
        cycle =
            build_blocker_graph-deadlock F C M now backends my_pid locks known few_edges few
              all_known;
      }
