-- ===== src/Blockers/Build/Correct.antt =====
-- pg_circuit_build_blocker_graph of src/blocker_graph.c, against the conflicts in the lock table.
use pg_circuit.Prelude.{
  ℕ, suc, ◌≤◌, ◌<◌, ◌≡◌, ◌↔◌, refl, sym, ◌∙◌, subst, ℤ, true, List, [], ◌∷◌, length, take, take_all,
  length-take, Option, some, inl, inr, ◌==◌, Bool-cases, arith,
}
use pg_circuit.Platform.{Float}
use pg_circuit.Relations.{Catalog}
use pg_circuit.Transactions.{BackendStatus}
use pg_circuit.Blockers.{Edge, Graph, pid_index}
use pg_circuit.Blockers.Cycle.{Waits, Covers}
use pg_circuit.Blockers.Cycle.Correct.{graph_has_cycle_sound, graph_has_cycle_complete}
use pg_circuit.Blockers.Chain.Visit.{Elem}
use pg_circuit.Blockers.Chain.Correct.{IsSeverity, chain_severity_lem}
use pg_circuit.Blockers.LockTable.{LockInstance, LockManager}
use pg_circuit.Blockers.Build.{Flow, scan_of, finish_graph, build_blocker_graph}
use pg_circuit.Blockers.Build.Rosters.{IsRoster, IsRoster-nil}
use pg_circuit.Blockers.Build.Pairs.{Reaches, whole, cut, all_edges}
use pg_circuit.Blockers.Build.Loops.{scan_waiters-Reaches}
use pg_circuit.Blockers.Build.Waiting.{
  Awaits, AwaitsFor, Waits-take, all_edges-Awaits, Awaits-all_edges, WaitsFor-AwaitsFor,
  AwaitsFor-WaitsFor,
}

pid_index-Elem : (pids : List ℕ) (p : ℕ) → Elem p pids → (k : ℕ) × (pid_index pids p ≡ some k)
unfolding pid_index
pid_index-Elem [] p m = absurd m
pid_index-Elem (q ∷ pids) p m = elim (Bool-cases (q == p)) [
  | inl same ↦ (0, rw same refl)
  | inr other ↦ elim m [
    | inl e ↦ absurd (ground (arith, sym e))
    | inr rest ↦ let (k, h) = pid_index-Elem pids p rest in (suc k, rw (other, h) refl)
  ]
]

module _ {D : Type 0} where
  -- The graph has the first 256 of the edges `all`, and it counts the distinct processes at either end.
  pub record IsGraph (all : List (Edge D)) (g : Graph D) : Type 0 where
    pub edges : g.edges ≡ take 256 all
    pub blocked_pids : List ℕ
    pub blocked : IsRoster (λ e. e.blocked_pid) g.edges blocked_pids
    pub blocked_counted : g.blocked_sessions ≡ length blocked_pids
    pub blocking_pids : List ℕ
    pub blocking : IsRoster (λ e. e.blocking_pid) g.edges blocking_pids
    pub blocking_counted : g.blocking_sessions ≡ length blocking_pids

  finish_graph-IsGraph :
      (all : List (Edge D)) (f : Flow D) → Reaches all f → IsGraph all (finish_graph (scan_of f))
  unfolding finish_graph
  finish_graph-IsGraph all _ (whole {s = s} e i) = record {
    edges = e ∙ sym (take_all 256 all (subst (λ es. length es ≤ 256) e i.small));
    blocked_pids = s.blocked_pids;
    blocked = i.blocked;
    blocked_counted = refl;
    blocking_pids = s.blocking_pids;
    blocking = i.blocking;
    blocking_counted = refl;
  }
  finish_graph-IsGraph all _ (cut {s = s} e full i) = record {
    edges = e;
    blocked_pids = s.blocked_pids;
    blocked = i.blocked;
    blocked_counted = refl;
    blocking_pids = s.blocking_pids;
    blocking = i.blocking;
    blocking_counted = refl;
  }

  -- The ids at the two ends cover the edges.
  Waits-Covers :
      (known : List ℕ) (es : List (Edge D))
      → ((p q : ℕ) → Waits es p q → Elem p known × Elem q known)
      → Covers known es
  Waits-Covers known [] h = tt
  Waits-Covers known (e ∷ es) h =
      let (left, right) = h e.blocked_pid e.blocking_pid (inl (refl, refl)) in
      (
        pid_index-Elem known e.blocked_pid left,
        pid_index-Elem known e.blocking_pid right,
        Waits-Covers known es (λ p q w. h p q (inr w)),
      )

module _ (F : Float) (C : Catalog F.Double) (M : LockManager) (now : ℤ)
    (backends : List (Option BackendStatus)) (my_pid : ℤ) (locks : List LockInstance) where
  abbrev pub graph : Graph F.Double
  graph = build_blocker_graph F C M now backends my_pid (some locks)

  -- The graph of a lock table has the first 256 edges of the pairs of a waiter and a holder in its way,
  -- in the order of the table, and its numbers of blocked and blocking sessions are those of the
  -- distinct processes at either end of the edges.
  pub build_blocker_graph-IsGraph :
      IsGraph
        (all_edges F C M now backends my_pid locks locks)
        (build_blocker_graph F C M now backends my_pid (some locks))
  unfolding build_blocker_graph
  build_blocker_graph-IsGraph =
      finish_graph-IsGraph (all_edges F C M now backends my_pid locks locks) _ (
        scan_waiters-Reaches F C M now backends my_pid locks locks
          (record {
            edges = [];
            blocked_pids = [];
            blocking_pids = [];
            max_blocked_for_seconds = F.decimal 0 1;
          })
          (record {
            small = omega arith;
            blocked = IsRoster-nil (λ e. e.blocked_pid);
            blocking = IsRoster-nil (λ e. e.blocking_pid);
          }))

  pub edges-Awaits : (p q : ℕ) → Waits graph.edges p q → Awaits M my_pid locks p q
  edges-Awaits p q w =
      let g = build_blocker_graph-IsGraph in
      let all = all_edges F C M now backends my_pid locks locks in
      all_edges-Awaits F C M now backends my_pid locks p q
        (Waits-take 256 all p q (subst (λ es. Waits es p q) g.edges w))

  pub Awaits-edges :
      length graph.edges < 256 → (p q : ℕ) → Awaits M my_pid locks p q → Waits graph.edges p q
  Awaits-edges few p q a =
      let g = build_blocker_graph-IsGraph in
      let all = all_edges F C M now backends my_pid locks locks in
      let short : length (take 256 all) < 256 = subst (λ es. length es < 256) g.edges few in
      let whole = g.edges ∙ take_all 256 all (omega (arith, length-take 256 all)) in
      subst (λ es. Waits es p q) (sym whole)
        (Awaits-all_edges F C M now backends my_pid locks p q a)

  -- With fewer than 256 edges and at most 64 processes that await another or that another awaits, the
  -- graph has a cycle exactly if some process awaits itself in the lock table.
  pub build_blocker_graph-deadlock :
      (known : List ℕ)
      → length graph.edges < 256
      → length known ≤ 64
      → ((p q : ℕ) → Awaits M my_pid locks p q → Elem p known × Elem q known)
      → (graph.has_cycle ≡ true) ↔ ((p : ℕ) × AwaitsFor M my_pid locks p p)
  unfolding build_blocker_graph finish_graph
  build_blocker_graph-deadlock known few_edges few all_known =
      let covered = Waits-Covers known graph.edges (λ p q w. all_known p q (edges-Awaits p q w)) in
      (
        λ h.
            let (p, cycle) = graph_has_cycle_sound graph.edges h in
            (p, WaitsFor-AwaitsFor F C M now backends my_pid locks graph.edges edges-Awaits cycle),
        λ (p, cycle). graph_has_cycle_complete graph.edges known few covered (
          p,
          AwaitsFor-WaitsFor F C M now backends my_pid locks graph.edges (Awaits-edges few_edges)
              cycle,
        ),
      )

  -- A cycle is one of the lock table in any case.
  pub build_blocker_graph_sound : graph.has_cycle ≡ true → (p : ℕ) × AwaitsFor M my_pid locks p p
  unfolding build_blocker_graph finish_graph
  build_blocker_graph_sound h =
      let (p, cycle) = graph_has_cycle_sound graph.edges h in
      (p, WaitsFor-AwaitsFor F C M now backends my_pid locks graph.edges edges-Awaits cycle)

  pub build_blocker_graph-IsSeverity :
      (known : List ℕ)
      → length known ≤ 64
      → ((p q : ℕ) → Awaits M my_pid locks p q → Elem p known × Elem q known)
      → IsSeverity graph.edges (graph.max_chain_depth, graph.max_descendant_count)
  unfolding build_blocker_graph finish_graph
  build_blocker_graph-IsSeverity known few all_known =
      chain_severity_lem graph.edges known few
        (Waits-Covers known graph.edges (λ p q w. all_known p q (edges-Awaits p q w)))
