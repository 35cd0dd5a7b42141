-- ===== src/Blockers/Cycle.antt =====
-- src/blocker_graph.c: graph_has_cycle, the search for deadlocks.
mod Sound
mod Complete
pub mod Correct
use pg_circuit.Prelude.{ℕ, ◌≡◌, Bool, List, [], ◌∷◌, length, ◌⊎◌, some}
use pg_circuit.Blockers.{Edge, pid_index, intern, scan_edge, scan_edges}
use pg_circuit.Blockers.Matrix.{Matrix, set_bit, blank}
use pg_circuit.Blockers.Warshall.{warshall, has_loop}

-- `adj[a][b] = true`
abbrev pub mark_edge : ℕ → ℕ → Matrix → Matrix
mark_edge a b m = set_bit m a b

module _ {D : Type 0} where
  -- `graph_has_cycle`
  unfoldable pub graph_has_cycle : List (Edge D) → Bool
  unfolding scan_edges scan_edge intern set_bit blank warshall has_loop
  graph_has_cycle edges =
      let (pids, adj) = scan_edges mark_edge edges ([], blank) in
      let npids = length pids in has_loop npids 0 (warshall npids npids 0 adj)

  -- Some edge says that `p` waits for `q`.
  abbrev pub Waits : List (Edge D) → ℕ → ℕ → Type 0
  Waits [] p q = ⊥
  Waits (e ∷ es) p q = (e.blocked_pid ≡ p) × (e.blocking_pid ≡ q) ⊎ Waits es p q

  -- `p` waits for `q` through one edge or more.
  pub data WaitsFor (es : List (Edge D)) : ℕ → ℕ → Type 0 where
    one : {p q : ℕ} → Waits es p q → WaitsFor es p q
    more : {p q r : ℕ} → Waits es p q → WaitsFor es q r → WaitsFor es p r

  pub WaitsFor-trans :
      {es : List (Edge D)} {p q r : ℕ} → WaitsFor es p q → WaitsFor es q r → WaitsFor es p r
  WaitsFor-trans (one w) v = more w v
  WaitsFor-trans (more w u) v = more w (WaitsFor-trans u v)

  -- Every process id of the edges has an index in `known`.
  abbrev pub Covers : List ℕ → List (Edge D) → Type 0
  Covers known [] = Unit
  Covers known (e ∷ es) =
      ((j : ℕ) × (pid_index known e.blocked_pid ≡ some j))
      × ((j : ℕ) × (pid_index known e.blocking_pid ≡ some j))
      × Covers known es
