-- ===== src/Blockers/Chain.antt =====
-- src/blocker_graph.c: compute_chain_severity, the search from every root blocker.
pub mod Visit
pub mod Ends
pub mod Reach
pub mod Trace
pub mod Layers
pub mod Marks
pub mod Severity
pub mod Greatest
pub mod Correct
use pg_circuit.Prelude.{
  ℕ, zero, suc, ◌+◌, ltb, ◌==◌, Bool, true, false, not, ◌&&◌, ◌||◌, if◌then◌else◌, List, [], ◌∷◌,
  ◌++◌, length, get_or, set, replicate, Option, none, some,
}
use pg_circuit.Blockers.{Edge, Graph, max_blocker_pids, pid_index, scan_edges}

-- The arrays `is_blocked` and `is_blocker`.
pub record Roles : Type 0 where
  pub is_blocked : List Bool
  pub is_blocker : List Bool

abbrev pub no_roles : Roles
no_roles = record {
  is_blocked = replicate max_blocker_pids false;
  is_blocker = replicate max_blocker_pids false;
}

-- `is_blocked[a] = true; is_blocker[b] = true;`
abbrev pub mark_roles : ℕ → ℕ → Roles → Roles
mark_roles a b r = record {
  is_blocked = set r.is_blocked a true;
  is_blocker = set r.is_blocker b true;
}

-- The local variables of a search: `pending` is `queue[qh .. qt)`, and `tail` is `qt`.
pub record Search : Type 0 where
  pub visited : List Bool
  pub depth : List ℕ
  pub pending : List ℕ
  pub tail : ℕ
  pub descendants : ℕ
  pub local_max_depth : ℕ

abbrev pub marked : Search → ℕ → Bool
marked s v = get_or s.visited v false

abbrev pub depth_of : Search → ℕ → ℕ
depth_of s v = get_or s.depth v 0

-- The end of the loop's body, for a child that was not visited before.
unfoldable pub visit : ℕ → ℕ → Search → Search
visit cur child s =
    let d = depth_of s cur + 1 in
    let room = ltb s.tail max_blocker_pids in
    record {
      visited = set s.visited child true;
      depth = set s.depth child d;
      local_max_depth = if ltb s.local_max_depth d then d else s.local_max_depth;
      descendants = s.descendants + 1;
      pending = if room then s.pending ++ child ∷ [] else s.pending;
      tail = if room then s.tail + 1 else s.tail;
    }

module _ {D : Type 0} (pids : List ℕ) where
  -- The body of the loop over the edges.
  unfoldable pub offer : ℕ → Edge D → Search → Search
  unfolding visit pid_index
  offer cur e s = elim (pid_index pids e.blocked_pid) [
    | none ↦ s
    | some child ↦
        if not (e.blocking_pid == get_or pids cur 0) || marked s child then s else visit cur child s
  ]

  unfoldable pub offer_all : ℕ → List (Edge D) → Search → Search
  unfolding offer
  offer_all cur [] s = s
  offer_all cur (e ∷ es) s = offer_all cur es (offer cur e s)

  -- One round of the `while` loop, after `cur` left the head of the queue.
  unfoldable pub expand : List (Edge D) → ℕ → List ℕ → Search → Search
  unfolding offer_all
  expand es cur rest s = offer_all cur es (record s { pending = rest })

  -- `while (qh < qt)`, with at most `fuel` rounds
  unfoldable pub search_loop : List (Edge D) → ℕ → Search → Search
  unfolding expand
  search_loop es zero s = s
  search_loop es (suc fuel) s = elim s.pending [
    | [] ↦ s
    | cur ∷ rest ↦ search_loop es fuel (expand es cur rest s)
  ]

-- The state before the `while` loop. C leaves `depth` uninitialized but for the root; an entry is
-- read for a visited index alone.
unfoldable pub start : ℕ → Search
start i = record {
  visited = set (replicate max_blocker_pids false) i true;
  depth = replicate max_blocker_pids 0;
  pending = i ∷ [];
  tail = 1;
  descendants = 0;
  local_max_depth = 0;
}

-- The search from the root `i`. Each of at most 64 indices is in the queue once, so 64 rounds are
-- enough.
unfoldable pub explore : {D : Type 0} → List ℕ → List (Edge D) → ℕ → Search
unfolding search_loop start
explore pids es i = search_loop pids es max_blocker_pids (start i)

-- Blocks someone and is not waiting.
abbrev pub is_root : Roles → ℕ → Bool
is_root r i = get_or r.is_blocker i false && not (get_or r.is_blocked i false)

abbrev pub larger : ℕ → ℕ → ℕ
larger a b = if ltb b a then a else b

-- The loop over `i`, with `left` rounds to go: the two maxima of the graph.
unfoldable pub severities : {D : Type 0} → List ℕ → List (Edge D) → Roles → ℕ → ℕ → ℕ × ℕ → ℕ × ℕ
unfolding explore
severities pids es r zero i m = m
severities pids es r (suc left) i (depth, descendants) =
    let found = explore pids es i in
    severities pids es r left (i + 1) (
      if is_root r i
      then (larger found.local_max_depth depth, larger found.descendants descendants)
      else (depth, descendants))

-- `compute_chain_severity`: `max_chain_depth` and `max_descendant_count`
unfoldable pub chain_severity : {D : Type 0} → List (Edge D) → ℕ × ℕ
unfolding scan_edges severities
chain_severity es =
    let (pids, roles) = scan_edges mark_roles es ([], no_roles) in
    severities pids es roles (length pids) 0 (0, 0)
