-- ===== src/Blockers/Chain/Severity.antt =====
-- The search from one root in compute_chain_severity of src/blocker_graph.c.
use pg_circuit.Prelude.{
  ℕ, zero, suc, ◌+◌, ◌≤◌, ◌<◌, ◌≡◌, ◌↔◌, refl, sym, ◌∙◌, subst, Bool, true, false, List, [], length,
  get_or, replicate, Bool-cases, ◌==◌, ==_iff, inl, inr, get_or-set_self, get_or-set_ne,
  length-replicate, arith,
}
use pg_circuit.Blockers.{Edge}
use pg_circuit.Blockers.Chain.{Search, marked, depth_of, start, explore}
use pg_circuit.Blockers.Chain.Visit.{Elem, trues, trues-falses, start-IsSized}
use pg_circuit.Blockers.Chain.Ends.{search_loop_rule}
use pg_circuit.Blockers.Chain.Reach.{Chain, root, link, Closes, expand-Closes, expand-keeps}
use pg_circuit.Blockers.Chain.Trace.{IsTraced}
use pg_circuit.Blockers.Chain.Layers.{IsLayered, expand-IsLayered}

start-mark : (i v : ℕ) → i < 64 → (marked (start i) v ≡ true) → i ≡ v
unfolding start
start-mark i v h m = elim (Bool-cases (i == v)) [
  | inl same ↦ (==_iff i v).0 same
  | inr other ↦ absurd (
      ground
        (arith, get_or-set_ne (replicate 64 false) i v true false (λ e. ground arith), blank 64 v))
]
  where
    blank : (n i : ℕ) → get_or (replicate n false) i false ≡ false
    blank zero i = refl
    blank (suc n) zero = refl
    blank (suc n) (suc i) = blank n i

start-marked : (i : ℕ) → i < 64 → marked (start i) i ≡ true
unfolding start
start-marked i h =
    get_or-set_self (replicate 64 false) i true false
      (omega (arith, length-replicate {A = Bool} 64 false))

start-depth : (i v : ℕ) → depth_of (start i) v ≡ 0
unfolding start
start-depth i v = blank 64 v
  where
    blank : (n v : ℕ) → get_or (replicate {A = ℕ} n 0) v 0 ≡ 0
    blank zero v = refl
    blank (suc n) zero = refl
    blank (suc n) (suc v) = blank n v

module _ {D : Type 0} (pids : List ℕ) (es : List (Edge D)) (i : ℕ) where
  -- A search from `i`: its queue is empty; it has visited exactly the indices at the end of a chain
  -- of waits up to `i`, and counted them but for `i`; the depth of each is the length of a shortest
  -- such chain; and `local_max_depth` is the greatest of the depths.
  pub record IsExplored (s : Search) : Type 0 where
    pub ended : s.pending ≡ []
    pub visits : (v : ℕ) → (marked s v ≡ true) ↔ ((n : ℕ) × Chain pids es i n v)
    pub counts : trues s.visited ≡ s.descendants + 1
    pub chains : (v : ℕ) → marked s v ≡ true → Chain pids es i (depth_of s v) v
    pub shortest : (n v : ℕ) → Chain pids es i n v → depth_of s v ≤ n
    pub below : (v : ℕ) → marked s v ≡ true → depth_of s v ≤ s.local_max_depth
    pub deepest : (v : ℕ) × (marked s v ≡ true) × (depth_of s v ≡ s.local_max_depth)

  -- What is at the end of a chain is visited, and no deeper than the chain is long.
  Chain-marked :
      (s : Search)
      → (marked s i ≡ true) × (depth_of s i ≡ 0)
      → Closes pids es s
      → s.pending ≡ []
      → (n v : ℕ) → Chain pids es i n v
      → (marked s v ≡ true) × (depth_of s v ≤ n)
  Chain-marked s (here, top) closes e m v root = (here, omega (arith, top))
  Chain-marked s here closes e m v (link {n} {u} c b) =
      let (reached, deep) = Chain-marked s here closes e n u c in
      elim (closes u v reached b) [
        | inl (mark, one_more) ↦ (mark, omega (arith, deep, one_more))
        | inr waiting ↦ absurd (subst (λ l. Elem u l) e waiting)
      ]

  start-IsTraced : i < 64 → IsTraced pids es i (start i)
  unfolding start
  start-IsTraced h = record {
    traced = λ v m.
        subst (λ w. Chain pids es i (depth_of (start i) w) w) (start-mark i v h m)
          (subst (λ n. Chain pids es i n i) (sym (start-depth i i)) root);
    below = λ v m. omega (arith, start-depth i v);
    peak = (i, start-marked i h, start-depth i i);
    queued = λ v q. elim q [
      | inl e ↦ subst (λ w. marked (start i) w ≡ true) (sym e) (start-marked i h)
      | inr none_left ↦ absurd none_left
    ];
  }

  start-IsLayered : i < 64 → IsLayered 0 (start i)
  unfolding start
  start-IsLayered h = record {
    near = λ v m. omega (arith, (start-IsTraced h).below v m);
    far = λ v q. omega arith;
    sorted = (λ v none_left. absurd none_left, tt);
  }

  start-Closes : i < 64 → Closes pids es (start i)
  unfolding start
  start-Closes h u v m b = inr (inl (sym (start-mark i u h m)))

  -- With at most 64 process ids the search from an index below 64 ends within its rounds: its queue is
  -- empty; it has visited exactly the indices at the end of a chain of waits up to the root, and counted
  -- them but for the root; the depth of each is the length of its shortest chain; and its depth is the
  -- greatest of these.
  pub explore-IsExplored : length pids ≤ 64 → i < 64 → IsExplored (explore pids es i)
  unfolding explore
  explore-IsExplored small h =
      let ((traced, layered, closes, here, top), sized, ended) =
        search_loop_rule pids small es
          (λ s.
            IsTraced pids es i s
            × ((n : ℕ) × IsLayered n s)
            × Closes pids es s
            × (marked s i ≡ true)
            × (depth_of s i ≡ 0))
          (λ s cur rest e z (traced, (n, layered), closes, here, top).
            let (traced', layered') =
              expand-IsLayered pids es i small s cur rest e z traced layered in
            let (here', same) = expand-keeps pids small es s cur rest i z here in
            (
              traced',
              (depth_of s cur, layered'),
              expand-Closes pids small es s cur rest e z layered'.near closes,
              here',
              same ∙ top,
            ))
          64 (start i) (omega (arith, (start-IsSized i h).slots)) (start-IsSized i h)
          (
            start-IsTraced h,
            (0, start-IsLayered h),
            start-Closes h,
            start-marked i h,
            start-depth i i,
          ) in
      let reached = Chain-marked (explore pids es i) (here, top) closes ended in
      record {
        ended = ended;
        visits = λ v.
            (λ m. (depth_of (explore pids es i) v, traced.traced v m), λ c. (reached c.0 v c.1).0);
        counts = omega (
          arith,
          sized.slots,
          sized.counted,
          sized.flags,
          trues-falses (explore pids es i).visited,
        );
        chains = traced.traced;
        shortest = λ n v c. (reached n v c).1;
        below = traced.below;
        deepest = traced.peak;
      }
