-- ===== src/Blockers/Chain/Trace.antt =====
-- Every visit of compute_chain_severity in src/blocker_graph.c stands at the end of a chain.
use pg_circuit.Prelude.{
  ℕ, ◌≤◌, ◌≡◌, ◌≢◌, sym, ◌∙◌, subst, true, false, List, ◌∷◌, Bool-cases, ◌==◌, ==_iff, ◌⊎◌, inl,
  inr, arith,
}
use pg_circuit.Blockers.{Edge}
use pg_circuit.Blockers.Chain.{Search, marked, depth_of}
use pg_circuit.Blockers.Chain.Visit.{Visits, Elem, Elem-append-cases}
use pg_circuit.Blockers.Chain.Reach.{Blocks, Chain, link, Visits-Grows}

module _ {D : Type 0} (pids : List ℕ) (all : List (Edge D)) (i : ℕ) where
  -- Each visited index has a chain as long as its depth, the greatest depth is one of these, and
  -- what is in the queue is visited.
  pub record IsTraced (s : Search) : Type 0 where
    pub traced : (v : ℕ) → marked s v ≡ true → Chain pids all i (depth_of s v) v
    pub below : (v : ℕ) → marked s v ≡ true → depth_of s v ≤ s.local_max_depth
    pub peak : (v : ℕ) × (marked s v ≡ true) × (depth_of s v ≡ s.local_max_depth)
    pub queued : (v : ℕ) → Elem v s.pending → marked s v ≡ true

  pub Visits-IsTraced :
      {cur child : ℕ} {s t : Search}
      → marked s cur ≡ true
      → marked s child ≡ false
      → Blocks pids all cur child
      → Visits cur child s t
      → IsTraced s
      → IsTraced t
  Visits-IsTraced {cur} {child} {s} {t} here new b h p = record {
    traced = λ v m. elim (at v) [
      | inl e ↦ subst (λ w. Chain pids all i (depth_of t w) w) e reached
      | inr other ↦ let (mark, depth) = h.others v other in rw depth (p.traced v (sym mark ∙ m))
    ];
    below = λ v m. elim (at v) [
      | inl e ↦ subst (λ w. depth_of t w ≤ t.local_max_depth) e h.peak_above.1
      | inr other ↦
          let (mark, depth) = h.others v other in
          omega (arith, p.below v (sym mark ∙ m), h.peak_above.0, depth)
    ];
    peak = elim h.peak_is [
      | inr top ↦ (child, h.marks, sym top)
      | inl same ↦
          let (v, m, e) = p.peak in
          let (mark, depth) = h.others v (differs v m) in (v, mark ∙ m, depth ∙ e ∙ sym same)
    ];
    queued = λ v q. elim (Elem-append-cases v child s.pending (subst (λ l. Elem v l) h.queue q)) [
      | inl old ↦ (Visits-Grows new h).keeps v (p.queued v old)
      | inr e ↦ subst (λ w. marked t w ≡ true) (sym e) h.marks
    ];
  }
    where
      at : (v : ℕ) → (child ≡ v) ⊎ (child ≢ v)
      at v = elim (Bool-cases (child == v)) [
        | inl same ↦ inl ((==_iff child v).0 same)
        | inr other ↦ inr (λ e. ground arith)
      ]

      reached : Chain pids all i (depth_of t child) child
      reached = rw h.depth_child (link (p.traced cur here) b)

      differs : (v : ℕ) → marked s v ≡ true → child ≢ v
      differs v m e = ground (arith, subst (λ w. marked s w ≡ false) e new)

  pub popped-IsTraced :
      {s : Search} (cur : ℕ) (rest : List ℕ)
      → s.pending ≡ cur ∷ rest
      → IsTraced s
      → IsTraced (record s { pending = rest })
  popped-IsTraced cur rest e p = record {
    traced = p.traced;
    below = p.below;
    peak = p.peak;
    queued = λ v m. p.queued v (subst (λ l. Elem v l) (sym e) (inr m));
  }
