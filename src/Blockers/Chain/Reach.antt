-- ===== src/Blockers/Chain/Reach.antt =====
-- What the search in compute_chain_severity of src/blocker_graph.c visits, and how deep.
use pg_circuit.Prelude.{
  ℕ, ◌+◌, ◌≤◌, ◌≡◌, ◌≢◌, refl, sym, ap, ◌∙◌, subst, true, false, List, [], ◌∷◌, ◌++◌, length,
  get_or, some, Bool-cases, ◌==◌, ==_iff, ◌⊎◌, inl, inr, arith,
}
use mathlib.Core.Option.{some-injective}
use pg_circuit.Blockers.{Edge, pid_index}
use pg_circuit.Blockers.Chain.{Search, marked, depth_of, visit, offer, offer_all, expand}
use pg_circuit.Blockers.Chain.Visit.{
  IsSized, Visits, visit-Visits, offer-cases, Elem, Elem-append_left, Elem-append_last,
}
use pg_circuit.Blockers.Chain.Ends.{index-lt, offer-IsSized}

-- Some edge says that the process with the index `v` waits for the one with the index `u`.
abbrev pub Blocks : {D : Type 0} → List ℕ → List (Edge D) → ℕ → ℕ → Type 0
Blocks pids [] u v = ⊥
Blocks pids (e ∷ es) u v =
    (e.blocking_pid ≡ get_or pids u 0) × (pid_index pids e.blocked_pid ≡ some v)
    ⊎ Blocks pids es u v

-- A chain of `n` waits from `v` up to the root `i`.
pub data Chain {D : Type 0} (pids : List ℕ) (es : List (Edge D)) (i : ℕ) : ℕ → ℕ → Type 0 where
  root : Chain pids es i 0 i
  link : {n u v : ℕ} → Chain pids es i n u → Blocks pids es u v → Chain pids es i (n + 1) v

-- The marks and the queue only grow, a depth stays once it is known, and a new mark is in the queue.
pub record Grows (s t : Search) : Type 0 where
  pub keeps : (v : ℕ) → marked s v ≡ true → marked t v ≡ true
  pub depths : (v : ℕ) → marked s v ≡ true → depth_of t v ≡ depth_of s v
  pub queue : (v : ℕ) → Elem v s.pending → Elem v t.pending
  pub fresh : (v : ℕ) → marked t v ≡ true → (marked s v ≡ true) ⊎ Elem v t.pending

Grows-refl : (s : Search) → Grows s s
Grows-refl s = record {
  keeps = λ v m. m;
  depths = λ v m. refl;
  queue = λ v m. m;
  fresh = λ v m. inl m;
}

Grows-trans : {r s t : Search} → Grows r s → Grows s t → Grows r t
Grows-trans g h = record {
  keeps = λ v m. h.keeps v (g.keeps v m);
  depths = λ v m. h.depths v (g.keeps v m) ∙ g.depths v m;
  queue = λ v m. h.queue v (g.queue v m);
  fresh = λ v m. elim (h.fresh v m) [
    | inr new ↦ inr new
    | inl old ↦ elim (g.fresh v old) [ inl older ↦ inl older | inr new ↦ inr (h.queue v new) ]
  ];
}

pub Visits-Grows :
    {cur child : ℕ} {s t : Search} → marked s child ≡ false → Visits cur child s t → Grows s t
Visits-Grows {cur} {child} {s} {t} new h = record {
  depths = λ v m. (h.others v (differs v m)).1;
  keeps = λ v m. elim (Bool-cases (child == v)) [
    | inl same ↦ subst (λ k. marked t k ≡ true) ((==_iff child v).0 same) h.marks
    | inr other ↦ (h.others v (ne child v other)).0 ∙ m
  ];
  queue = λ v m. rw h.queue (Elem-append_left v s.pending (child ∷ []) m);
  fresh = λ v m. elim (Bool-cases (child == v)) [
    | inl same ↦ inr (
        rw h.queue (
          subst (λ k. Elem k (s.pending ++ child ∷ [])) ((==_iff child v).0 same)
            (Elem-append_last child s.pending)))
    | inr other ↦ inl (sym (h.others v (ne child v other)).0 ∙ m)
  ];
}
  where
    ne : (a b : ℕ) → (a == b) ≡ false → a ≢ b
    ne a b h = ground arith

    differs : (v : ℕ) → marked s v ≡ true → child ≢ v
    differs v m e = ground (arith, subst (λ w. marked s w ≡ false) e new)

pub popped-IsSized :
    {s : Search} (rest : List ℕ) → IsSized s → IsSized (record s { pending = rest })
popped-IsSized rest sized = record {
  flags = sized.flags;
  depths = sized.depths;
  slots = sized.slots;
  counted = sized.counted;
}

-- Whoever waits for a visited process is visited too, at most one deeper, or that process is still in
-- the queue.
abbrev pub Closes : {D : Type 0} → List ℕ → List (Edge D) → Search → Type 0
Closes pids es s =
    (u v : ℕ)
    → marked s u ≡ true
    → Blocks pids es u v
    → (marked s v ≡ true) × (depth_of s v ≤ depth_of s u + 1) ⊎ Elem u s.pending

module _ {D : Type 0} (pids : List ℕ) (small : length pids ≤ 64) where
  pub offer-Grows :
      (cur : ℕ) (e : Edge D) (s : Search)
      → IsSized s
      → Grows s (offer pids cur e s)
        × ((v : ℕ)
            → e.blocking_pid ≡ get_or pids cur 0
            → pid_index pids e.blocked_pid ≡ some v
            → marked (offer pids cur e s) v ≡ true)
  offer-Grows cur e s sized = elim (offer-cases pids cur e s) [
    | inl (same, known) ↦ rw same (Grows-refl s, known)
    | inr (child, from, index, new, step) ↦
        let h =
          visit-Visits cur child s (index-lt pids e.blocked_pid child small index) new sized in
        rw step (
          Visits-Grows new h,
          λ v b k.
              subst (λ w. marked (visit cur child s) w ≡ true) (some-injective _ _ (sym index ∙ k))
                h.marks,
        )
  ]

  offer_all-Grows :
      (cur : ℕ) (es : List (Edge D)) (s : Search)
      → IsSized s
      → Grows s (offer_all pids cur es s)
        × ((v : ℕ) → Blocks pids es cur v → marked (offer_all pids cur es s) v ≡ true)
  unfolding offer_all
  offer_all-Grows cur [] s sized = (Grows-refl s, λ v b. absurd b)
  offer_all-Grows cur (e ∷ es) s sized =
      let (sized', _) = offer-IsSized pids small cur e s sized in
      let (g, first) = offer-Grows cur e s sized in
      let (h, later) = offer_all-Grows cur es (offer pids cur e s) sized' in
      (
        Grows-trans g h,
        λ v b. elim b [
          | inl (from, index) ↦ h.keeps v (first v from index)
          | inr rest ↦ later v rest
        ],
      )

  pub expand-Closes :
      (es : List (Edge D)) (s : Search) (cur : ℕ) (rest : List ℕ)
      → s.pending ≡ cur ∷ rest
      → IsSized s
      → ((v : ℕ)
          → marked (expand pids es cur rest s) v ≡ true
          → depth_of (expand pids es cur rest s) v ≤ depth_of s cur + 1)
      → Closes pids es s
      → Closes pids es (expand pids es cur rest s)
  unfolding expand
  expand-Closes es s cur rest e sized near closes u v m b =
      let popped : Search = record s { pending = rest } in
      let (g, all) = offer_all-Grows cur es popped (popped-IsSized rest sized) in
      elim (g.fresh u m) [
        | inr new ↦ inr new
        | inl old ↦ elim (closes u v old b) [
          | inl (reached, deep) ↦
              inl (g.keeps v reached, omega (arith, deep, g.depths v reached, g.depths u old))
          | inr waiting ↦ elim (subst (λ l. Elem u l) e waiting) [
            | inl here ↦
                let reached = all v (subst (λ w. Blocks pids es w v) here b) in
                inl (reached, omega (arith, near v reached, g.depths u old, ap (depth_of s) here))
            | inr later ↦ inr (g.queue u later)
          ]
        ]
      ]

  -- A visited index stays visited at its depth.
  pub expand-keeps :
      (es : List (Edge D)) (s : Search) (cur : ℕ) (rest : List ℕ) (v : ℕ)
      → IsSized s
      → marked s v ≡ true
      → (marked (expand pids es cur rest s) v ≡ true)
        × (depth_of (expand pids es cur rest s) v ≡ depth_of s v)
  unfolding expand
  expand-keeps es s cur rest v sized m =
      let (g, _) =
        offer_all-Grows cur es (record s { pending = rest }) (popped-IsSized rest sized) in
      (g.keeps v m, g.depths v m)
