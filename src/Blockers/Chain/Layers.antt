-- ===== src/Blockers/Chain/Layers.antt =====
-- The search in compute_chain_severity of src/blocker_graph.c goes through the indices in the order of
-- their depths.
use pg_circuit.Prelude.{
  ℕ, ◌+◌, ◌≤◌, ◌≡◌, refl, sym, ◌∙◌, subst, true, false, List, [], ◌∷◌, ◌++◌, length, Bool-cases,
  ◌==◌, ==_iff, inl, inr, arith,
}
use pg_circuit.Blockers.{Edge}
use pg_circuit.Blockers.Chain.{Search, marked, depth_of, offer, offer_all, expand}
use pg_circuit.Blockers.Chain.Visit.{
  IsSized, Visits, visit-Visits, offer-cases, Elem, Elem-append-cases,
}
use pg_circuit.Blockers.Chain.Ends.{index-lt, offer-IsSized}
use pg_circuit.Blockers.Chain.Reach.{Blocks, offer-Grows, Visits-Grows, popped-IsSized}
use pg_circuit.Blockers.Chain.Trace.{IsTraced, Visits-IsTraced, popped-IsTraced}

-- No element has a greater depth than one that comes later.
abbrev Sorted : (ℕ → ℕ) → List ℕ → Type 0
Sorted f [] = Unit {0}
Sorted f (x ∷ l) = ((v : ℕ) → Elem v l → f x ≤ f v) × Sorted f l

Sorted-append :
    (f : ℕ → ℕ) (l : List ℕ) (w : ℕ)
    → ((v : ℕ) → Elem v l → f v ≤ f w)
    → Sorted f l
    → Sorted f (l ++ w ∷ [])
Sorted-append f [] w last h = (λ v none_left. absurd none_left, tt)
Sorted-append f (x ∷ l) w last (first, h) = (
  λ v m. elim (Elem-append-cases v w l m) [
    | inl old ↦ first v old
    | inr e ↦ subst (λ k. f x ≤ f k) (sym e) (last x (inl refl))
  ],
  Sorted-append f l w (λ v m. last v (inr m)) h,
)

Sorted-same :
    (f g : ℕ → ℕ) (l : List ℕ) → ((v : ℕ) → Elem v l → g v ≡ f v) → Sorted f l → Sorted g l
Sorted-same f g [] same h = tt
Sorted-same f g (x ∷ l) same (first, h) = (
  λ v m. omega (arith, first v m, same x (inl refl), same v (inr m)),
  Sorted-same f g l (λ v m. same v (inr m)) h,
)

-- While the indices of depth `n` leave the queue, nothing is deeper than `n + 1`, and the queue holds
-- the depths from `n` on in their order.
pub record IsLayered (n : ℕ) (s : Search) : Type 0 where
  pub near : (v : ℕ) → marked s v ≡ true → depth_of s v ≤ n + 1
  pub far : (v : ℕ) → Elem v s.pending → n ≤ depth_of s v
  pub sorted : Sorted (depth_of s) s.pending

Visits-IsLayered :
    {n cur child : ℕ} {s t : Search}
    → marked s child ≡ false
    → depth_of s cur ≡ n
    → ((v : ℕ) → Elem v s.pending → marked s v ≡ true)
    → Visits cur child s t
    → IsLayered n s
    → IsLayered n t
Visits-IsLayered {n} {cur} {child} {s} {t} new d queued h p =
    let g = Visits-Grows new h in
    let deep : depth_of t child ≡ n + 1 = omega (arith, h.depth_child, d) in
    let kept : (v : ℕ) → Elem v s.pending → depth_of t v ≡ depth_of s v =
      λ v m. g.depths v (queued v m) in
    record {
      near = λ v m. elim (Bool-cases (child == v)) [
        | inl same ↦ omega (arith, subst (λ w. depth_of t w ≡ n + 1) ((==_iff child v).0 same) deep)
        | inr other ↦
            let (mark, depth) = h.others v (λ e. ground arith) in
            omega (arith, p.near v (sym mark ∙ m), depth)
      ];
      far = λ v q. elim (Elem-append-cases v child s.pending (subst (λ l. Elem v l) h.queue q)) [
        | inl old ↦ omega (arith, p.far v old, kept v old)
        | inr e ↦ subst (λ w. n ≤ depth_of t w) (sym e) (omega (arith, deep))
      ];
      sorted =
          subst (λ l. Sorted (depth_of t) l) (sym h.queue)
            (Sorted-append (depth_of t) s.pending child
              (λ v m. omega (arith, deep, kept v m, p.near v (queued v m)))
              (Sorted-same (depth_of s) (depth_of t) s.pending kept p.sorted));
    }

-- With the head of the queue its depth is next.
popped-IsLayered :
    {n : ℕ} {s : Search} (cur : ℕ) (rest : List ℕ)
    → s.pending ≡ cur ∷ rest
    → IsLayered n s
    → IsLayered (depth_of s cur) (record s { pending = rest })
popped-IsLayered {n} {s} cur rest e p =
    let (first, sorted) = subst (λ l. Sorted (depth_of s) l) e p.sorted in
    let here : n ≤ depth_of s cur = p.far cur (subst (λ l. Elem cur l) (sym e) (inl refl)) in
    record { near = λ v m. omega (arith, p.near v m, here); far = first; sorted = sorted }

module _ {D : Type 0} (pids : List ℕ) (all : List (Edge D)) (i : ℕ) (small : length pids ≤ 64) where
  -- `es` is what is left of all edges.
  offer_all-IsLayered :
      (n cur : ℕ) (es : List (Edge D)) (s : Search)
      → ((v : ℕ) → Blocks pids es cur v → Blocks pids all cur v)
      → marked s cur ≡ true
      → depth_of s cur ≡ n
      → IsSized s
      → IsTraced pids all i s
      → IsLayered n s
      → IsTraced pids all i (offer_all pids cur es s) × IsLayered n (offer_all pids cur es s)
  unfolding offer_all
  offer_all-IsLayered n cur [] s part here d sized p q = (p, q)
  offer_all-IsLayered n cur (e ∷ es) s part here d sized p q =
      let (sized', _) = offer-IsSized pids small cur e s sized in
      let (g, _) = offer-Grows pids small cur e s sized in
      let (p', q') : IsTraced pids all i (offer pids cur e s) × IsLayered n (offer pids cur e s) =
        elim (offer-cases pids cur e s) [
          | inl (same, known) ↦ rw same (p, q)
          | inr (child, from, index, new, step) ↦
              let h =
                visit-Visits cur child s (index-lt pids e.blocked_pid child small index) new
                  sized in
              rw step (
                Visits-IsTraced pids all i here new (part child (inl (from, index))) h p,
                Visits-IsLayered new d p.queued h q,
              )
        ] in
      offer_all-IsLayered n cur es (offer pids cur e s) (λ v b. part v (inr b)) (g.keeps cur here)
        (g.depths cur here ∙ d) sized' p' q'

  pub expand-IsLayered :
      {n : ℕ} (s : Search) (cur : ℕ) (rest : List ℕ)
      → s.pending ≡ cur ∷ rest
      → IsSized s
      → IsTraced pids all i s
      → IsLayered n s
      → IsTraced pids all i (expand pids all cur rest s)
        × IsLayered (depth_of s cur) (expand pids all cur rest s)
  unfolding expand
  expand-IsLayered s cur rest e sized p q =
      offer_all-IsLayered (depth_of s cur) cur all (record s { pending = rest }) (λ v b. b)
        (p.queued cur (subst (λ l. Elem cur l) (sym e) (inl refl))) refl (popped-IsSized rest sized)
        (popped-IsTraced pids all i cur rest e p) (popped-IsLayered cur rest e q)
