-- ===== src/Blockers/Chain/Visit.antt =====
-- The body of the search in compute_chain_severity of src/blocker_graph.c: what a visit changes.
use pg_circuit.Prelude.{
  ℕ, zero, suc, ◌+◌, ◌≤◌, ◌<◌, ◌≡◌, ◌≢◌, refl, sym, ap, ◌∙◌, ltb, ◌==◌, ==_iff, Bool, true, false,
  List, [], ◌∷◌, ◌++◌, length, get_or, set, replicate, some, Option-cases, Bool-cases, ◌⊎◌, inl,
  inr, length-set, length-replicate, length-append, get_or-set_self, get_or-set_ne, arith,
}
use mathlib.Core.Option.{some-injective}
use pg_circuit.Blockers.{Edge, pid_index}
use pg_circuit.Blockers.Chain.{Search, marked, depth_of, visit, offer, start}

pub falses : List Bool → ℕ
falses [] = 0
falses (true ∷ bs) = falses bs
falses (false ∷ bs) = suc (falses bs)

falses-set :
    (bs : List Bool) (i : ℕ)
    → i < length bs
    → get_or bs i false ≡ false
    → falses (set bs i true) + 1 ≡ falses bs
unfolding falses
falses-set [] i h f = absurd (omega arith)
falses-set (true ∷ bs) zero h f = cc
falses-set (false ∷ bs) zero h f = omega arith
falses-set (true ∷ bs) (suc i) h f = falses-set bs i (omega arith) f
falses-set (false ∷ bs) (suc i) h f = omega (arith, falses-set bs i (omega arith) f)

pub falses-replicate : (n : ℕ) → falses (replicate n false) ≡ n
unfolding falses
falses-replicate zero = refl
falses-replicate (suc n) = ap suc (falses-replicate n)

pub trues : List Bool → ℕ
trues [] = 0
trues (true ∷ bs) = suc (trues bs)
trues (false ∷ bs) = trues bs

pub trues-falses : (bs : List Bool) → trues bs + falses bs ≡ length bs
unfolding trues falses
trues-falses [] = refl
trues-falses (true ∷ bs) = omega (arith, trues-falses bs)
trues-falses (false ∷ bs) = omega (arith, trues-falses bs)

abbrev pub Elem : ℕ → List ℕ → Type 0
Elem u [] = ⊥
Elem u (x ∷ xs) = (u ≡ x) ⊎ Elem u xs

pub Elem-append_left : (u : ℕ) (xs ys : List ℕ) → Elem u xs → Elem u (xs ++ ys)
Elem-append_left u [] ys m = absurd m
Elem-append_left u (x ∷ xs) ys (inl e) = inl e
Elem-append_left u (x ∷ xs) ys (inr m) = inr (Elem-append_left u xs ys m)

pub Elem-append_last : (u : ℕ) (xs : List ℕ) → Elem u (xs ++ u ∷ [])
Elem-append_last u [] = inl refl
Elem-append_last u (x ∷ xs) = inr (Elem-append_last u xs)

pub Elem-append-cases : (v w : ℕ) (l : List ℕ) → Elem v (l ++ w ∷ []) → Elem v l ⊎ (v ≡ w)
Elem-append-cases v w [] (inl e) = inr e
Elem-append-cases v w [] (inr m) = absurd m
Elem-append-cases v w (x ∷ l) (inl e) = inl (inl e)
Elem-append-cases v w (x ∷ l) (inr m) = elim (Elem-append-cases v w l m) [
  | inl old ↦ inl (inr old)
  | inr e ↦ inr e
]

-- The arrays have 64 elements, and every visited index takes one slot of the queue.
pub record IsSized (s : Search) : Type 0 where
  pub flags : length s.visited ≡ 64
  pub depths : length s.depth ≡ 64
  pub slots : falses s.visited + s.tail ≡ 64
  pub counted : s.tail ≡ s.descendants + 1

pub start-IsSized : (i : ℕ) → i < 64 → IsSized (start i)
unfolding start
start-IsSized i h = record {
  flags = length-set (replicate 64 false) i true ∙ length-replicate 64 false;
  depths = length-replicate {A = ℕ} 64 0;
  slots = omega (
    arith,
    falses-set (replicate 64 false) i (omega (arith, length-replicate {A = Bool} 64 false))
        (get_or-blank 64 i),
    falses-replicate 64,
  );
  counted = refl;
}
  where
    get_or-blank : (n i : ℕ) → get_or (replicate n false) i false ≡ false
    get_or-blank zero i = refl
    get_or-blank (suc n) zero = refl
    get_or-blank (suc n) (suc i) = get_or-blank n i

-- What a visit of a new index does to the rest of the state.
pub record Visits (cur child : ℕ) (s t : Search) : Type 0 where
  pub sized : IsSized t
  pub marks : marked t child ≡ true
  pub depth_child : depth_of t child ≡ depth_of s cur + 1
  pub others : (v : ℕ) → child ≢ v → (marked t v ≡ marked s v) × (depth_of t v ≡ depth_of s v)
  pub queue : t.pending ≡ s.pending ++ child ∷ []
  pub work : falses t.visited + length t.pending ≡ falses s.visited + length s.pending
  pub peak_above : (s.local_max_depth ≤ t.local_max_depth) × (depth_of t child ≤ t.local_max_depth)
  pub peak_is : (t.local_max_depth ≡ s.local_max_depth) ⊎ (t.local_max_depth ≡ depth_of t child)

pub visit-Visits :
    (cur child : ℕ) (s : Search)
    → child < 64
    → marked s child ≡ false
    → IsSized s
    → Visits cur child s (visit cur child s)
unfolding visit
visit-Visits cur child s h new sized =
    let fewer = falses-set s.visited child (omega (arith, sized.flags)) new in
    let room : ltb s.tail 64 ≡ true = ground (arith, fewer, sized.slots) in
    let d = depth_of s cur + 1 in
    let at : get_or (set s.depth child d) child 0 ≡ d =
      get_or-set_self s.depth child d 0 (omega (arith, sized.depths)) in
    record {
      sized = record {
        flags = length-set s.visited child true ∙ sized.flags;
        depths = length-set s.depth child d ∙ sized.depths;
        slots = simp (room) (omega (arith, fewer, sized.slots));
        counted = simp (room) (omega (arith, sized.counted));
      };
      marks = get_or-set_self s.visited child true false (omega (arith, sized.flags));
      depth_child = at;
      others = λ v other. (
        get_or-set_ne s.visited child v true false other,
        get_or-set_ne s.depth child v d 0 other,
      );
      queue = simp (room) refl;
      work = simp (room) (omega (arith, fewer, length-append s.pending (child ∷ [])));
      peak_above = ground (arith, at);
      peak_is = ground (arith, at);
    }

-- The two ways through the body of the loop over the edges.
pub offer-cases :
    {D : Type 0} (pids : List ℕ) (cur : ℕ) (e : Edge D) (s : Search)
    → ((offer pids cur e s ≡ s)
        × ((child : ℕ)
            → e.blocking_pid ≡ get_or pids cur 0
            → pid_index pids e.blocked_pid ≡ some child
            → marked s child ≡ true))
      ⊎ ((child : ℕ) × (e.blocking_pid ≡ get_or pids cur 0)
          × (pid_index pids e.blocked_pid ≡ some child)
          × (marked s child ≡ false)
          × (offer pids cur e s ≡ visit cur child s))
unfolding offer
offer-cases pids cur e s = elim (Option-cases (pid_index pids e.blocked_pid)) [
  | inl absent ↦ inl (rw (absent, offer) refl, λ child b k. cc)
  | inr (child, index) ↦ elim (Bool-cases (e.blocking_pid == get_or pids cur 0)) [
    | inr other ↦ inl (
      rw (index, other, offer) refl,
      λ c b k. absurd (ground (arith, ==_iff e.blocking_pid (get_or pids cur 0))),
    )
    | inl same ↦ elim (Bool-cases (marked s child)) [
      | inl old ↦ inl (
        rw (index, same, old, offer) refl,
        λ c b k. rw⁻¹ (some-injective _ _ (sym index ∙ k)) old,
      )
      | inr new ↦ inr (child, (==_iff _ _).0 same, index, new, rw (index, same, new, offer) refl)
    ]
  ]
]
