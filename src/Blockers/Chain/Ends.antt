-- ===== src/Blockers/Chain/Ends.antt =====
-- The search in compute_chain_severity of src/blocker_graph.c ends within its rounds.
use pg_circuit.Prelude.{
  ℕ, zero, suc, ◌+◌, ◌≤◌, ◌<◌, ◌≡◌, refl, ap, ◌∙◌, List, [], ◌∷◌, length, some, inl, inr, ◌⊎◌,
  arith,
}
use pg_circuit.Blockers.{Edge, pid_index}
use pg_circuit.Blockers.Numbering.{pid_index-get_or}
use pg_circuit.Blockers.Chain.{Search, offer, offer_all, expand, search_loop}
use pg_circuit.Blockers.Chain.Visit.{falses, IsSized, visit-Visits, offer-cases}

-- The indices that are not visited and those in the queue.
abbrev pub work : Search → ℕ
work s = falses s.visited + length s.pending

List-cases {ℓ} : {A : Type ℓ} (l : List A) → (l ≡ []) ⊎ ((x : A) × (r : List A) × (l ≡ x ∷ r))
List-cases [] = inl refl
List-cases (x ∷ r) = inr (x, r, refl)

-- A visited child is an index of the array.
pub index-lt :
    (pids : List ℕ) (p child : ℕ) → length pids ≤ 64 → pid_index pids p ≡ some child → child < 64
index-lt pids p child small h = omega (arith, pid_index-get_or pids p child h)

module _ {D : Type 0} (pids : List ℕ) (small : length pids ≤ 64) where
  pub offer-IsSized :
      (cur : ℕ) (e : Edge D) (s : Search)
      → IsSized s
      → IsSized (offer pids cur e s) × (work (offer pids cur e s) ≡ work s)
  offer-IsSized cur e s sized = elim (offer-cases pids cur e s) [
    | inl (same, known) ↦ rw same (sized, refl)
    | inr (child, from, index, new, step) ↦
        let v =
          visit-Visits cur child s (index-lt pids e.blocked_pid child small index) new sized in
        rw step (v.sized, v.work)
  ]

  pub offer_all-IsSized :
      (cur : ℕ) (es : List (Edge D)) (s : Search)
      → IsSized s
      → IsSized (offer_all pids cur es s) × (work (offer_all pids cur es s) ≡ work s)
  unfolding offer_all
  offer_all-IsSized cur [] s sized = (sized, refl)
  offer_all-IsSized cur (e ∷ es) s sized =
      let (sized', same) = offer-IsSized cur e s sized in
      let (sized'', same') = offer_all-IsSized cur es (offer pids cur e s) sized' in
      (sized'', same' ∙ same)

  -- A round takes one index out of the queue.
  pub expand-IsSized :
      (es : List (Edge D)) (cur : ℕ) (rest : List ℕ) (s : Search)
      → s.pending ≡ cur ∷ rest
      → IsSized s
      → IsSized (expand pids es cur rest s) × (work (expand pids es cur rest s) + 1 ≡ work s)
  unfolding expand
  expand-IsSized es cur rest s e sized =
      let popped : Search = record s { pending = rest } in
      let (sized', same) = offer_all-IsSized cur es popped (record {
        flags = sized.flags;
        depths = sized.depths;
        slots = sized.slots;
        counted = sized.counted;
      }) in
      (sized', omega (arith, same, ap length e))

  -- What a round keeps holds at the end, where the queue is empty.
  pub search_loop_rule {ℓ} :
      (es : List (Edge D)) (P : Search → Type ℓ)
      → ((s : Search) (cur : ℕ) (rest : List ℕ)
          → s.pending ≡ cur ∷ rest
          → IsSized s
          → P s
          → P (expand pids es cur rest s))
      → (fuel : ℕ) (s : Search) → work s ≤ fuel
      → IsSized s
      → P s
      → P (search_loop pids es fuel s)
        × IsSized (search_loop pids es fuel s)
        × ((search_loop pids es fuel s).pending ≡ [])
  unfolding search_loop
  search_loop_rule es P keep zero s few sized p = elim (List-cases s.pending) [
    | inl empty ↦ (p, sized, empty)
    | inr (cur, rest, e) ↦ absurd (omega (arith, ap length e))
  ]
  search_loop_rule es P keep (suc fuel) s few sized p = elim (List-cases s.pending) [
    | inl empty ↦ simp (empty, search_loop) (p, sized, refl)
    | inr (cur, rest, e) ↦
        let (sized', less) = expand-IsSized es cur rest s e sized in
        simp (e, search_loop)
          (search_loop_rule es P keep fuel (expand pids es cur rest s) (omega arith) sized'
            (keep s cur rest e sized p))
  ]
