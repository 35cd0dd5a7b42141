-- ===== src/Blockers/Chain/Greatest.antt =====
-- The loop over the roots in compute_chain_severity of src/blocker_graph.c.
use pg_circuit.Prelude.{
  ℕ, zero, suc, ◌+◌, ◌≤◌, ◌<◌, ◌≡◌, refl, sym, ◌∙◌, subst, Bool, true, List, Bool-cases, ◌==◌,
  ==_iff, ◌⊎◌, inl, inr, if◌then◌else◌, arith,
}
use pg_circuit.Blockers.{Edge}
use pg_circuit.Blockers.Chain.{explore, Roles, is_root, larger, severities}

-- A pair is at least another in both parts.
abbrev AtLeast : ℕ × ℕ → ℕ × ℕ → Type 0
AtLeast m k = (m.0 ≤ k.0) × (m.1 ≤ k.1)

-- One round of the loop over the indices: `a` and `b` are found, if the index is a root.
abbrev taken : Bool → ℕ → ℕ → ℕ × ℕ → ℕ × ℕ
taken t a b m = if t then (larger a m.0, larger b m.1) else m

taken_lem :
    (t : Bool) (a b : ℕ) (m : ℕ × ℕ)
    → AtLeast m (taken t a b m)
      × (t ≡ true → AtLeast (a, b) (taken t a b m))
      × (((taken t a b m).0 ≡ m.0) ⊎ ((t ≡ true) × ((taken t a b m).0 ≡ a)))
      × (((taken t a b m).1 ≡ m.1) ⊎ ((t ≡ true) × ((taken t a b m).1 ≡ b)))
taken_lem t a b (x, y) = ground arith

module _ {D : Type 0} (pids : List ℕ) (es : List (Edge D)) (r : Roles) where
  -- What a search finds: the depth and the descendants.
  abbrev pub found : ℕ → ℕ × ℕ
  found i = ((explore pids es i).local_max_depth, (explore pids es i).descendants)

  -- Two numbers that are the greatest that a root among the indices from `low` below `high` has, or
  -- where no root has more, those of `m`.
  pub record IsGreatest (low high : ℕ) (m k : ℕ × ℕ) : Type 0 where
    pub above : (i : ℕ) → low ≤ i → i < high → is_root r i ≡ true → AtLeast (found i) k
    pub grows : AtLeast m k
    pub depth_met :
        (k.0 ≡ m.0)
        ⊎ ((i : ℕ) × (low ≤ i) × (i < high) × (is_root r i ≡ true) × (k.0 ≡ (found i).0))
    pub descendants_met :
        (k.1 ≡ m.1)
        ⊎ ((i : ℕ) × (low ≤ i) × (i < high) × (is_root r i ≡ true) × (k.1 ≡ (found i).1))

  pub severities-IsGreatest :
      (left i : ℕ) (m : ℕ × ℕ) → IsGreatest i (i + left) m (severities pids es r left i m)
  unfolding severities
  severities-IsGreatest zero i m = record {
    above = λ j low high is_root_j. absurd (omega arith);
    grows = (omega arith, omega arith);
    depth_met = inl refl;
    descendants_met = inl refl;
  }
  severities-IsGreatest (suc left) i (x, y) =
      let m' = taken (is_root r i) (found i).0 (found i).1 (x, y) in
      let (grows, above, depth_met, descendants_met) =
        taken_lem (is_root r i) (found i).0 (found i).1 (x, y) in
      let h = severities-IsGreatest left (i + 1) m' in
      record {
        above = λ j low high is_root_j. elim (Bool-cases (i == j)) [
          | inl same ↦
              let e : i ≡ j = (==_iff i j).0 same in
              let here = above (subst (λ k. is_root r k ≡ true) (sym e) is_root_j) in
              subst (λ k. AtLeast (found k) (severities pids es r left (i + 1) m')) e
                (omega (arith, here, h.grows))
          | inr other ↦ h.above j (ground arith) (omega arith) is_root_j
        ];
        grows = omega (arith, grows, h.grows);
        depth_met = elim h.depth_met [
          | inr (j, low, high, is_root_j, e) ↦ inr (j, omega arith, omega arith, is_root_j, e)
          | inl same ↦ elim depth_met [
            | inl kept ↦ inl (same ∙ kept)
            | inr (is_root_i, e) ↦ inr (i, omega arith, omega arith, is_root_i, same ∙ e)
          ]
        ];
        descendants_met = elim h.descendants_met [
          | inr (j, low, high, is_root_j, e) ↦ inr (j, omega arith, omega arith, is_root_j, e)
          | inl same ↦ elim descendants_met [
            | inl kept ↦ inl (same ∙ kept)
            | inr (is_root_i, e) ↦ inr (i, omega arith, omega arith, is_root_i, same ∙ e)
          ]
        ];
      }
