-- ===== src/Blockers/Chain/Correct.antt =====
-- compute_chain_severity of src/blocker_graph.c, from the edges to the two numbers.
use pg_circuit.Prelude.{
  ℕ, zero, suc, ◌≤◌, ◌<◌, ◌≡◌, ◌↔◌, refl, sym, ◌∙◌, subst, Bool, true, false, List, [], ◌∷◌, length,
  get_or, replicate, length-replicate, All, inl, inr, some, Bool-cases, arith,
}
use mathlib.Core.Bool.{true≢false}
use mathlib.Core.Option.{some-injective}
use pg_circuit.Blockers.{Edge, pid_index, scan_edges}
use pg_circuit.Blockers.Numbering.{Fits-nil, pid_index-get_or}
use pg_circuit.Blockers.Cycle.{Covers}
use pg_circuit.Blockers.Chain.{Roles, no_roles, mark_roles, is_root, explore, chain_severity}
use pg_circuit.Blockers.Chain.Marks.{Some, Flags, Flagged, Noted, scan_edges-Roled}
use pg_circuit.Blockers.Chain.Severity.{IsExplored, explore-IsExplored}
use pg_circuit.Blockers.Chain.Greatest.{IsGreatest, severities-IsGreatest}

module _ {D : Type 0} (es : List (Edge D)) where
  -- `p` waits for a session, or a session waits for `p`, in some edge.
  abbrev pub IsWaiting : ℕ → Type 0
  IsWaiting p = Some (λ (e : Edge D). e.blocked_pid ≡ p) es

  abbrev pub IsBlocking : ℕ → Type 0
  IsBlocking p = Some (λ (e : Edge D). e.blocking_pid ≡ p) es

  -- Every process id of the edges has an index below the number of ids; an index is taken for a root
  -- exactly if it is that of an id that blocks a session and waits for none; the search from an index is
  -- `IsExplored`; and the two numbers are the greatest that a root has, or 0.
  pub record IsSeverity (k : ℕ × ℕ) : Type 0 where
    pub pids : List ℕ
    pub roles : Roles
    pub small : length pids ≤ 64
    pub numbered : Covers pids es
    pub roots :
        (i : ℕ)
        → (is_root roles i ≡ true)
          ↔ ((p : ℕ) × (pid_index pids p ≡ some i) × IsBlocking p × ¬ IsWaiting p)
    pub searched : (i : ℕ) → i < length pids → IsExplored pids es i (explore pids es i)
    pub greatest : IsGreatest pids es roles 0 (length pids) (0, 0) k

Some-Flagged :
    {D : Type 0} (t : List ℕ × Roles) (p : ℕ) (es : List (Edge D))
    → All (Noted t) es
    → IsWaiting es p
    → Flagged t.0 t.1.is_blocked p
Some-Flagged t p [] noted none_left = absurd none_left
Some-Flagged t p (e ∷ es) (n, noted) (inl same) =
    subst (λ q. Flagged t.0 t.1.is_blocked q) same n.waits
Some-Flagged t p (e ∷ es) (n, noted) (inr rest) = Some-Flagged t p es noted rest

Some-Flagged_blocker :
    {D : Type 0} (t : List ℕ × Roles) (p : ℕ) (es : List (Edge D))
    → All (Noted t) es
    → IsBlocking es p
    → Flagged t.0 t.1.is_blocker p
Some-Flagged_blocker t p [] noted none_left = absurd none_left
Some-Flagged_blocker t p (e ∷ es) (n, noted) (inl same) =
    subst (λ q. Flagged t.0 t.1.is_blocker q) same n.blocks
Some-Flagged_blocker t p (e ∷ es) (n, noted) (inr rest) = Some-Flagged_blocker t p es noted rest

Noted-Covers :
    {D : Type 0} (t : List ℕ × Roles) (es : List (Edge D)) → All (Noted t) es → Covers t.0 es
Noted-Covers t [] noted = tt
Noted-Covers t (e ∷ es) (n, noted) =
    ((n.waits.at, n.waits.index), (n.blocks.at, n.blocks.index), Noted-Covers t es noted)

All-ends :
    {D : Type 0} (all es : List (Edge D))
    → ((p : ℕ) → IsWaiting es p → IsWaiting all p)
    → ((p : ℕ) → IsBlocking es p → IsBlocking all p)
    → All (λ e. IsWaiting all e.blocked_pid × IsBlocking all e.blocking_pid) es
All-ends all [] w b = tt
All-ends all (e ∷ es) w b = (
  (w e.blocked_pid (inl refl), b e.blocking_pid (inl refl)),
  All-ends all es (λ p h. w p (inr h)) (λ p h. b p (inr h)),
)

Flags-nil : (E : ℕ → Type 0) → Flags E [] (replicate 64 false)
Flags-nil E = record {
  size = length-replicate {A = Bool} 64 false;
  from = λ k on. absurd (true≢false (sym on ∙ blank 64 k));
}
  where
    blank : (n i : ℕ) → get_or (replicate n false) i false ≡ false
    blank zero i = refl
    blank (suc n) zero = refl
    blank (suc n) (suc i) = blank n i

-- A flag at the index of an id that has one is set.
Flagged-on :
    (pids : List ℕ) (bs : List Bool) (p k : ℕ)
    → pid_index pids p ≡ some k
    → Flagged pids bs p
    → get_or bs k false ≡ true
Flagged-on pids bs p k index f =
    subst (λ j. get_or bs j false ≡ true) (some-injective _ _ (sym f.index ∙ index)) f.on

is_root_iff :
    (r : Roles) (i : ℕ)
    → (is_root r i ≡ true)
      ↔ ((get_or r.is_blocker i false ≡ true) × (get_or r.is_blocked i false ≡ false))
is_root_iff r i = ground arith

module _ {D : Type 0} (es : List (Edge D)) (known : List ℕ) where
  -- With at most 64 process ids in the edges, `max_chain_depth` and `max_descendant_count` are the
  -- greatest that a root has, over the sessions that block and do not wait: its distance in waits from the
  -- session farthest behind it, and the number of sessions that wait for it, at once or through others.
  pub chain_severity_lem : length known ≤ 64 → Covers known es → IsSeverity es (chain_severity es)
  unfolding chain_severity
  chain_severity_lem room covered =
      let t = scan_edges mark_roles es ([], no_roles) in
      let (roled, _, noted) =
        scan_edges-Roled known (IsWaiting es) (IsBlocking es) es ([], no_roles) covered
          (All-ends es es (λ p h. h) (λ p h. h))
          (record {
            fits = Fits-nil known room;
            blocked = Flags-nil (IsWaiting es);
            blocker = Flags-nil (IsBlocking es);
          }) in
      let small : length t.0 ≤ 64 = omega (arith, roled.fits) in
      record {
        pids = t.0;
        roles = t.1;
        small = small;
        numbered = Noted-Covers t es noted;
        roots = λ i. (
          λ root.
              let (blocks, waits) = (is_root_iff t.1 i).0 root in
              let (index, b) = roled.blocker.from i blocks in
              (
                get_or t.0 i 0,
                index,
                b,
                λ w. true≢false (
                    sym (Flagged-on t.0 t.1.is_blocked _ i index (Some-Flagged t _ es noted w))
                    ∙ waits),
              ),
          λ (p, index, b, idle). (is_root_iff t.1 i).1 (
            Flagged-on t.0 t.1.is_blocker p i index (Some-Flagged_blocker t p es noted b),
            elim (Bool-cases (get_or t.1.is_blocked i false)) [
              | inr off ↦ off
              | inl on ↦
                  let (_, w) = roled.blocked.from i on in
                  absurd (idle (subst (IsWaiting es) (pid_index-get_or t.0 p i index).1 w))
            ],
          ),
        );
        searched = λ i h. explore-IsExplored t.0 es i small (omega arith);
        greatest =
            subst (λ n. IsGreatest t.0 es t.1 0 n (0, 0) (chain_severity es)) (omega arith)
              (severities-IsGreatest t.0 es t.1 (length t.0) 0 (0, 0));
      }
