-- ===== src/Blockers/Chain/Marks.antt =====
-- Which indices compute_chain_severity of src/blocker_graph.c takes for blocked and for blocking.
use pg_circuit.Prelude.{
  ℕ, ◌≤◌, ◌<◌, ◌≡◌, sym, ◌∙◌, subst, Bool, true, false, List, [], ◌∷◌, length, get_or, set,
  Bool-cases, ◌==◌, ==_iff, ◌⊎◌, inl, inr, some, get_or-set_self, get_or-set_ne, length-set, All,
  arith,
}
use pg_circuit.Blockers.{Edge, pid_index, scan_edge, scan_edges}
use pg_circuit.Blockers.Numbering.{
  pid_index-get_or, Interned, intern-Interned, Fits, intern-Fits, scan_edge_both,
}
use pg_circuit.Blockers.Cycle.{Covers}
use pg_circuit.Blockers.Chain.{Roles, mark_roles}

-- Some edge has the property `P`.
abbrev pub Some : {D : Type 0} → (Edge D → Type 0) → List (Edge D) → Type 0
Some P [] = ⊥
Some P (e ∷ es) = P e ⊎ Some P es

-- An array of flags over the indices of `pids`: 64 flags, set only at the index of an id that has `E`.
pub record Flags (E : ℕ → Type 0) (pids : List ℕ) (bs : List Bool) : Type 0 where
  pub size : length bs ≡ 64
  pub from :
      (k : ℕ)
      → get_or bs k false ≡ true
      → (pid_index pids (get_or pids k 0) ≡ some k) × E (get_or pids k 0)

Flags-intern :
    {E : ℕ → Type 0} (pids : List ℕ) (p k : ℕ) (pids' : List ℕ) (bs : List Bool)
    → Interned pids p k pids'
    → Flags E pids bs
    → Flags E pids' bs
Flags-intern {E = E} pids p k pids' bs i f = record {
  size = f.size;
  from = λ j on.
      let (index, e) = f.from j on in
      let same = i.named j (pid_index-get_or pids (get_or pids j 0) j index).0 in
      subst (λ q. (pid_index pids' q ≡ some j) × E q) (sym same) (i.stable _ j index, e);
}

Flags-set :
    {E : ℕ → Type 0} (pids : List ℕ) (p k : ℕ) (bs : List Bool)
    → length pids ≤ 64
    → pid_index pids p ≡ some k
    → E p
    → Flags E pids bs
    → Flags E pids (set bs k true) × (get_or (set bs k true) k false ≡ true)
Flags-set {E} pids p k bs small index holds f =
    let (low, named) = pid_index-get_or pids p k index in
    (
      record {
        size = length-set bs k true ∙ f.size;
        from = λ j on. elim (Bool-cases (k == j)) [
          | inl same ↦
              subst (λ i. (pid_index pids (get_or pids i 0) ≡ some i) × E (get_or pids i 0))
                ((==_iff k j).0 same)
                (subst (λ q. (pid_index pids q ≡ some k) × E q) (sym named) (index, holds))
          | inr other ↦ f.from j (sym (get_or-set_ne bs k j true false (λ e. ground arith)) ∙ on)
        ];
      },
      get_or-set_self bs k true false (omega (arith, f.size)),
    )

get_or-set-true :
    (bs : List Bool) (k j : ℕ)
    → length bs ≡ 64
    → k < 64
    → get_or bs j false ≡ true
    → get_or (set bs k true) j false ≡ true
get_or-set-true bs k j size h on = elim (Bool-cases (k == j)) [
  | inl same ↦
      subst (λ i. get_or (set bs k true) i false ≡ true) ((==_iff k j).0 same)
        (get_or-set_self bs k true false (omega arith))
  | inr other ↦ get_or-set_ne bs k j true false (λ e. ground arith) ∙ on
]

-- The id `p` has an index, and the flag there is set.
pub record Flagged (pids : List ℕ) (bs : List Bool) (p : ℕ) : Type 0 where
  pub at : ℕ
  pub index : pid_index pids p ≡ some at
  pub on : get_or bs at false ≡ true

-- Both ends of an edge are flagged.
pub record Noted {D : Type 0} (t : List ℕ × Roles) (e : Edge D) : Type 0 where
  pub waits : Flagged t.0 t.1.is_blocked e.blocked_pid
  pub blocks : Flagged t.0 t.1.is_blocker e.blocking_pid

module _ (known : List ℕ) (E G : ℕ → Type 0) where
  pub record Roled (st : List ℕ × Roles) : Type 0 where
    pub fits : Fits known st.0
    pub blocked : Flags E st.0 st.1.is_blocked
    pub blocker : Flags G st.0 st.1.is_blocker

  pub record Keeps (st t : List ℕ × Roles) : Type 0 where
    pub blocked : (p : ℕ) → Flagged st.0 st.1.is_blocked p → Flagged t.0 t.1.is_blocked p
    pub blocker : (p : ℕ) → Flagged st.0 st.1.is_blocker p → Flagged t.0 t.1.is_blocker p

  module _ {D : Type 0} where
    scan_edge-Roled :
        (e : Edge D) (st : List ℕ × Roles)
        → (j : ℕ) × (pid_index known e.blocked_pid ≡ some j)
        → (j : ℕ) × (pid_index known e.blocking_pid ≡ some j)
        → E e.blocked_pid
        → G e.blocking_pid
        → Roled st
        → let t = scan_edge mark_roles e st in
          Roled t
          × Keeps st t
          × Flagged t.0 t.1.is_blocked e.blocked_pid
          × Flagged t.0 t.1.is_blocker e.blocking_pid
    scan_edge-Roled e (pids, r) (k, first_known) (l, second_known) he hg h =
        let (a, first, fits') = intern-Fits known pids e.blocked_pid k first_known h.fits in
        let (b, second, fits'') = intern-Fits known a.1 e.blocking_pid l second_known fits' in
        let i = intern-Interned pids e.blocked_pid first in
        let j = intern-Interned a.1 e.blocking_pid second in
        let here = j.stable e.blocked_pid a.0 i.index in
        let small : length b.1 ≤ 64 = omega (arith, fits'') in
        let in_a : a.0 < 64 = omega (arith, pid_index-get_or b.1 e.blocked_pid a.0 here) in
        let in_b : b.0 < 64 = omega (arith, pid_index-get_or b.1 e.blocking_pid b.0 j.index) in
        let blocked = Flags-intern _ _ _ _ _ j (Flags-intern _ _ _ _ _ i h.blocked) in
        let blocker = Flags-intern _ _ _ _ _ j (Flags-intern _ _ _ _ _ i h.blocker) in
        let (blocked', on_a) = Flags-set b.1 e.blocked_pid a.0 r.is_blocked small here he blocked in
        let (blocker', on_b) =
          Flags-set b.1 e.blocking_pid b.0 r.is_blocker small j.index hg blocker in
        rw (scan_edge_both mark_roles e pids r a b first second) (
          record { fits = fits''; blocked = blocked'; blocker = blocker' },
          record {
            blocked = λ p f. record {
              at = f.at;
              index = j.stable p f.at (i.stable p f.at f.index);
              on = get_or-set-true r.is_blocked a.0 f.at blocked.size in_a f.on;
            };
            blocker = λ p f. record {
              at = f.at;
              index = j.stable p f.at (i.stable p f.at f.index);
              on = get_or-set-true r.is_blocker b.0 f.at blocker.size in_b f.on;
            };
          },
          record { at = a.0; index = here; on = on_a },
          record { at = b.0; index = j.index; on = on_b },
        )

    pub scan_edges-Roled :
        (es : List (Edge D)) (st : List ℕ × Roles)
        → Covers known es
        → All (λ e. E e.blocked_pid × G e.blocking_pid) es
        → Roled st
        → let t = scan_edges mark_roles es st in Roled t × Keeps st t × All (Noted t) es
    unfolding scan_edges
    scan_edges-Roled [] st covered ends h =
        (h, record { blocked = λ p f. f; blocker = λ p f. f }, tt)
    scan_edges-Roled (e ∷ es) st (first, second, covered) ((he, hg), ends) h =
        let (roled, keeps, waits, blocks) = scan_edge-Roled e st first second he hg h in
        let (roled', keeps', rest) =
          scan_edges-Roled es (scan_edge mark_roles e st) covered ends roled in
        let noted : Noted (scan_edges mark_roles (e ∷ es) st) e = record {
          waits = keeps'.blocked _ waits;
          blocks = keeps'.blocker _ blocks;
        } in
        (
          roled',
          record {
            blocked = λ p f. keeps'.blocked p (keeps.blocked p f);
            blocker = λ p f. keeps'.blocker p (keeps.blocker p f);
          },
          (noted, rest),
        )
