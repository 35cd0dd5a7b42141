-- ===== src/Blockers/Build/Rosters.antt =====
-- The lists of distinct process ids that pg_circuit_build_blocker_graph of src/blocker_graph.c keeps.
use pg_circuit.Prelude.{
  ℕ, ◌≤◌, ◌<◌, ◌≡◌, ◌↔◌, refl, sym, subst, ◌==◌, ==_iff, true, false, List, [], ◌∷◌, ◌++◌, length,
  length-append, ◌⊎◌, inl, inr, Bool-cases, arith,
}
use pg_circuit.Blockers.{Edge}
use pg_circuit.Blockers.Chain.Visit.{Elem, Elem-append_left, Elem-append_last}
use pg_circuit.Blockers.Chain.Marks.{Some}
use pg_circuit.Blockers.Build.{seen, note_pid}

seen_iff : (pids : List ℕ) (p : ℕ) → (seen pids p ≡ true) ↔ Elem p pids
unfolding seen
seen_iff [] p = (λ h. cc, λ m. absurd m)
seen_iff (q ∷ pids) p = elim (Bool-cases (q == p)) [
  | inl same ↦ (λ h. inl (sym ((==_iff q p).0 same)), λ m. ground arith)
  | inr other ↦ (
    λ h. inr ((seen_iff pids p).0 (ground arith)),
    λ m. elim m [
      | inl e ↦ absurd (ground (arith, sym e))
      | inr rest ↦ let h = (seen_iff pids p).1 rest in ground arith
    ],
  )
]

-- No element stands twice.
abbrev pub Distinct : List ℕ → Type 0
Distinct [] = Unit
Distinct (p ∷ ps) = (¬ Elem p ps) × Distinct ps

Elem-append_cases : (u p : ℕ) (xs : List ℕ) → Elem u (xs ++ p ∷ []) → Elem u xs ⊎ (u ≡ p)
Elem-append_cases u p [] (inl e) = inr e
Elem-append_cases u p [] (inr m) = absurd m
Elem-append_cases u p (x ∷ xs) (inl e) = inl (inl e)
Elem-append_cases u p (x ∷ xs) (inr m) = elim (Elem-append_cases u p xs m) [
  | inl old ↦ inl (inr old)
  | inr new ↦ inr new
]

Distinct-append : (xs : List ℕ) (p : ℕ) → Distinct xs → (¬ Elem p xs) → Distinct (xs ++ p ∷ [])
Distinct-append [] p d h = (λ m. m, tt)
Distinct-append (x ∷ xs) p (first, d) h = (
  λ m. elim (Elem-append_cases x p xs m) [ inl old ↦ first old | inr new ↦ h (inl (sym new)) ],
  Distinct-append xs p d (λ m. h (inr m)),
)

Some-append_left :
    {D : Type 0} (P : Edge D → Type 0) (es more : List (Edge D)) → Some P es → Some P (es ++ more)
Some-append_left P [] more m = absurd m
Some-append_left P (e ∷ es) more (inl h) = inl h
Some-append_left P (e ∷ es) more (inr m) = inr (Some-append_left _ es more m)

Some-append_last :
    {D : Type 0} (P : Edge D → Type 0) (es : List (Edge D)) (e : Edge D)
    → P e
    → Some P (es ++ e ∷ [])
Some-append_last P [] e h = inl h
Some-append_last P (d ∷ es) e h = inr (Some-append_last _ es e h)

Some-append_cases :
    {D : Type 0} (P : Edge D → Type 0) (es : List (Edge D)) (e : Edge D)
    → Some P (es ++ e ∷ [])
    → Some P es ⊎ P e
Some-append_cases P [] e (inl h) = inr h
Some-append_cases P [] e (inr m) = absurd m
Some-append_cases P (d ∷ es) e (inl h) = inl (inl h)
Some-append_cases P (d ∷ es) e (inr m) = elim (Some-append_cases _ es e m) [
  | inl old ↦ inl (inr old)
  | inr new ↦ inr new
]

-- The ids `end e` of the edges, each once.
pub record IsRoster {D : Type 0} (end : Edge D → ℕ) (es : List (Edge D)) (pids : List ℕ)
    : Type 0 where
  pub distinct : Distinct pids
  pub members : (p : ℕ) → Elem p pids ↔ Some (λ e. end e ≡ p) es
  pub short : length pids ≤ length es

pub IsRoster-nil : {D : Type 0} (end : Edge D → ℕ) → IsRoster end [] []
IsRoster-nil end = record { distinct = tt; members = λ p. (λ m. m, λ m. m); short = omega arith }

note_pid_old : (pids : List ℕ) (p : ℕ) → seen pids p ≡ true → note_pid pids p ≡ pids
unfolding note_pid
note_pid_old pids p h = rw h refl

note_pid_new :
    (pids : List ℕ) (p : ℕ)
    → seen pids p ≡ false
    → length pids < 256
    → note_pid pids p ≡ pids ++ p ∷ []
unfolding note_pid
note_pid_new pids p h room = ground arith

module _ {D : Type 0} where
  IsRoster-old :
      (end : Edge D → ℕ) (es : List (Edge D)) (e : Edge D) (pids : List ℕ)
      → Elem (end e) pids
      → IsRoster end es pids
      → IsRoster end (es ++ e ∷ []) pids
  IsRoster-old end es e pids old r = record {
    distinct = r.distinct;
    members = λ p. (
      λ m. Some-append_left _ es (e ∷ []) ((r.members p).0 m),
      λ m. elim (Some-append_cases _ es e m) [
        | inl before ↦ (r.members p).1 before
        | inr last ↦ subst (λ q. Elem q pids) last old
      ],
    );
    short = omega (arith, r.short, length-append es (e ∷ []));
  }

  IsRoster-new :
      (end : Edge D → ℕ) (es : List (Edge D)) (e : Edge D) (pids : List ℕ)
      → (¬ Elem (end e) pids)
      → IsRoster end es pids
      → IsRoster end (es ++ e ∷ []) (pids ++ end e ∷ [])
  IsRoster-new end es e pids new r = record {
    distinct = Distinct-append pids (end e) r.distinct new;
    members = λ p. (
      λ m. elim (Elem-append_cases p (end e) pids m) [
        | inl old ↦ Some-append_left _ es (e ∷ []) ((r.members p).0 old)
        | inr last ↦ Some-append_last _ es e (sym last)
      ],
      λ m. elim (Some-append_cases _ es e m) [
        | inl before ↦ Elem-append_left p pids (end e ∷ []) ((r.members p).1 before)
        | inr last ↦ subst (λ q. Elem q (pids ++ end e ∷ [])) last (Elem-append_last (end e) pids)
      ],
    );
    short = omega (arith, r.short, length-append es (e ∷ []), length-append pids (end e ∷ []));
  }

  -- Below 256 edges there is room for the id of one more.
  pub note_pid-IsRoster :
      (end : Edge D → ℕ) (es : List (Edge D)) (e : Edge D) (pids : List ℕ)
      → length es < 256
      → IsRoster end es pids
      → IsRoster end (es ++ e ∷ []) (note_pid pids (end e))
  note_pid-IsRoster end es e pids room r = elim (Bool-cases (seen pids (end e))) [
    | inl old ↦
        rw (note_pid_old pids (end e) old)
          (IsRoster-old end es e pids ((seen_iff pids (end e)).0 old) r)
    | inr new ↦
        rw (note_pid_new pids (end e) new (omega (arith, r.short)))
          (IsRoster-new end es e pids (λ m. let h = (seen_iff pids (end e)).1 m in cc) r)
  ]
