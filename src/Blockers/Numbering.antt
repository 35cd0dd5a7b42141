-- ===== src/Blockers/Numbering.antt =====
-- The numbering of process ids in src/blocker_graph.c: pid_index, and the loop that adds ids.
use pg_circuit.Prelude.{
  ℕ, zero, suc, ◌+◌, ◌≤◌, ◌<◌, ◌≡◌, refl, sym, ap, ◌∙◌, subst, ◌==◌, List, [], ◌∷◌, ◌++◌, length,
  get_or, none, some, length-append, Option-cases, Bool-cases, inl, inr, arith,
}
use mathlib.Core.Option.{some-injective, none-ne-some}
use native.Mathlib.Decide.{dec_lt}
use pg_circuit.Blockers.{Edge, pid_index, intern, scan_edge}

pub pid_index-get_or :
    (pids : List ℕ) (p k : ℕ)
    → pid_index pids p ≡ some k
    → (k < length pids) × (get_or pids k 0 ≡ p)
unfolding pid_index
pid_index-get_or [] p k h = cc
pid_index-get_or (q ∷ pids) p zero h = ground arith
pid_index-get_or (q ∷ pids) p (suc k) h = ground (arith, pid_index-get_or pids p k)

pid_index-append :
    (pids more : List ℕ) (p k : ℕ) → pid_index pids p ≡ some k → pid_index (pids ++ more) p ≡ some k
unfolding pid_index
pid_index-append [] more p k h = cc
pid_index-append (q ∷ pids) more p zero h = elim (Bool-cases (q == p)) [
  | inl same ↦ rw same
  | inr other ↦ ground (arith, Option-cases (pid_index pids p))
]
pid_index-append (q ∷ pids) more p (suc k) h = ground (arith, pid_index-append pids more p k)

pid_index-append_self :
    (pids : List ℕ) (p : ℕ)
    → pid_index pids p ≡ none
    → pid_index (pids ++ p ∷ []) p ≡ some (length pids)
unfolding pid_index
pid_index-append_self [] p h = ground arith
pid_index-append_self (q ∷ pids) p h = ground (arith, pid_index-append_self pids p)

get_or-append : (xs ys : List ℕ) (i : ℕ) → i < length xs → get_or (xs ++ ys) i 0 ≡ get_or xs i 0
get_or-append [] ys i h = absurd (omega arith)
get_or-append (x ∷ xs) ys zero h = refl
get_or-append (x ∷ xs) ys (suc i) h = get_or-append xs ys i (omega arith)

-- The list after `p` got the index `k`: it has `p` there, and no other index has changed.
pub record Interned (pids : List ℕ) (p k : ℕ) (pids' : List ℕ) : Type 0 where
  pub index : pid_index pids' p ≡ some k
  pub stable : (q j : ℕ) → pid_index pids q ≡ some j → pid_index pids' q ≡ some j
  pub named : (i : ℕ) → i < length pids → get_or pids' i 0 ≡ get_or pids i 0
  pub grows : length pids ≤ length pids'
  pub small : length pids ≤ 64 → length pids' ≤ 64

Interned-old : (pids : List ℕ) (p k : ℕ) → pid_index pids p ≡ some k → Interned pids p k pids
Interned-old pids p k h = record {
  index = h;
  stable = λ q j e. e;
  named = λ i e. refl;
  grows = omega arith;
  small = λ e. e;
}

Interned-new :
    (pids : List ℕ) (p : ℕ)
    → pid_index pids p ≡ none
    → length pids < 64
    → Interned pids p (length pids) (pids ++ p ∷ [])
Interned-new pids p h room = record {
  index = pid_index-append_self pids p h;
  stable = λ q j e. pid_index-append pids (p ∷ []) q j e;
  named = λ i e. get_or-append pids (p ∷ []) i e;
  grows = omega (arith, length-append pids (p ∷ []));
  small = λ e. omega (arith, length-append pids (p ∷ []));
}

-- What `intern` computes: an index that is there, no room, or the next index.
intern_old : (pids : List ℕ) (p k : ℕ) → pid_index pids p ≡ some k → intern pids p ≡ some (k, pids)
unfolding intern
intern_old pids p k h = ground arith

intern_new :
    (pids : List ℕ) (p : ℕ)
    → pid_index pids p ≡ none
    → length pids < 64
    → intern pids p ≡ some (length pids, pids ++ p ∷ [])
unfolding intern
intern_new pids p h room = ground arith

intern_full :
    (pids : List ℕ) (p : ℕ) → pid_index pids p ≡ none → 64 ≤ length pids → intern pids p ≡ none
unfolding intern
intern_full pids p h full = ground arith

pub intern-Interned :
    (pids : List ℕ) (p : ℕ) {r : ℕ × List ℕ} → intern pids p ≡ some r → Interned pids p r.0 r.1
intern-Interned pids p {r} h = elim (Option-cases (pid_index pids p)) [
  | inr (k, old) ↦
      subst (λ (t : ℕ × List ℕ). Interned pids p t.0 t.1)
        (some-injective _ _ (sym (intern_old pids p k old) ∙ h)) (Interned-old pids p k old)
  | inl new ↦ elim (dec_lt (length pids) 64) [
    | yes room ↦
        subst (λ (t : ℕ × List ℕ). Interned pids p t.0 t.1)
          (some-injective _ _ (sym (intern_new pids p new room) ∙ h)) (Interned-new pids p new room)
    | no full ↦ absurd (none-ne-some r (sym (intern_full pids p new (omega arith)) ∙ h))
  ]
]

-- How many elements of `known` have no index.
pub missing : List ℕ → List ℕ → ℕ
missing [] pids = 0
missing (q ∷ known) pids = elim (pid_index pids q) [
  | some k ↦ missing known pids
  | none ↦ suc (missing known pids)
]

missing-append : (known pids : List ℕ) (p : ℕ) → missing known (pids ++ p ∷ []) ≤ missing known pids
unfolding missing
missing-append [] pids p = omega arith
missing-append (q ∷ known) pids p = elim (Option-cases (pid_index pids q)) [
  | inr (k, old) ↦
      ground (arith, missing-append known pids p, pid_index-append pids (p ∷ []) q k old)
  | inl new ↦ ground (arith, missing-append known pids p)
]

missing-append_self :
    (known pids : List ℕ) (p j : ℕ)
    → pid_index known p ≡ some j
    → pid_index pids p ≡ none
    → missing known (pids ++ p ∷ []) < missing known pids
unfolding missing pid_index
missing-append_self [] pids p j h new = ground arith
missing-append_self (q ∷ known) pids p j h new = elim (Bool-cases (q == p)) [
  | inl same ↦ ground (arith, missing-append known pids p, pid_index-append_self pids p new)
  | inr other ↦ elim (Option-cases (pid_index known p)) [
    | inl absent ↦ ground arith
    | inr (k, there) ↦ elim (Option-cases (pid_index pids q)) [
      | inr (l, old) ↦ ground (
        arith,
        missing-append_self known pids p k there new,
        pid_index-append pids (p ∷ []) q l old,
      )
      | inl fresh ↦ ground (arith, missing-append_self known pids p k there new)
    ]
  ]
]

-- There is room for every id of `known` that has no index yet.
abbrev pub Fits : List ℕ → List ℕ → Type 0
Fits known pids = length pids + missing known pids ≤ 64

missing_nil : (known : List ℕ) → missing known [] ≡ length known
unfolding missing pid_index
missing_nil [] = refl
missing_nil (q ∷ known) = ap suc (missing_nil known)

pub Fits-nil : (known : List ℕ) → length known ≤ 64 → Fits known []
Fits-nil known h = omega (arith, missing_nil known)

-- With room for all of `known`, a member of it gets an index, and there is room for the rest.
pub intern-Fits :
    (known pids : List ℕ) (p j : ℕ)
    → pid_index known p ≡ some j
    → Fits known pids
    → (r : ℕ × List ℕ) × (intern pids p ≡ some r) × Fits known r.1
intern-Fits known pids p j member fits = elim (Option-cases (pid_index pids p)) [
  | inr (k, old) ↦ ((k, pids), intern_old pids p k old, fits)
  | inl new ↦
      let less = missing-append_self known pids p j member new in
      let room : length pids < 64 = omega arith in
      (
        (length pids, pids ++ p ∷ []),
        intern_new pids p new room,
        omega (arith, less, length-append pids (p ∷ [])),
      )
]

-- The three ways through the body of the loop over the edges.
module _ {D S : Type 0} (mark : ℕ → ℕ → S → S) (e : Edge D) (pids : List ℕ) (s : S) where
  pub scan_edge_full : intern pids e.blocked_pid ≡ none → scan_edge mark e (pids, s) ≡ (pids, s)
  unfolding scan_edge
  scan_edge_full h = rw (h, scan_edge)

  pub scan_edge_half :
      (r : ℕ × List ℕ)
      → intern pids e.blocked_pid ≡ some r
      → intern r.1 e.blocking_pid ≡ none
      → scan_edge mark e (pids, s) ≡ (r.1, s)
  unfolding scan_edge
  scan_edge_half r h k = rw (h, k, scan_edge)

  pub scan_edge_both :
      (r t : ℕ × List ℕ)
      → intern pids e.blocked_pid ≡ some r
      → intern r.1 e.blocking_pid ≡ some t
      → scan_edge mark e (pids, s) ≡ (t.1, mark r.0 t.0 s)
  unfolding scan_edge
  scan_edge_both r t h k = rw (h, k, scan_edge)
