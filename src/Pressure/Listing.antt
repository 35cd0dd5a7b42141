-- ===== src/Pressure/Listing.antt =====
-- The list that pg_circuit_format_pressure_contributors of src/runtime_state.c writes.
use pg_circuit.Prelude.{
  ◌≡◌, refl, ap, subst, ℤ, pos, ◌≤ℤ◌, ltb_ℤ, leb_ℤ, Bool, true, false, if◌then◌else◌, List, [], ◌∷◌,
  ◌++◌, CString, codes, show_ℤ, All, inl, inr, Bool-cases, arith,
}
use mathlib.Core.Logic.{∥∥₁_map}
use mathlib.Core.List.{Perm, Permᴰ}
use mathlib.Core.List.Permᴰ
use pg_circuit.Reporting.{safety_mode_name}
use pg_circuit.Runtime.{RuntimeState}
use pg_circuit.Pressure.Contributors.{
  Part, parts_of, sort_parts, format_parts, format_pressure_contributors, IsDescending,
  sort_parts_lem,
}

-- The parts that add to the pressure.
pub positive_parts : List Part → List Part
positive_parts [] = []
positive_parts (p ∷ ps) =
    let rest = positive_parts ps in if ltb_ℤ (pos 0) p.contrib then p ∷ rest else rest

-- The five parts of the pressure under their names.
abbrev pub five_parts : {D : Type 0} → RuntimeState D → List Part
five_parts state =
    record { name = codes "transactions"; contrib = state.pressure_tx }
    ∷ record { name = codes "locks"; contrib = state.pressure_locks }
    ∷ record { name = codes "replication_lag"; contrib = state.pressure_replication }
    ∷ record { name = codes "wal"; contrib = state.pressure_wal }
    ∷ record { name = codes "connection_pressure"; contrib = state.pressure_connections }
    ∷ []

-- A line for each part.
pub lines_of : List Part → CString
lines_of [] = []
lines_of (p ∷ ps) =
    codes "  " ++ p.name ++ codes " +" ++ show_ℤ p.contrib ++ codes "\n" ++ lines_of ps

abbrev pub heading : {D : Type 0} → RuntimeState D → CString → CString
heading state rest =
    codes "effective_mode: "
    ++ safety_mode_name state.mode
    ++ codes "\n"
    ++ codes "note: Community effective mode is always NORMAL; pressure is display-only\n"
    ++ codes "pressure_score: "
    ++ show_ℤ state.pressure_score
    ++ codes "\n"
    ++ codes "contributors:\n"
    ++ rest

-- No part has a number above that of a part before it.
abbrev pub IsRanked : List Part → Type 0
IsRanked [] = Unit {0}
IsRanked (p ∷ ps) = All (λ q. q.contrib ≤ℤ p.contrib) ps × IsRanked ps

format_parts-lines_of : (ps : List Part) → format_parts ps ≡ lines_of (positive_parts ps)
unfolding format_parts positive_parts lines_of
format_parts-lines_of [] = refl
format_parts-lines_of (p ∷ ps) = elim (Bool-cases (leb_ℤ p.contrib (pos 0))) [
  | inl none_added ↦
      let low : ltb_ℤ (pos 0) p.contrib ≡ false = ground (arith, none_added) in
      rw (none_added, low) (format_parts-lines_of ps)
  | inr added ↦
      let high : ltb_ℤ (pos 0) p.contrib ≡ true = ground (arith, added) in
      rw (added, high)
        (ap (λ rest. codes "  " ++ p.name ++ codes " +" ++ show_ℤ p.contrib ++ codes "\n" ++ rest)
          (format_parts-lines_of ps))
]

below_first :
    (x : ℤ) (p : Part) (ps : List Part)
    → p.contrib ≤ℤ x
    → IsDescending (p ∷ ps)
    → All (λ q. q.contrib ≤ℤ x) (p ∷ ps)
below_first x p [] h d = (h, tt)
below_first x p (q ∷ ps) h d = (h, below_first x q ps (grind (arith, h, d.0)) d.1)

IsDescending-IsRanked : (ps : List Part) → IsDescending ps → IsRanked ps
IsDescending-IsRanked [] d = tt
IsDescending-IsRanked (p ∷ []) d = (tt, tt)
IsDescending-IsRanked (p ∷ q ∷ ps) d =
    (below_first p.contrib q ps d.0 d.1, IsDescending-IsRanked (q ∷ ps) d.1)

All-positive_parts : (P : Part → Type 0) (ps : List Part) → All P ps → All P (positive_parts ps)
unfolding positive_parts
All-positive_parts P [] h = tt
All-positive_parts P (p ∷ ps) (first, h) = elim (Bool-cases (ltb_ℤ (pos 0) p.contrib)) [
  | inl added ↦ rw added (first, All-positive_parts P ps h)
  | inr none_added ↦ rw none_added (All-positive_parts P ps h)
]

IsRanked-positive_parts : (ps : List Part) → IsRanked ps → IsRanked (positive_parts ps)
unfolding positive_parts
IsRanked-positive_parts [] h = tt
IsRanked-positive_parts (p ∷ ps) (first, h) = elim (Bool-cases (ltb_ℤ (pos 0) p.contrib)) [
  | inl added ↦
      rw added
        (All-positive_parts (λ q. q.contrib ≤ℤ p.contrib) ps first, IsRanked-positive_parts ps h)
  | inr none_added ↦ rw none_added (IsRanked-positive_parts ps h)
]

positive_parts-cons :
    (p : Part) (xs ys : List Part)
    → Permᴰ (positive_parts xs) (positive_parts ys)
    → Permᴰ (positive_parts (p ∷ xs)) (positive_parts (p ∷ ys))
unfolding positive_parts
positive_parts-cons p xs ys h = elim (Bool-cases (ltb_ℤ (pos 0) p.contrib)) [
  | inl added ↦ rw added (Permᴰ.cons refl h)
  | inr none_added ↦ rw none_added h
]

positive_parts-swap :
    (p q : Part) (xs : List Part)
    → Permᴰ (positive_parts (p ∷ q ∷ xs)) (positive_parts (q ∷ p ∷ xs))
unfolding positive_parts
positive_parts-swap p q xs =
    by_tests (ltb_ℤ (pos 0) p.contrib) (ltb_ℤ (pos 0) q.contrib) (positive_parts xs)
  where
    by_tests :
        (a b : Bool) (r : List Part)
        → Permᴰ
            (if a then p ∷ (if b then q ∷ r else r) else (if b then q ∷ r else r))
            (if b then q ∷ (if a then p ∷ r else r) else (if a then p ∷ r else r))
    by_tests true true r = Permᴰ.swap refl refl
    by_tests true false r = Permᴰ.refl (p ∷ r)
    by_tests false true r = Permᴰ.refl (q ∷ r)
    by_tests false false r = Permᴰ.refl r

positive_parts-Permᴰ :
    {xs ys : List Part} → Permᴰ xs ys → Permᴰ (positive_parts xs) (positive_parts ys)
unfolding positive_parts
positive_parts-Permᴰ Permᴰ.nil = Permᴰ.nil
positive_parts-Permᴰ (Permᴰ.cons {a = a} {b = b} {l₁ = xs} {l₂ = ys} e h) =
    subst (λ c. Permᴰ (positive_parts (a ∷ xs)) (positive_parts (c ∷ ys))) e
      (positive_parts-cons a xs ys (positive_parts-Permᴰ h))
positive_parts-Permᴰ (Permᴰ.swap {a = a} {b = b} {a' = a'} {b' = b'} {l = xs} e e') =
    subst (λ c. Permᴰ (positive_parts (a ∷ b ∷ xs)) (positive_parts (a' ∷ c ∷ xs))) e
      (subst (λ c. Permᴰ (positive_parts (a ∷ b ∷ xs)) (positive_parts (c ∷ a ∷ xs))) e'
        (positive_parts-swap a b xs))
positive_parts-Permᴰ (Permᴰ.trans h k) =
    Permᴰ.trans (positive_parts-Permᴰ h) (positive_parts-Permᴰ k)

-- Behind the heading, the text has a line for each of the five parts of the pressure that is above 0,
-- exactly once, from the highest to the lowest, and no other line.
pub format_pressure_contributors_lem :
    {D : Type 0} (state : RuntimeState D)
    → (listed : List Part) × (format_pressure_contributors state ≡ heading state (lines_of listed))
      × IsRanked listed
      × Perm listed (positive_parts (five_parts state))
unfolding format_pressure_contributors parts_of
format_pressure_contributors_lem state =
    let sorted = sort_parts (parts_of state) in
    let (descends, permutes) = sort_parts_lem (parts_of state) in
    (
      positive_parts sorted,
      ap (heading state) (format_parts-lines_of sorted),
      IsRanked-positive_parts sorted (IsDescending-IsRanked sorted descends),
      ∥∥₁_map permutes positive_parts-Permᴰ,
    )
