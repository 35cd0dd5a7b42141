-- ===== src/Pressure/Contributors.antt =====
-- src/runtime_state.c: pg_circuit_format_pressure_contributors and its insertion sort.
use pg_circuit.Prelude.{
  subst, ℤ, pos, ◌≤ℤ◌, ltb_ℤ, leb_ℤ, if◌then◌else◌, List, [], ◌∷◌, ◌++◌, CString, codes, show_ℤ,
  inl, inr, Bool-cases, arith,
}
use mathlib.Core.List.{Perm, perm_middle, append-nil}
use mathlib.Core.List.Perm
use pg_circuit.Reporting.{safety_mode_name}
use pg_circuit.Runtime.{RuntimeState}

-- `Contrib`
pub record Part : Type 0 where
  pub name : CString
  pub contrib : ℤ

-- The inner loop, which moves smaller elements up and puts `tmp` below them. The sorted part of the
-- array comes last element first.
unfoldable pub shift_part : Part → List Part → List Part
shift_part tmp [] = tmp ∷ []
shift_part tmp (p ∷ ps) =
    let rest = p ∷ shift_part tmp ps in if ltb_ℤ p.contrib tmp.contrib then rest else tmp ∷ p ∷ ps

-- The outer loop over the rest of the array; `sorted` as for `shift_part`.
unfoldable pub sort_onto : List Part → List Part → List Part
unfolding shift_part
sort_onto sorted [] = sorted
sort_onto sorted (tmp ∷ parts) = sort_onto (shift_part tmp sorted) parts

-- A list that comes last element first, put in front of `acc` in its order.
unfoldable pub in_order : List Part → List Part → List Part
in_order [] acc = acc
in_order (p ∷ ps) acc = in_order ps (p ∷ acc)

unfoldable pub sort_parts : List Part → List Part
unfolding sort_onto in_order
sort_parts parts = in_order (sort_onto [] parts) []

-- The array `parts` as it is filled.
unfoldable pub parts_of : {D : Type 0} → RuntimeState D → List Part
parts_of state =
    record { name = codes "transactions"; contrib = state.pressure_tx }
    ∷ record { name = codes "locks"; contrib = state.pressure_locks }
    ∷ record { name = codes "replication_lag"; contrib = state.pressure_replication }
    ∷ record { name = codes "wal"; contrib = state.pressure_wal }
    ∷ record { name = codes "connection_pressure"; contrib = state.pressure_connections }
    ∷ []

-- The last loop.
unfoldable pub format_parts : List Part → CString
format_parts [] = []
format_parts (p ∷ ps) =
    let rest = format_parts ps in
    if leb_ℤ p.contrib (pos 0)
    then rest
    else codes "  " ++ p.name ++ codes " +" ++ show_ℤ p.contrib ++ codes "\n" ++ rest

-- `pg_circuit_format_pressure_contributors`
unfoldable pub format_pressure_contributors : {D : Type 0} → RuntimeState D → CString
unfolding sort_parts parts_of format_parts safety_mode_name
format_pressure_contributors state =
    codes "effective_mode: "
    ++ safety_mode_name state.mode
    ++ codes "\n"
    ++ codes "note: Community effective mode is always NORMAL; pressure is display-only\n"
    ++ codes "pressure_score: "
    ++ show_ℤ state.pressure_score
    ++ codes "\n"
    ++ codes "contributors:\n"
    ++ format_parts (sort_parts (parts_of state))

-- `x` is at most the first element's number, if there is one.
abbrev Below : ℤ → List Part → Type 0
Below x [] = Unit {0}
Below x (p ∷ ps) = x ≤ℤ p.contrib

abbrev IsAscending : List Part → Type 0
IsAscending [] = Unit {0}
IsAscending (p ∷ ps) = Below p.contrib ps × IsAscending ps

-- Each number is at least the next.
abbrev pub IsDescending : List Part → Type 0
IsDescending [] = Unit {0}
IsDescending (p ∷ []) = Unit {0}
IsDescending (p ∷ q ∷ ps) = (q.contrib ≤ℤ p.contrib) × IsDescending (q ∷ ps)

shift_part-Below :
    (x : ℤ) (tmp : Part) (ps : List Part)
    → x ≤ℤ tmp.contrib
    → Below x ps
    → Below x (shift_part tmp ps)
unfolding shift_part
shift_part-Below x tmp [] h b = h
shift_part-Below x tmp (p ∷ ps) h b = ground arith

shift_part-IsAscending :
    (tmp : Part) (ps : List Part) → IsAscending ps → IsAscending (shift_part tmp ps)
unfolding shift_part
shift_part-IsAscending tmp [] h = (tt, tt)
shift_part-IsAscending tmp (p ∷ ps) h = elim (Bool-cases (ltb_ℤ p.contrib tmp.contrib)) [
  | inl less ↦ rw less (
    shift_part-Below p.contrib tmp ps (grind (arith, less)) h.0,
    shift_part-IsAscending tmp ps h.1,
  )
  | inr more ↦ rw more (grind (arith, more), h)
]

sort_onto-IsAscending :
    (sorted parts : List Part) → IsAscending sorted → IsAscending (sort_onto sorted parts)
unfolding sort_onto
sort_onto-IsAscending sorted [] h = h
sort_onto-IsAscending sorted (tmp ∷ parts) h =
    sort_onto-IsAscending (shift_part tmp sorted) parts (shift_part-IsAscending tmp sorted h)

-- The first of `acc` is at most the first of `ps`.
abbrev Meets : List Part → List Part → Type 0
Meets ps [] = Unit {0}
Meets ps (q ∷ acc) = Below q.contrib ps

in_order-IsDescending :
    (ps acc : List Part)
    → IsAscending ps
    → IsDescending acc
    → Meets ps acc
    → IsDescending (in_order ps acc)
unfolding in_order
in_order-IsDescending [] acc h d m = d
in_order-IsDescending (p ∷ ps) [] h d m = in_order-IsDescending ps (p ∷ []) h.1 tt h.0
in_order-IsDescending (p ∷ ps) (q ∷ acc) h d m =
    in_order-IsDescending ps (p ∷ q ∷ acc) h.1 (m, d) h.0

shift_part-Perm : (tmp : Part) (ps : List Part) → Perm (shift_part tmp ps) (tmp ∷ ps)
unfolding shift_part
shift_part-Perm tmp [] = Perm.refl (tmp ∷ [])
shift_part-Perm tmp (p ∷ ps) = elim (Bool-cases (ltb_ℤ p.contrib tmp.contrib)) [
  | inl less ↦ rw less (Perm.trans (Perm.cons p (shift_part-Perm tmp ps)) (Perm.swap tmp p ps))
  | inr more ↦ rw more (Perm.refl (tmp ∷ p ∷ ps))
]

sort_onto-Perm : (sorted parts : List Part) → Perm (sort_onto sorted parts) (parts ++ sorted)
unfolding sort_onto
sort_onto-Perm sorted [] = Perm.refl sorted
sort_onto-Perm sorted (tmp ∷ parts) =
    Perm.trans (sort_onto-Perm (shift_part tmp sorted) parts)
      (Perm.trans (Perm.append_left parts (shift_part-Perm tmp sorted)) (perm_middle parts sorted))

in_order-Perm : (ps acc : List Part) → Perm (in_order ps acc) (ps ++ acc)
unfolding in_order
in_order-Perm [] acc = Perm.refl acc
in_order-Perm (p ∷ ps) acc = Perm.trans (in_order-Perm ps (p ∷ acc)) (perm_middle ps acc)

-- Sorting puts the parts from the highest to the lowest, each exactly once.
pub sort_parts_lem :
    (parts : List Part) → IsDescending (sort_parts parts) × Perm (sort_parts parts) parts
unfolding sort_parts
sort_parts_lem parts = (
  in_order-IsDescending (sort_onto [] parts) [] (sort_onto-IsAscending [] parts tt) tt tt,
  Perm.trans (in_order-Perm (sort_onto [] parts) []) (
      rw (append-nil (sort_onto [] parts))
        (subst (λ l. Perm (sort_onto [] parts) l) (append-nil parts) (sort_onto-Perm [] parts))),
)
