-- ===== src/Utility/Fill.antt =====
-- fill_relation_from_rangevar of src/utility_analysis.c changes the fields of the relation alone.
use pg_circuit.Prelude.{◌≡◌, refl, ◌==◌, Option, none, some, Bool-cases, inl, inr}
use pg_circuit.Platform.{Float}
use pg_circuit.Risk.{QueryInfo}
use pg_circuit.Relations.{Catalog}
use pg_circuit.Utility.{fill_relation_from_rangevar}

pub fill-kind :
    (F : Float) (C : Catalog F.Double) (rv : Option C.RangeVar) (q : QueryInfo F.Double)
    → (fill_relation_from_rangevar F C rv q).kind ≡ q.kind
unfolding fill_relation_from_rangevar
fill-kind F C none q = refl
fill-kind F C (some rv) q = elim (Bool-cases (C.get_relid rv == 0)) [
  | inl missing ↦ rw missing
  | inr found ↦ rw found
]

pub fill-relation_oid :
    (F : Float) (C : Catalog F.Double) (rv : C.RangeVar) (q : QueryInfo F.Double)
    → (fill_relation_from_rangevar F C (some rv) q).relation_oid ≡ C.get_relid rv
unfolding fill_relation_from_rangevar
fill-relation_oid F C rv q = elim (Bool-cases (C.get_relid rv == 0)) [
  | inl missing ↦ rw missing
  | inr found ↦ rw found
]
