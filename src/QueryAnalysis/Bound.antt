-- ===== src/QueryAnalysis/Bound.antt =====
-- The bound on the rows that src/query_analysis.c and src/relations.c estimate.
use pg_circuit.Prelude.{
  sym, ℕ, ◌≡◌, ◌⊎◌, inl, inr, refl, pos, negsuc, Bool, true, false, ◌&&◌, if◌then◌else◌, Option,
  none, some, Bool-cases,
}
use pg_circuit.Platform.{Float}
use pg_circuit.Risk.{QueryInfo}
use pg_circuit.Relations.{
  Catalog, relation_estimated_tuples, relation_physical_tuple_bound, relation_table_rows_estimate,
}
use pg_circuit.QueryAnalysis.{
  CmdType, PlannedStmt, Query, clamp_estimated_rows, affected_rows, write_info, init_query_info,
  analyze_query, analyze_plannedstmt, result_relation_oid, query_has_where, plan_estimated_rows,
  planned_relation_oid, planned_has_where,
}

-- What doubles are documented to do: `x < x` is false, also for a NaN, `-1 < 0` is true, no number is
-- both above and below 0, 0 times a whole number is 0, and no product of whole numbers is below 0.
pub record IsOrdered (F : Float) : Type 0 where
  pub irreflexive : (x : F.Double) → F.lt x x ≡ false
  pub below_zero : F.lt (F.of_int (negsuc 0)) (F.of_int (pos 0)) ≡ true
  pub one_sided :
      (x : F.Double) → F.lt (F.of_int (pos 0)) x ≡ true → F.lt x (F.of_int (pos 0)) ≡ false
  pub times_zero : (n : ℕ) → F.mul (F.of_int (pos 0)) (F.of_int (pos n)) ≡ F.of_int (pos 0)
  pub product :
      (m n : ℕ) → F.le (F.of_int (pos 0)) (F.mul (F.of_int (pos m)) (F.of_int (pos n))) ≡ true

module _ (F : Float) (C : Catalog F.Double) where
  open F use {Double, of_int, lt, le, mul}

  -- The estimate `rows` is below 0, for unknown, or the physical bound of the relation is unknown, or
  -- the estimate is not above it.
  abbrev pub IsBounded : ℕ → Double → Type 0
  IsBounded relid rows =
      (lt rows (of_int (pos 0)) ≡ true)
      ⊎ (le (of_int (pos 0)) (relation_physical_tuple_bound F C relid) ≡ false)
      ⊎ (lt (relation_physical_tuple_bound F C relid) rows ≡ false)

  -- The value that is chosen by the two tests.
  chosen_lem :
      (a b : Bool) (bound rows : Double)
      → a ≡ le (of_int (pos 0)) bound
      → b ≡ lt bound rows
      → lt bound bound ≡ false
      → let r = if◌then◌else◌ {A = Double} (a && b) bound rows in
        (le (of_int (pos 0)) bound ≡ false) ⊎ (lt bound r ≡ false)
  chosen_lem true true bound rows ha hb same = inr same
  chosen_lem true false bound rows ha hb same = inr (sym hb)
  chosen_lem false b bound rows ha hb same = inl (sym ha)

  clamp_estimated_rows-IsBounded :
      (relid : ℕ) (rows : Double)
      → IsOrdered F
      → IsBounded relid (clamp_estimated_rows F C relid rows)
  unfolding clamp_estimated_rows
  clamp_estimated_rows-IsBounded relid rows o = elim (Bool-cases (lt rows (of_int (pos 0)))) [
    | inl unknown ↦ rw (unknown, clamp_estimated_rows) (inl unknown)
    | inr known ↦
        rw (known, clamp_estimated_rows)
          (inr (
            chosen_lem _ _ (relation_physical_tuple_bound F C relid) rows refl refl
              (o.irreflexive _)))
  ]

  -- The same of what a statement may be said to affect.
  abbrev pub HasBoundedRows : QueryInfo Double → Type 0
  HasBoundedRows q = IsBounded q.relation_oid q.estimated_rows

  init_query_info-HasBoundedRows : IsOrdered F → HasBoundedRows (init_query_info F C)
  unfolding init_query_info
  init_query_info-HasBoundedRows o = inl o.below_zero

  write_info-HasBoundedRows :
      (command : CmdType) (relid : ℕ) (has_where : Bool) (rows : Double)
      → IsOrdered F
      → HasBoundedRows (write_info F C command relid has_where rows)
  unfolding write_info affected_rows
  write_info-HasBoundedRows command relid has_where rows o =
      clamp_estimated_rows-IsBounded relid _ o

  command-HasBoundedRows :
      (command : CmdType) (relid : ℕ) (has_where : Bool) (rows : Double)
      → IsOrdered F
      → HasBoundedRows (elim command as (λ k. QueryInfo Double) [
        | CmdType.other_command ↦ init_query_info F C
        | k ↦ write_info F C k relid has_where rows
      ])
  command-HasBoundedRows CmdType.other_command relid has_where rows o =
      init_query_info-HasBoundedRows o
  command-HasBoundedRows k relid has_where rows o =
      write_info-HasBoundedRows k relid has_where rows o

  pub analyze_query-HasBoundedRows :
      (query : Option Query) (stmt : Option (PlannedStmt Double))
      → IsOrdered F
      → HasBoundedRows (analyze_query F C query stmt)
  unfolding analyze_query
  analyze_query-HasBoundedRows none stmt o = init_query_info-HasBoundedRows o
  analyze_query-HasBoundedRows (some q) stmt o =
      command-HasBoundedRows q.command (result_relation_oid q) (query_has_where q)
        (plan_estimated_rows F C stmt) o

  pub analyze_plannedstmt-HasBoundedRows :
      (stmt : Option (PlannedStmt Double))
      → IsOrdered F
      → HasBoundedRows (analyze_plannedstmt F C stmt)
  unfolding analyze_plannedstmt
  analyze_plannedstmt-HasBoundedRows none o = init_query_info-HasBoundedRows o
  analyze_plannedstmt-HasBoundedRows (some stmt) o =
      command-HasBoundedRows stmt.command (planned_relation_oid F C stmt)
        (planned_has_where F C stmt) (plan_estimated_rows F C (some stmt)) o

  pub relation_table_rows_estimate-IsBounded :
      (relid : ℕ) → IsOrdered F → IsBounded relid (relation_table_rows_estimate F C relid)
  unfolding relation_table_rows_estimate
  relation_table_rows_estimate-IsBounded relid o =
      let tuples = relation_estimated_tuples F C relid in
      let bound = relation_physical_tuple_bound F C relid in
      elim (Bool-cases (lt (of_int (pos 0)) tuples)) [
        | inl known ↦
            rw (known, relation_table_rows_estimate)
              (inr (chosen_lem _ _ bound tuples refl refl (o.irreflexive bound)))
        | inr unknown ↦ elim (Bool-cases (lt (of_int (pos 0)) bound)) [
          | inl high ↦
              rw (unknown, high, relation_table_rows_estimate) (inr (inr (o.irreflexive bound)))
          | inr low ↦ rw (unknown, low, relation_table_rows_estimate) (inl o.below_zero)
        ]
      ]
