-- ===== src/QueryAnalysis/Rows.antt =====
-- The rows that src/query_analysis.c and src/relations.c estimate.
use pg_circuit.Prelude.{
  sym, ap, ◌∙◌, ℕ, ◌≡◌, ◌⊎◌, inl, inr, refl, pos, negsuc, Bool, true, false, not, ◌&&◌,
  if◌then◌else◌, ◌==◌, Option, none, some, Bool-cases, arith,
}
use mathlib.Core.Bool.{true≢false}
use pg_circuit.Platform.{Float}
use pg_circuit.Risk.{QueryInfo}
use pg_circuit.Relations.{
  Catalog, relation_estimated_tuples, relation_physical_tuple_bound, relation_table_rows_estimate,
}
use pg_circuit.QueryAnalysis.Bound.{
  IsOrdered, IsBounded, analyze_query-HasBoundedRows, analyze_plannedstmt-HasBoundedRows,
  relation_table_rows_estimate-IsBounded,
}
use pg_circuit.QueryAnalysis.Kinds.{IsUnfiltered, tree_has_where-IsUnfiltered}
use pg_circuit.QueryAnalysis.{
  CmdType, PlannedStmt, Query, clamp_estimated_rows, affected_rows, write_info, init_query_info,
  analyze_query, analyze_plannedstmt, plan_estimated_rows, planned_relation_oid, planned_has_where,
}

module _ (F : Float) (C : Catalog F.Double) where
  open F use {Double, of_int, lt, le, mul}

  -- The pages of a relation, if it can be opened.
  pub pages_of : ℕ → Option ℕ
  pages_of relid =
      if relid == 0
      then none
      else elim (C.open_relation relid) [ none ↦ none | some (pages, tuples) ↦ some pages ]

  -- The estimate `rows` is below 0, for unknown, or not above the tuples that fit into the pages.
  abbrev pub Fits : Option ℕ → Double → Type 0
  Fits none rows = Unit
  Fits (some pages) rows =
      (lt rows (of_int (pos 0)) ≡ true)
      ⊎ (lt (mul (of_int (pos pages)) (of_int (pos C.max_tuples_per_page))) rows ≡ false)

  -- It fits into all the pages of the relation, where that can be opened.
  abbrev pub IsCapped : ℕ → Double → Type 0
  IsCapped relid rows = Fits (pages_of relid) rows

  abbrev pub HasCappedRows : QueryInfo Double → Type 0
  HasCappedRows q = IsCapped q.relation_oid q.estimated_rows

  -- The bound on some pages is the product, also for no page.
  pages_bound :
      (pages : ℕ)
      → IsOrdered F
      → let room = mul (of_int (pos pages)) (of_int (pos C.max_tuples_per_page)) in
        (if pages == 0 then of_int (pos 0) else room) ≡ room
  pages_bound pages o = elim (Bool-cases (pages == 0)) [
    | inl empty ↦
        let none_there : pages ≡ 0 = ground arith in
        rw (empty, none_there) (sym (o.times_zero C.max_tuples_per_page))
    | inr some_there ↦ rw some_there refl
  ]

  Fits-bound :
      (pages : ℕ) (rows bound : Double)
      → IsOrdered F
      → bound ≡ mul (of_int (pos pages)) (of_int (pos C.max_tuples_per_page))
      → (lt rows (of_int (pos 0)) ≡ true)
        ⊎ (le (of_int (pos 0)) bound ≡ false)
        ⊎ (lt bound rows ≡ false)
      → Fits (some pages) rows
  Fits-bound pages rows bound o e (inl unknown) = inl unknown
  Fits-bound pages rows bound o e (inr (inl low)) = absurd (
      true≢false
        (sym (o.product pages C.max_tuples_per_page) ∙ sym (ap (le (of_int (pos 0))) e) ∙ low))
  Fits-bound pages rows bound o e (inr (inr fits)) = inr (sym (ap (λ b. lt b rows) e) ∙ fits)

  IsBounded-IsCapped :
      (relid : ℕ) (rows : Double) → IsOrdered F → IsBounded F C relid rows → IsCapped relid rows
  unfolding pages_of relation_physical_tuple_bound
  IsBounded-IsCapped relid rows o = by_relation (relid == 0) (C.open_relation relid)
    where
      by_relation :
          (missing : Bool) (opened : Option (ℕ × Double))
          → let bound =
              if◌then◌else◌ {A = Double} missing (of_int (negsuc 0)) (elim opened as (λ x. Double) [
                | none ↦ of_int (negsuc 0)
                | some (pages, tuples) ↦
                    if pages == 0
                    then of_int (pos 0)
                    else mul (of_int (pos pages)) (of_int (pos C.max_tuples_per_page))
              ]) in
            (lt rows (of_int (pos 0)) ≡ true)
              ⊎ (le (of_int (pos 0)) bound ≡ false)
              ⊎ (lt bound rows ≡ false)
            → Fits
                (if◌then◌else◌ {A = Option ℕ} missing none (elim opened as (λ x. Option ℕ) [
                  | none ↦ none
                  | some (pages, tuples) ↦ some pages
                ]))
                rows
      by_relation true opened b = tt
      by_relation false none b = tt
      by_relation false (some (pages, tuples)) b = Fits-bound pages rows _ o (pages_bound pages o) b

  -- Where doubles behave as documented: both analyses of a statement, and the estimate for a whole
  -- table, give a number of rows that is below 0, for unknown, or not above the number of the relation's
  -- pages times the most tuples of a page, where the relation can be opened.
  pub analyze_plannedstmt-IsCapped :
      (query : Option Query) (stmt : Option (PlannedStmt Double)) (relid : ℕ)
      → IsOrdered F
      → HasCappedRows (analyze_query F C query stmt)
        × HasCappedRows (analyze_plannedstmt F C stmt)
        × IsCapped relid (relation_table_rows_estimate F C relid)
  analyze_plannedstmt-IsCapped query stmt relid o = (
    IsBounded-IsCapped _ _ o (analyze_query-HasBoundedRows F C query stmt o),
    IsBounded-IsCapped _ _ o (analyze_plannedstmt-HasBoundedRows F C stmt o),
    IsBounded-IsCapped relid _ o (relation_table_rows_estimate-IsBounded F C relid o),
  )

  known-relation :
      (relid : ℕ)
      → IsOrdered F
      → lt (of_int (pos 0)) (relation_estimated_tuples F C relid) ≡ true
      → (relid == 0) ≡ false
  unfolding relation_estimated_tuples
  known-relation relid o known = elim (Bool-cases (relid == 0)) [
    | inr valid ↦ valid
    | inl missing ↦
        let below : lt (of_int (pos 0)) (of_int (negsuc 0)) ≡ true =
          rw (missing, relation_estimated_tuples) at known in
        absurd (true≢false (sym o.below_zero ∙ o.one_sided (of_int (negsuc 0)) below))
  ]

  -- The two computations agree on `tuples` that are above 0.
  same_rows :
      (missing : Bool) (tuples bound rows : Double)
      → missing ≡ false
      → lt (of_int (pos 0)) tuples ≡ true
      → lt tuples (of_int (pos 0)) ≡ false
      → let zero_rows = of_int (pos 0) in
        let r =
          if◌then◌else◌ {A = Double}
            (not false && not missing && lt zero_rows tuples)
            tuples
            rows in
        (if lt r zero_rows then r else if le zero_rows bound && lt bound r then bound else r) ≡ (
          if lt zero_rows tuples && le zero_rows bound && lt bound tuples
          then bound
          else if lt zero_rows tuples
          then tuples
          else if lt zero_rows bound
          then bound
          else of_int (negsuc 0))
  same_rows missing tuples bound rows valid known above = rw (valid, known, above) refl

  affected_rows-table :
      (relid : ℕ) (rows : Double)
      → IsOrdered F
      → lt (of_int (pos 0)) (relation_estimated_tuples F C relid) ≡ true
      → affected_rows F C false relid rows ≡ relation_table_rows_estimate F C relid
  unfolding affected_rows clamp_estimated_rows relation_table_rows_estimate
  affected_rows-table relid rows o known =
      same_rows (relid == 0) (relation_estimated_tuples F C relid)
        (relation_physical_tuple_bound F C relid) rows (known-relation relid o known) known
        (o.one_sided (relation_estimated_tuples F C relid) known)

  command-table :
      (command : CmdType) (relid : ℕ) (has_where : Bool) (rows : Double)
      → (command ≡ CmdType.cmd_delete) ⊎ (command ≡ CmdType.cmd_update)
      → has_where ≡ false
      → IsOrdered F
      → lt (of_int (pos 0)) (relation_estimated_tuples F C relid) ≡ true
      → let q = elim command as (λ k. QueryInfo Double) [
        | CmdType.other_command ↦ init_query_info F C
        | k ↦ write_info F C k relid has_where rows
      ] in
        (q.relation_oid ≡ relid) × (q.estimated_rows ≡ relation_table_rows_estimate F C relid)
  unfolding write_info
  command-table CmdType.other_command relid has_where rows (inl e) h o known = absurd (ground arith)
  command-table CmdType.other_command relid has_where rows (inr e) h o known = absurd (ground arith)
  command-table k relid has_where rows write h o known =
      (refl, rw h (affected_rows-table relid rows o known))

  -- Where doubles compare as documented: a planned DELETE or UPDATE over a sequential scan without a
  -- condition, of a relation with statistics, is estimated to affect as many rows as the whole table is
  -- estimated to have, whatever the planner says.
  pub analyze_plannedstmt-table_rows :
      (stmt : PlannedStmt Double)
      → (stmt.command ≡ CmdType.cmd_delete) ⊎ (stmt.command ≡ CmdType.cmd_update)
      → IsUnfiltered stmt.plan_tree
      → IsOrdered F
      → lt (of_int (pos 0)) (relation_estimated_tuples F C (planned_relation_oid F C stmt)) ≡ true
      → let q = analyze_plannedstmt F C (some stmt) in
        (q.relation_oid ≡ planned_relation_oid F C stmt)
        × (q.estimated_rows ≡ relation_table_rows_estimate F C q.relation_oid)
  unfolding analyze_plannedstmt planned_has_where
  analyze_plannedstmt-table_rows stmt write scan o known =
      let (same, rows) =
        command-table stmt.command (planned_relation_oid F C stmt) (planned_has_where F C stmt)
          (plan_estimated_rows F C (some stmt)) write
          ((tree_has_where-IsUnfiltered stmt.plan_tree).1 scan) o known in
      (same, rw same rows)
