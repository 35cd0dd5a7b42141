-- ===== src/Risk/Score.antt =====
-- What pg_circuit_assess_query of src/risk_engine.c finds, rule by rule.
use pg_circuit.Prelude.{
  ℕ, ◌<◌, ◌≡◌, ◌≢◌, ◌↔◌, ◌⊎◌, inl, inr, refl, ℤ, pos, ◌≤ℤ◌, add_int, [], ◌∷◌, length, CString,
  codes, fit, length-fit, arith, Bool-cases, Bool, true, false,
}
use pg_circuit.Types.{Mode, Decision, QueryKind, LockClass}
use pg_circuit.Platform.{Float}
use pg_circuit.Config.{Config, defaults}
use pg_circuit.Reporting.{score_to_level}
use pg_circuit.Runtime.{RuntimeState}
use pg_circuit.Risk.{
  Finding, Assessment, QueryInfo, init_assessment, make_finding, add_finding, finalize_assessment,
}
use pg_circuit.Risk.Assess.{apply_rule, assess_query, create_index_score, alter_table_base}

-- The rule that a kind of statement meets, as README.md lists them.
abbrev pub rule_of : QueryKind → CString
rule_of QueryKind.other = []
rule_of QueryKind.delete_no_where = codes "PGC001"
rule_of QueryKind.update_no_where = codes "PGC002"
rule_of QueryKind.truncate = codes "PGC003"
rule_of QueryKind.drop_table = codes "PGC004"
rule_of QueryKind.drop_database = codes "PGC005"
rule_of QueryKind.alter_table = codes "PGC012"
rule_of QueryKind.create_index = codes "PGC013"
rule_of QueryKind.create_index_concurrently = codes "PGC013"
rule_of QueryKind.reindex = codes "PGC014"
rule_of QueryKind.vacuum_full = codes "PGC015"
rule_of QueryKind.cluster = codes "PGC016"

module _ {D : Type 0} where
  -- A finding is graded by its own score, and its texts fit the buffers of the C struct.
  pub record IsGraded (f : Finding D) : Type 0 where
    pub graded : f.level ≡ score_to_level f.score_contribution
    pub id_fits : length f.rule_id < 16
    pub reason_fits : length f.reason < 256
    pub name_fits : length f.relation_name < 64

  make_finding-IsGraded :
      (id : CString) (s : ℤ) (reason : CString) (oid : ℕ) (name : CString) (rows : D) (size : ℤ)
      → IsGraded (make_finding id s reason oid name rows size)
  unfolding make_finding
  make_finding-IsGraded id s reason oid name rows size = record {
    graded = refl;
    id_fits = length-fit 16 id (omega arith);
    reason_fits = length-fit 256 reason (omega arith);
    name_fits = length-fit 64 name (omega arith);
  }

alter_table_base-bounds :
    (l : LockClass) → (pos 15 ≤ℤ alter_table_base l) × (alter_table_base l ≤ℤ pos 100)
unfolding alter_table_base
alter_table_base-bounds l = ground arith

create_index_score-bounds :
    (n : ℤ) → (pos 15 ≤ℤ create_index_score n) × (create_index_score n ≤ℤ pos 100)
unfolding create_index_score
create_index_score-bounds n = ground arith

module _ (F : Float) where
  open F use {Double}

  -- What an assessment of a statement says: no finding and score 0 for an unlisted statement, and
  -- else one finding, well graded, under the rule of its kind, whose score is the score of the
  -- assessment and whose rule is the primary rule.
  abbrev pub Explains : QueryInfo Double → Assessment Double → Type 0
  Explains q a =
      ((q.kind ≡ QueryKind.other) × (a.findings ≡ []) × (a.score ≡ pos 0) × (a.primary_rule ≡ []))
      ⊎ ((f : Finding Double) × (q.kind ≢ QueryKind.other)
          × (a.findings ≡ f ∷ [])
          × (f.rule_id ≡ rule_of q.kind)
          × (a.primary_rule ≡ rule_of q.kind)
          × (f.score_contribution ≡ a.score)
          × (pos 15 ≤ℤ a.score)
          × (a.score ≤ℤ pos 100)
          × IsGraded f)

  -- A fresh assessment with one finding added, finalized.
  single-Explains :
      (c : Config) (q : QueryInfo Double) (k : QueryKind) (s : ℤ) (reason : CString) (oid : ℕ)
      (name : CString) (rows : Double) (size : ℤ)
      → q.kind ≡ k
      → k ≢ QueryKind.other
      → fit 16 (rule_of k) ≡ rule_of k
      → (pos 15 ≤ℤ s) × (s ≤ℤ pos 100)
      → Explains q (
          finalize_assessment c
            (add_finding init_assessment (rule_of k) s reason oid name rows size))
  unfolding finalize_assessment add_finding init_assessment make_finding add_int
  single-Explains c q k s reason oid name rows size e listed fits h = inr (
    make_finding (rule_of k) s reason oid name rows size,
    rw e listed,
    refl,
    rw (e, fits),
    rw (e, fits),
    ground arith,
    ground arith,
    ground arith,
    make_finding-IsGraded (rule_of k) s reason oid name rows size,
  )

  rule_Explains :
      (c : Config) (q : QueryInfo Double) (k : QueryKind)
      → q.kind ≡ k
      → Explains q (finalize_assessment c (apply_rule F k q init_assessment))
  unfolding apply_rule init_assessment finalize_assessment
  rule_Explains c q QueryKind.other e = inl (e, refl, refl, refl)
  rule_Explains c q QueryKind.delete_no_where e =
      single-Explains c q _ _ _ _ _ _ _ e (cc) refl (omega arith)
  rule_Explains c q QueryKind.update_no_where e =
      single-Explains c q _ _ _ _ _ _ _ e (cc) refl (omega arith)
  rule_Explains c q QueryKind.truncate e =
      single-Explains c q _ _ _ _ _ _ _ e (cc) refl (omega arith)
  rule_Explains c q QueryKind.drop_table e =
      single-Explains c q _ _ _ _ _ _ _ e (cc) refl (omega arith)
  rule_Explains c q QueryKind.drop_database e =
      single-Explains c q _ _ _ _ _ _ _ e (cc) refl (omega arith)
  rule_Explains c q QueryKind.create_index_concurrently e =
      single-Explains c q _ _ _ _ _ _ _ e (cc) refl (omega arith)
  rule_Explains c q QueryKind.vacuum_full e =
      single-Explains c q _ _ _ _ _ _ _ e (cc) refl (omega arith)
  rule_Explains c q QueryKind.cluster e =
      single-Explains c q _ _ _ _ _ _ _ e (cc) refl (omega arith)
  rule_Explains c q QueryKind.alter_table e =
      single-Explains c q _ _ _ _ _ _ _ e (cc) refl (alter_table_base-bounds q.lock_class)
  rule_Explains c q QueryKind.create_index e =
      single-Explains c q _ _ _ _ _ _ _ e (cc) refl (create_index_score-bounds q.relation_size)
  rule_Explains c q QueryKind.reindex e = elim (Bool-cases q.concurrent) [
    | inl on ↦ rw on (single-Explains c q _ _ _ _ _ _ _ e (cc) refl (omega arith))
    | inr off ↦ rw off (single-Explains c q _ _ _ _ _ _ _ e (cc) refl (omega arith))
  ]

  -- An assessment of an unlisted statement has no finding and the score 0; of a listed one it has one
  -- finding, under the rule of its kind and with the score of the assessment, from 15 to 100, whose
  -- level is that of its score and whose texts fit their buffers.
  pub assess_query-Explains :
      (c : Config) (q : QueryInfo Double) (runtime : RuntimeState Double)
      → Explains q (assess_query F c q runtime)
  unfolding assess_query
  assess_query-Explains c q runtime = rule_Explains c q q.kind refl

-- The statements that README.md calls destructive.
abbrev pub is_destructive : QueryKind → Bool
is_destructive QueryKind.delete_no_where = true
is_destructive QueryKind.update_no_where = true
is_destructive QueryKind.truncate = true
is_destructive QueryKind.drop_table = true
is_destructive QueryKind.drop_database = true
is_destructive k = false

abbrev pub enforcing : Config
enforcing = record defaults { mode = Mode.enforce }

rule_defaults :
    (F : Float) (k : QueryKind) (q : QueryInfo F.Double)
    → ((finalize_assessment enforcing (apply_rule F k q init_assessment)).decision ≡ Decision.block)
      ↔ (is_destructive k ≡ true)
unfolding assess_query add_int
rule_defaults F QueryKind.other q = ground arith
rule_defaults F k q = ground arith

-- Under the default thresholds enforce mode blocks DELETE and UPDATE without WHERE, TRUNCATE,
-- DROP TABLE and DROP DATABASE, and no other statement.
pub assess_query_defaults :
    (F : Float) (q : QueryInfo F.Double) (runtime : RuntimeState F.Double)
    → ((assess_query F enforcing q runtime).decision ≡ Decision.block)
      ↔ (is_destructive q.kind ≡ true)
unfolding assess_query
assess_query_defaults F q runtime = rule_defaults F q.kind q
