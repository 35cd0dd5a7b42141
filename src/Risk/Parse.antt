-- ===== src/Risk/Parse.antt =====
-- src/risk_engine.c: reading the names of kinds of statement and of safety modes.
use pg_circuit.Prelude.{
  ◌+◌, ◌≡◌, refl, ap, ◌∙◌, Bool, ◌&&◌, leb, if◌then◌else◌, [], ◌∷◌, Option, none, some, CString,
  codes, str_eq,
}
use mathlib.Core.Path.{fun_ext}
use pg_circuit.Types.{QueryKind, SafetyMode}
use pg_circuit.Platform.{Postgres}
use pg_circuit.Reporting.{safety_mode_name}
use pg_circuit.Event.{query_kind_name}

-- The tests of `pg_circuit_parse_query_kind` in their order, where `is` tells what the name is.
unfoldable pub kind_where : (CString → Bool) → Option QueryKind
kind_where is =
    if is (codes "delete_no_where")
    then some QueryKind.delete_no_where
    else if is (codes "update_no_where")
    then some QueryKind.update_no_where
    else if is (codes "truncate")
    then some QueryKind.truncate
    else if is (codes "drop_table")
    then some QueryKind.drop_table
    else if is (codes "drop_database")
    then some QueryKind.drop_database
    else if is (codes "alter_table")
    then some QueryKind.alter_table
    else if is (codes "create_index")
    then some QueryKind.create_index
    else if is (codes "create_index_concurrently")
    then some QueryKind.create_index_concurrently
    else if is (codes "reindex")
    then some QueryKind.reindex
    else if is (codes "vacuum_full")
    then some QueryKind.vacuum_full
    else if is (codes "cluster")
    then some QueryKind.cluster
    else if is (codes "other")
    then some QueryKind.other
    else none

-- The tests of `pg_circuit_parse_safety_mode`.
unfoldable pub mode_where : (CString → Bool) → Option SafetyMode
mode_where is =
    if is (codes "normal")
    then some SafetyMode.normal
    else if is (codes "protect")
    then some SafetyMode.protect
    else if is (codes "emergency")
    then some SafetyMode.emergency
    else none

module _ (p : Postgres) where
  -- `pg_circuit_parse_query_kind`: what it writes, or `none` where it returns false.
  unfoldable pub parse_query_kind : Option CString → Option QueryKind
  unfolding kind_where
  parse_query_kind none = none
  parse_query_kind (some name) = kind_where (p.same_ignoring_case name)

  -- `pg_circuit_parse_safety_mode`
  unfoldable pub parse_safety_mode : Option CString → Option SafetyMode
  unfolding mode_where
  parse_safety_mode none = none
  parse_safety_mode (some name) = mode_where (p.same_ignoring_case name)

-- A string with its ASCII capitals made small.
abbrev pub lower : CString → CString
lower [] = []
lower (c ∷ s) = (if leb 65 c && leb c 90 then c + 32 else c) ∷ lower s

-- What PostgreSQL documents of `pg_strcasecmp`, for names in ASCII.
abbrev pub FoldsCase : Postgres → Type 0
FoldsCase p = (s t : CString) → p.same_ignoring_case s t ≡ str_eq (lower s) (lower t)

folded :
    (p : Postgres) (name word : CString)
    → FoldsCase p
    → lower name ≡ word
    → p.same_ignoring_case name ≡ (λ t. str_eq word (lower t))
folded p name word folds h = fun_ext (λ t. rw (folds name t, h) refl)

kind_where-query_kind_name :
    (k : QueryKind) → kind_where (λ t. str_eq (query_kind_name k) (lower t)) ≡ some k
unfolding kind_where query_kind_name
kind_where-query_kind_name QueryKind.other = refl
kind_where-query_kind_name k = refl

mode_where-safety_mode_name :
    (m : SafetyMode) → mode_where (λ t. str_eq (lower (safety_mode_name m)) (lower t)) ≡ some m
unfolding mode_where safety_mode_name
mode_where-safety_mode_name SafetyMode.normal = refl
mode_where-safety_mode_name m = refl

-- Where case is folded as for ASCII names, the name of a kind in any mixture of capitals and small
-- letters reads back as that kind, and so does the name of a safety mode.
pub parse_query_kind-query_kind_name :
    (p : Postgres) (name mode : CString) (k : QueryKind) (m : SafetyMode)
    → FoldsCase p
    → lower name ≡ query_kind_name k
    → lower mode ≡ lower (safety_mode_name m)
    → (parse_query_kind p (some name) ≡ some k) × (parse_safety_mode p (some mode) ≡ some m)
unfolding parse_query_kind parse_safety_mode
parse_query_kind-query_kind_name p name mode k m folds h h' = (
  ap kind_where (folded p name (query_kind_name k) folds h) ∙ kind_where-query_kind_name k,
  ap mode_where (folded p mode (lower (safety_mode_name m)) folds h')
      ∙ mode_where-safety_mode_name m,
)
