-- ===== src/Relations.antt =====
-- src/relations.c: names, sizes and row estimates of relations, from the system catalog.
use pg_circuit.Prelude.{
  ℕ, ◌*◌, ◌==◌, ℤ, pos, negsuc, ◌&&◌, if◌then◌else◌, List, ◌++◌, Option, none, some, CString, codes,
  fit, wrap, ◌^◌,
}
use pg_circuit.Platform.{Float}

-- What the catalog and the buffer manager of PostgreSQL answer. `RangeVarGetRelid` is called with
-- `missing_ok`, so that it returns 0, `InvalidOid`, for a relation that is not there.
pub record Catalog (D : Type 0) : Type 1 where
  pub RangeVar : Type 0
  pub relname : RangeVar → CString
  pub get_relid : RangeVar → ℕ
  pub from_names : List CString → RangeVar
  pub get_rel_name : ℕ → Option CString
  pub get_namespace_name : ℕ → Option CString
  -- `try_relation_open`: the blocks of the main fork, and `reltuples`
  pub open_relation : ℕ → Option (ℕ × D)
  pub block_size : ℕ
  pub max_tuples_per_page : ℕ

module _ (F : Float) (C : Catalog F.Double) where
  open F use {Double, of_int, lt, le, mul}
  open C use {get_rel_name, get_namespace_name, open_relation, block_size, max_tuples_per_page}

  abbrev minus_one : Double
  minus_one = of_int (negsuc 0)

  -- `pg_circuit_relation_name` into a buffer of `buflen` bytes
  unfoldable pub relation_name : ℕ → ℕ → CString
  relation_name relid buflen =
      if relid == 0
      then fit buflen (codes "?")
      else elim (get_rel_name relid) [ none ↦ fit buflen (codes "?") | some name ↦ fit buflen name ]

  -- `pg_circuit_relation_qualname`
  unfoldable pub relation_qualname : ℕ → ℕ → CString
  relation_qualname relid buflen =
      if relid == 0 then fit buflen (codes "?") else elim (get_rel_name relid) [
        | none ↦ fit buflen (codes "?")
        | some rel ↦ elim (get_namespace_name relid) [
          | some nsp ↦ fit buflen (nsp ++ codes "." ++ rel)
          | none ↦ fit buflen rel
        ]
      ]

  -- `pg_circuit_relation_estimated_tuples`
  unfoldable pub relation_estimated_tuples : ℕ → Double
  relation_estimated_tuples relid = if relid == 0 then minus_one else elim (open_relation relid) [
    | none ↦ minus_one
    | some (pages, tuples) ↦ if lt tuples (of_int (pos 0)) then minus_one else tuples
  ]

  -- `pg_circuit_relation_physical_tuple_bound`
  unfoldable pub relation_physical_tuple_bound : ℕ → Double
  relation_physical_tuple_bound relid =
      if relid == 0 then minus_one else elim (open_relation relid) [
        | none ↦ minus_one
        | some (pages, tuples) ↦
            if pages == 0
            then of_int (pos 0)
            else mul (of_int (pos pages)) (of_int (pos max_tuples_per_page))
      ]

  -- `pg_circuit_relation_table_rows_estimate`
  unfoldable pub relation_table_rows_estimate : ℕ → Double
  unfolding relation_estimated_tuples relation_physical_tuple_bound
  relation_table_rows_estimate relid =
      let zero_rows = of_int (pos 0) in
      let tuples = relation_estimated_tuples relid in
      let bound = relation_physical_tuple_bound relid in
      if lt zero_rows tuples && le zero_rows bound && lt bound tuples
      then bound
      else if lt zero_rows tuples
      then tuples
      else if lt zero_rows bound
      then bound
      else minus_one

  -- `pg_circuit_relation_size`
  unfoldable pub relation_size : ℕ → ℤ
  relation_size relid = if relid == 0 then negsuc 0 else elim (open_relation relid) [
    | none ↦ negsuc 0
    | some (pages, tuples) ↦ wrap (2 ^ 63) (pos (pages * block_size))
  ]
