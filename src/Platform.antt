-- ===== src/Platform.antt =====
-- What the program takes from the machine and from PostgreSQL without implementing it: double
-- precision numbers and text functions. They are parameters of the definitions that use them.
use pg_circuit.Prelude.{ℕ, ℤ, Bool, Option, CString}

-- `double`: the conversions, literals, operations and tests that the program uses. `decimal n d` is
-- the literal nearest to n / d; a test on a NaN is false.
pub record Float : Type 1 where
  pub Double : Type 0
  pub of_int : ℤ → Double
  pub decimal : ℕ → ℕ → Double
  pub mul : Double → Double → Double
  pub div : Double → Double → Double
  pub lt : Double → Double → Bool
  pub le : Double → Double → Bool
  -- `(uint64) x`, `%.1f` and `%.0f`
  pub to_uint64 : Double → ℕ
  pub show_tenths : Double → CString
  pub show_whole : Double → CString

-- `pg_strcasecmp(s, t) == 0`, and `pg_md5_hash`, which may fail.
pub record Postgres : Type 0 where
  pub same_ignoring_case : CString → CString → Bool
  pub md5_hash : CString → Option CString
