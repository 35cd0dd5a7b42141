-- ===== src/Types.antt =====
-- The enumerations of include/pg_circuit.h and include/risk_engine.h.
use pg_circuit.Prelude.{ℕ}

pub data Mode : Type 0 where
  observe warn enforce : Mode

pub data SafetyMode : Type 0 where
  normal protect emergency : SafetyMode

pub data RuntimeModeConfig : Type 0 where
  normal protect emergency auto : RuntimeModeConfig

pub data WorkloadClass : Type 0 where
  read oltp_small bulk_write ddl maintenance : WorkloadClass

pub data RiskLevel : Type 0 where
  info low medium high critical : RiskLevel

pub data Decision : Type 0 where
  allow warn block : Decision

pub data QueryKind : Type 0 where
  other delete_no_where update_no_where truncate drop_table drop_database alter_table : QueryKind
  create_index create_index_concurrently reindex vacuum_full cluster : QueryKind

pub data LockClass : Type 0 where
  none low medium high : LockClass

-- The values that C gives the constants: what `>=` and `<` compare, and `(int)` shows.
abbrev pub decision_rank : Decision → ℕ
decision_rank Decision.allow = 0
decision_rank Decision.warn = 1
decision_rank Decision.block = 2

abbrev pub level_rank : RiskLevel → ℕ
level_rank RiskLevel.info = 0
level_rank RiskLevel.low = 1
level_rank RiskLevel.medium = 2
level_rank RiskLevel.high = 3
level_rank RiskLevel.critical = 4

abbrev pub lock_rank : LockClass → ℕ
lock_rank LockClass.none = 0
lock_rank LockClass.low = 1
lock_rank LockClass.medium = 2
lock_rank LockClass.high = 3

abbrev pub kind_number : QueryKind → ℕ
kind_number QueryKind.other = 0
kind_number QueryKind.delete_no_where = 1
kind_number QueryKind.update_no_where = 2
kind_number QueryKind.truncate = 3
kind_number QueryKind.drop_table = 4
kind_number QueryKind.drop_database = 5
kind_number QueryKind.alter_table = 6
kind_number QueryKind.create_index = 7
kind_number QueryKind.create_index_concurrently = 8
kind_number QueryKind.reindex = 9
kind_number QueryKind.vacuum_full = 10
kind_number QueryKind.cluster = 11
