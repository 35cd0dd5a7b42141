-- ===== src/Config.antt =====
-- src/config.c: the GUC variables, their defaults and the ranges that they are registered with.
pub mod Options
pub mod Register
pub mod Ranges
use pg_circuit.Prelude.{
  ℕ, ◌*◌, ◌^◌, ◌-◌, ℤ, pos, ◌≤ℤ◌, Bool, true, false, List, [], ◌∷◌, CString, codes,
}
use pg_circuit.Types.{Mode, RuntimeModeConfig}

-- The C globals of config.c. An `int` that is registered as an enum holds one of its values.
pub record Config : Type 0 where
  pub enabled : Bool
  pub debug : Bool
  pub fail_closed : Bool
  pub mode : Mode
  pub runtime_mode : RuntimeModeConfig
  pub long_transaction_seconds : ℤ
  pub replication_lag_warning_seconds : ℤ
  pub replication_lag_critical_seconds : ℤ
  pub risk_warn_threshold : ℤ
  pub risk_block_threshold : ℤ
  pub event_history_size : ℤ
  pub wal_pressure_elevated_bps : ℤ
  pub wal_pressure_high_bps : ℤ

abbrev pub defaults : Config
defaults = record {
  enabled = true;
  debug = false;
  fail_closed = false;
  mode = Mode.warn;
  runtime_mode = RuntimeModeConfig.normal;
  long_transaction_seconds = pos 300;
  replication_lag_warning_seconds = pos 10;
  replication_lag_critical_seconds = pos 30;
  risk_warn_threshold = pos 50;
  risk_block_threshold = pos 80;
  event_history_size = pos 256;
  wal_pressure_elevated_bps = pos (16 * 1024 * 1024);
  wal_pressure_high_bps = pos (64 * 1024 * 1024);
}

abbrev pub int_max : ℤ
int_max = pos (2 ^ 31 - 1)

-- `low ≤ v ≤ high`, as `DefineCustomIntVariable` is told to keep it.
abbrev Within : ℕ → ℤ → ℤ → Type 0
Within low high v = (pos low ≤ℤ v) × (v ≤ℤ high)

-- The ranges of `pg_circuit_register_gucs`.
pub record IsRegistered (c : Config) : Type 0 where
  pub long_transaction : Within 1 int_max c.long_transaction_seconds
  pub lag_warning : Within 0 int_max c.replication_lag_warning_seconds
  pub lag_critical : Within 0 int_max c.replication_lag_critical_seconds
  pub warn_threshold : Within 0 (pos 100) c.risk_warn_threshold
  pub block_threshold : Within 0 (pos 100) c.risk_block_threshold
  pub history_size : Within 1 (pos 4096) c.event_history_size
  pub wal_elevated : Within 1 int_max c.wal_pressure_elevated_bps
  pub wal_high : Within 1 int_max c.wal_pressure_high_bps

-- `config_enum_entry`: a name, a value, and whether the name is hidden. The end of a table is the end of
-- the list.
pub record EnumEntry (A : Type 0) : Type 0 where
  pub name : CString
  pub value : A
  pub hidden : Bool

abbrev shown : {A : Type 0} → CString → A → EnumEntry A
shown name value = record { name = name; value = value; hidden = false }

-- `mode_options`
unfoldable pub mode_options : List (EnumEntry Mode)
mode_options =
    shown (codes "observe") Mode.observe
    ∷ shown (codes "warn") Mode.warn
    ∷ shown (codes "enforce") Mode.enforce
    ∷ []

-- `runtime_mode_options`
unfoldable pub runtime_mode_options : List (EnumEntry RuntimeModeConfig)
runtime_mode_options =
    shown (codes "normal") RuntimeModeConfig.normal
    ∷ shown (codes "protect") RuntimeModeConfig.protect
    ∷ shown (codes "emergency") RuntimeModeConfig.emergency
    ∷ shown (codes "auto") RuntimeModeConfig.auto
    ∷ []
