-- ===== src/Config/Options.antt =====
-- The tables of option names of src/config.c, and the defaults of its settings.
use pg_circuit.Prelude.{◌≡◌, refl, if◌then◌else◌, List, [], ◌∷◌, CString, str_eq, arith}
use pg_circuit.Types.{Mode, RuntimeModeConfig}
use pg_circuit.Reporting.{mode_name, runtime_cfg_name}
use pg_circuit.Config.{defaults, IsRegistered, EnumEntry, mode_options, runtime_mode_options}

-- The values of the entries that have a name.
pub values_of : {A : Type 0} → CString → List (EnumEntry A) → List A
values_of name [] = []
values_of name (e ∷ es) =
    let rest = values_of name es in if str_eq e.name name then e.value ∷ rest else rest

-- The name that the extension shows for a mode, or for a configured runtime mode, is that of one option,
-- the one for that mode; and every default is in its registered range.
pub mode_options-mode_name :
    (m : Mode) (r : RuntimeModeConfig)
    → (values_of (mode_name m) mode_options ≡ m ∷ [])
      × (values_of (runtime_cfg_name r) runtime_mode_options ≡ r ∷ [])
      × IsRegistered defaults
unfolding values_of mode_options runtime_mode_options mode_name runtime_cfg_name
mode_options-mode_name m r = (
  by_mode m,
  by_runtime_mode r,
  record {
    long_transaction = (omega arith, omega arith);
    lag_warning = (omega arith, omega arith);
    lag_critical = (omega arith, omega arith);
    warn_threshold = (omega arith, omega arith);
    block_threshold = (omega arith, omega arith);
    history_size = (omega arith, omega arith);
    wal_elevated = (omega arith, omega arith);
    wal_high = (omega arith, omega arith);
  },
)
  where
    by_mode : (m : Mode) → values_of (mode_name m) mode_options ≡ m ∷ []
    by_mode Mode.observe = refl
    by_mode m = refl

    by_runtime_mode :
        (r : RuntimeModeConfig) → values_of (runtime_cfg_name r) runtime_mode_options ≡ r ∷ []
    by_runtime_mode RuntimeModeConfig.normal = refl
    by_runtime_mode r = refl
