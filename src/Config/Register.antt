-- ===== src/Config/Register.antt =====
-- src/config.c: the variables that pg_circuit_register_gucs defines, and what PostgreSQL writes to them.
use pg_circuit.Prelude.{
  ℕ, ◌*◌, ℤ, pos, ◌≤ℤ◌, ◌≡◌, Bool, true, false, List, [], ◌∷◌, Option, none, some, CString, codes,
  get_elem?, ◌⊎◌,
}
use pg_circuit.Types.{Mode, RuntimeModeConfig}
use pg_circuit.Config.{Config, int_max, EnumEntry, mode_options, runtime_mode_options}

-- `PGC_SUSET` and `PGC_POSTMASTER`
pub data GucContext : Type 0 where
  suset postmaster : GucContext

-- A call of `DefineCustomBoolVariable`, `DefineCustomIntVariable` or `DefineCustomEnumVariable`: the
-- name, the variable as the way to write it, the boot value, the range or the options, and the context.
pub data Setting : Type 1 where
  bool_variable : CString → (Bool → Config → Config) → Bool → GucContext → Setting
  int_variable : CString → (ℤ → Config → Config) → ℤ → ℤ → ℤ → GucContext → Setting
  enum_variable :
      {A : Type 0} → CString → (A → Config → Config) → A → List (EnumEntry A) → GucContext → Setting

-- The calls of `pg_circuit_register_gucs`, in their order. The string for fault injection is no part of
-- the configuration.
unfoldable pub settings : List Setting
settings =
    bool_variable (codes "pg_circuit.enabled") (λ v c. record c { enabled = v }) true
      GucContext.suset
    ∷ bool_variable (codes "pg_circuit.debug") (λ v c. record c { debug = v }) false
        GucContext.suset
    ∷ enum_variable (codes "pg_circuit.mode") (λ v c. record c { mode = v }) Mode.warn mode_options
        GucContext.suset
    ∷ enum_variable (codes "pg_circuit.runtime_mode") (λ v c. record c { runtime_mode = v })
        RuntimeModeConfig.normal runtime_mode_options GucContext.suset
    ∷ int_variable (codes "pg_circuit.long_transaction_seconds")
        (λ v c. record c { long_transaction_seconds = v }) (pos 300) (pos 1) int_max
        GucContext.suset
    ∷ int_variable (codes "pg_circuit.replication_lag_warning_seconds")
        (λ v c. record c { replication_lag_warning_seconds = v }) (pos 10) (pos 0) int_max
        GucContext.suset
    ∷ int_variable (codes "pg_circuit.replication_lag_critical_seconds")
        (λ v c. record c { replication_lag_critical_seconds = v }) (pos 30) (pos 0) int_max
        GucContext.suset
    ∷ int_variable (codes "pg_circuit.risk_warn_threshold")
        (λ v c. record c { risk_warn_threshold = v }) (pos 50) (pos 0) (pos 100) GucContext.suset
    ∷ int_variable (codes "pg_circuit.risk_block_threshold")
        (λ v c. record c { risk_block_threshold = v }) (pos 80) (pos 0) (pos 100) GucContext.suset
    ∷ int_variable (codes "pg_circuit.event_history_size")
        (λ v c. record c { event_history_size = v }) (pos 256) (pos 1) (pos 4096)
        GucContext.postmaster
    ∷ int_variable (codes "pg_circuit.wal_pressure_elevated_bps")
        (λ v c. record c { wal_pressure_elevated_bps = v }) (pos (16 * 1024 * 1024)) (pos 1) int_max
        GucContext.suset
    ∷ int_variable (codes "pg_circuit.wal_pressure_high_bps")
        (λ v c. record c { wal_pressure_high_bps = v }) (pos (64 * 1024 * 1024)) (pos 1) int_max
        GucContext.suset
    ∷ bool_variable (codes "pg_circuit.fail_closed") (λ v c. record c { fail_closed = v }) false
        GucContext.suset
    ∷ []

-- The type of a variable's values.
abbrev pub ValueOf : Setting → Type 0
ValueOf (bool_variable name write boot context) = Bool
ValueOf (int_variable name write boot low high context) = ℤ
ValueOf (enum_variable {A} name write boot options context) = A

abbrev pub boot_value : (s : Setting) → ValueOf s
boot_value (bool_variable name write boot context) = boot
boot_value (int_variable name write boot low high context) = boot
boot_value (enum_variable name write boot options context) = boot

abbrev pub assign : (s : Setting) → ValueOf s → Config → Config
assign (bool_variable name write boot context) = write
assign (int_variable name write boot low high context) = write
assign (enum_variable name write boot options context) = write

abbrev pub context_of : Setting → GucContext
context_of (bool_variable name write boot context) = context
context_of (int_variable name write boot low high context) = context
context_of (enum_variable name write boot options context) = context

-- An option of the table has the value.
abbrev pub Offers : {A : Type 0} → A → List (EnumEntry A) → Type 0
Offers v [] = ⊥
Offers v (e ∷ es) = (e.value ≡ v) ⊎ Offers v es

-- The values that the call tells PostgreSQL to admit.
abbrev pub Admits : (s : Setting) → ValueOf s → Type 0
Admits (bool_variable name write boot context) v = Unit {0}
Admits (int_variable name write boot low high context) v = (low ≤ℤ v) × (v ≤ℤ high)
Admits (enum_variable name write boot options context) v = Offers v options

-- What PostgreSQL decides about the values: the value that a variable already has in the
-- configuration files as it is defined, and what a text that is set later becomes, or that it is
-- refused.
pub record GucServer : Type 1 where
  pub placeholder : (s : Setting) → Option (ValueOf s)
  pub accepts : (s : Setting) → CString → Option (ValueOf s)

-- As documented: a value outside the range or the options is refused, and a variable of the
-- postmaster's context keeps its value once it is defined.
pub record Enforces (g : GucServer) : Type 1 where
  pub placed : (s : Setting) (v : ValueOf s) → g.placeholder s ≡ some v → Admits s v
  pub accepted :
      (s : Setting) (text : CString) (v : ValueOf s) → g.accepts s text ≡ some v → Admits s v
  pub fixed :
      (s : Setting) (text : CString)
      → context_of s ≡ GucContext.postmaster
      → g.accepts s text ≡ none

-- One `DefineCustom...Variable`
unfoldable pub define_variable : GucServer → Setting → Config → Config
define_variable g s c =
    let booted = assign s (boot_value s) c in
    elim (g.placeholder s) [ none ↦ booted | some v ↦ assign s v booted ]

unfoldable pub define_all : GucServer → List Setting → Config → Config
define_all g [] c = c
define_all g (s ∷ rest) c = define_all g rest (define_variable g s c)

-- `pg_circuit_register_gucs`
unfoldable pub register_gucs : GucServer → Config → Config
unfolding settings define_all define_variable
register_gucs g c = define_all g settings c

-- `SET` of a variable to a text, or a new value in the configuration files.
unfoldable pub set_variable : GucServer → Setting → CString → Config → Config
set_variable g s text c = elim (g.accepts s text) [ none ↦ c | some v ↦ assign s v c ]

-- Later changes: each is to the variable that was defined as the given one from 0.
unfoldable pub set_all : GucServer → List (ℕ × CString) → Config → Config
unfolding settings set_variable
set_all g [] c = c
set_all g ((i, text) ∷ changes) c = elim (get_elem? settings i) [
  | none ↦ set_all g changes c
  | some s ↦ set_all g changes (set_variable g s text c)
]
