-- ===== src/Config/Ranges.antt =====
-- What the variables of src/config.c hold from their registration on.
use pg_circuit.Prelude.{
  ℕ, zero, suc, ◌≡◌, refl, sym, ◌∙◌, List, [], ◌∷◌, none, some, Option-cases, CString, get_elem?,
  arith, inl, inr, subst, ◌⊎◌,
}
use mathlib.Core.Option.{some-injective}
use pg_circuit.Config.{Config, defaults, IsRegistered, mode_options, runtime_mode_options}
use pg_circuit.Config.Register.{
  GucContext, Setting, settings, ValueOf, boot_value, assign, context_of, Admits, GucServer,
  Enforces, define_variable, define_all, register_gucs, set_variable, set_all,
}

-- A property of every setting of a list.
infixr 5 ◌&◌
data Each (P : Setting → Type 0) : List Setting → Type 1 where
  end : Each P []
  ◌&◌ : {s : Setting} {rest : List Setting} → P s → Each P rest → Each P (s ∷ rest)

-- What a call has to keep to: a second value replaces the first, the boot value is admitted, writing
-- an admitted value keeps the ranges and, in a superuser's context, the size of the history.
abbrev IsSound : Setting → Type 0
IsSound s =
    ((v w : ValueOf s) (c : Config) → assign s v (assign s w c) ≡ assign s v c)
    × Admits s (boot_value s)
    × ((v : ValueOf s) (c : Config) → Admits s v → IsRegistered c → IsRegistered (assign s v c))
    × ((v : ValueOf s) (c : Config)
        → context_of s ≡ GucContext.suset
        → (assign s v c).event_history_size ≡ c.event_history_size)

settings-IsSound : Each IsSound settings
unfolding settings mode_options runtime_mode_options
settings-IsSound =
    (λ v w c. refl, tt, λ v c a h. ground arith, λ v c e. refl)
    & (λ v w c. refl, tt, λ v c a h. ground arith, λ v c e. refl)
    & (λ v w c. refl, inr (inl refl), λ v c a h. ground arith, λ v c e. refl)
    & (λ v w c. refl, inl refl, λ v c a h. ground arith, λ v c e. refl)
    & (λ v w c. refl, omega arith, λ v c a h. ground arith, λ v c e. refl)
    & (λ v w c. refl, omega arith, λ v c a h. ground arith, λ v c e. refl)
    & (λ v w c. refl, omega arith, λ v c a h. ground arith, λ v c e. refl)
    & (λ v w c. refl, omega arith, λ v c a h. ground arith, λ v c e. refl)
    & (λ v w c. refl, omega arith, λ v c a h. ground arith, λ v c e. refl)
    & (λ v w c. refl, omega arith, λ v c a h. ground arith, λ v c e. cc)
    & (λ v w c. refl, omega arith, λ v c a h. ground arith, λ v c e. refl)
    & (λ v w c. refl, omega arith, λ v c a h. ground arith, λ v c e. refl)
    & (λ v w c. refl, tt, λ v c a h. ground arith, λ v c e. refl)
    & end

module _ (g : GucServer) where
  -- The value of a variable once it is defined.
  abbrev placed : (s : Setting) → ValueOf s
  placed s = elim (g.placeholder s) [ none ↦ boot_value s | some v ↦ v ]

  define_variable-placed :
      (s : Setting) (c : Config) → IsSound s → define_variable g s c ≡ assign s (placed s) c
  unfolding define_variable
  define_variable-placed s c sound = elim (Option-cases (g.placeholder s)) [
    | inl absent ↦ rw (absent, define_variable, placed) refl
    | inr (v, present) ↦ rw (present, define_variable, placed) (sound.0 v (boot_value s) c)
  ]

  placed-Admits : (s : Setting) → Enforces g → Admits s (boot_value s) → Admits s (placed s)
  placed-Admits s e boots = elim (Option-cases (g.placeholder s)) [
    | inl absent ↦ rw (absent, placed) boots
    | inr (v, present) ↦ rw (present, placed) (e.placed s v present)
  ]

  abbrev write_all : List Setting → Config → Config
  write_all [] c = c
  write_all (s ∷ rest) c = write_all rest (assign s (placed s) c)

  define_all-write_all :
      (l : List Setting) (c : Config) → Each IsSound l → define_all g l c ≡ write_all l c
  unfolding define_all
  define_all-write_all [] c end = refl
  define_all-write_all (s ∷ l) c (sound & more) =
      rw (define_variable-placed s c sound) (define_all-write_all l (assign s (placed s) c) more)

  Each-placed : (l : List Setting) → Enforces g → Each IsSound l → Each (λ s. Admits s (placed s)) l
  Each-placed [] e end = end
  Each-placed (s ∷ l) e (sound & more) = placed-Admits s e sound.1 & Each-placed l e more

  write_all-IsRegistered :
      (c : Config) → Each (λ s. Admits s (placed s)) settings → IsRegistered (write_all settings c)
  unfolding settings
  write_all-IsRegistered c
        (enabled & debug & mode & runtime & a & b & d & e & f & h & i & j & closed & end) =
      record {
        long_transaction = a;
        lag_warning = b;
        lag_critical = d;
        warn_threshold = e;
        block_threshold = f;
        history_size = h;
        wal_elevated = i;
        wal_high = j;
      }

  set_variable-IsRegistered :
      (s : Setting) (text : CString) (c : Config)
      → Enforces g
      → IsSound s
      → IsRegistered c
      → IsRegistered (set_variable g s text c)
  unfolding set_variable
  set_variable-IsRegistered s text c e sound h = elim (Option-cases (g.accepts s text)) [
    | inl refused ↦ rw (refused, set_variable) h
    | inr (v, taken) ↦ rw (taken, set_variable) (sound.2 v c (e.accepted s text v taken) h)
  ]

  set_variable-size :
      (s : Setting) (text : CString) (c : Config)
      → Enforces g
      → IsSound s
      → (set_variable g s text c).event_history_size ≡ c.event_history_size
  unfolding set_variable
  set_variable-size s text c e sound = elim (context-cases (context_of s)) [
    | inl fixed ↦ rw (e.fixed s text fixed, set_variable) refl
    | inr free ↦ elim (Option-cases (g.accepts s text)) [
      | inl refused ↦ rw (refused, set_variable) refl
      | inr (v, taken) ↦ rw (taken, set_variable) (sound.3 v c free)
    ]
  ]
    where
      context-cases : (k : GucContext) → (k ≡ GucContext.postmaster) ⊎ (k ≡ GucContext.suset)
      context-cases GucContext.postmaster = inl refl
      context-cases GucContext.suset = inr refl

  -- An invariant of single changes holds after all of them.
  set_all_rule :
      (P : Config → Type 0)
      → ((s : Setting) (text : CString) (c : Config)
          → IsSound s
          → P c
          → P (set_variable g s text c))
      → (changes : List (ℕ × CString)) (c : Config) → P c
      → P (set_all g changes c)
  unfolding set_all
  set_all_rule P keep [] c p = p
  set_all_rule P keep ((i, text) ∷ changes) c p = elim (Option-cases (get_elem? settings i)) [
    | inl absent ↦ rw (absent, set_all) (set_all_rule P keep changes c p)
    | inr (s, at) ↦
        rw (at, set_all)
          (set_all_rule P keep changes (set_variable g s text c)
            (keep s text c (Each-get settings i s settings-IsSound at) p))
  ]
    where
      Each-get :
          (l : List Setting) (i : ℕ) (s : Setting)
          → Each IsSound l
          → get_elem? l i ≡ some s
          → IsSound s
      Each-get [] i s end h = absurd (ground arith)
      Each-get (x ∷ l) zero s (sound & more) h = subst IsSound (some-injective _ _ h) sound
      Each-get (x ∷ l) (suc i) s (sound & more) h = Each-get l i s more h

-- Where PostgreSQL enforces what it is told, every setting is in its registered range after the
-- registration, whatever the variables held before, and after all later changes; none of these
-- changes the size of the history; and without values from the configuration files the registration
-- gives the defaults.
pub register_gucs-IsRegistered :
    (g : GucServer) (raw : Config) (changes : List (ℕ × CString))
    → Enforces g
    → let c = register_gucs g raw in
      IsRegistered c
      × IsRegistered (set_all g changes c)
      × ((set_all g changes c).event_history_size ≡ c.event_history_size)
      × (register_gucs (record g { placeholder = λ s. none }) raw ≡ defaults)
unfolding register_gucs settings define_variable define_all
register_gucs-IsRegistered g raw changes e =
    let ranges : IsRegistered (register_gucs g raw) =
      subst IsRegistered (sym (define_all-write_all g settings raw settings-IsSound))
        (write_all-IsRegistered g raw (Each-placed g settings e settings-IsSound)) in
    (
      ranges,
      set_all_rule g IsRegistered
          (λ s text c sound h. set_variable-IsRegistered g s text c e sound h) changes _ ranges,
      set_all_rule g (λ c. c.event_history_size ≡ (register_gucs g raw).event_history_size)
          (λ s text c sound h. set_variable-size g s text c e sound ∙ h) changes _ refl,
      refl,
    )
