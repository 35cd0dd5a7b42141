-- ===== src/Examples/Settings.antt =====
-- A server that reads numbers, names of options and "on", and the runs of the settings in it.
use pg_circuit.Prelude.{
  ℕ, ◌+◌, ◌-◌, ◌*◌, pos, leb_ℤ, ◌≡◌, refl, ◌&&◌, List, [], ◌∷◌, Option, none, some, CString, codes,
  str_eq, if◌then◌else◌, arith,
}
use pg_circuit.Types.{Mode}
use pg_circuit.Config.{defaults, IsRegistered, EnumEntry, mode_options}
use pg_circuit.Config.Register.{
  GucContext, Setting, bool_variable, int_variable, enum_variable, ValueOf, context_of, Offers,
  Admits, GucServer, Enforces, register_gucs, set_all,
}
use pg_circuit.Examples.Values.{two_slots}
use pg_circuit.Config.Ranges.{register_gucs-IsRegistered}

unfoldable pub digits : ℕ → CString → ℕ
digits n [] = n
digits n (c ∷ text) = digits (n * 10 + (c - b'0')) text

unfoldable pub pick : {A : Type 0} → CString → List (EnumEntry A) → Option A
pick text [] = none
pick text (e ∷ es) = if str_eq e.name text then some e.value else pick text es

-- The value of a text, if the variable admits it.
unfoldable pub read : (s : Setting) → CString → Option (ValueOf s)
unfolding pick digits
read (bool_variable name write boot context) text = some (str_eq text (codes "on"))
read (int_variable name write boot low high context) text =
    let v = pos (digits 0 text) in if leb_ℤ low v && leb_ℤ v high then some v else none
read (enum_variable name write boot options context) text = pick text options

pick-Offers :
    {A : Type 0} (text : CString) (es : List (EnumEntry A)) (v : A)
    → pick text es ≡ some v
    → Offers v es
unfolding pick
pick-Offers text [] v h = ground arith
pick-Offers text (e ∷ es) v h = ground (arith, pick-Offers text es v)

read-Admits : (s : Setting) (text : CString) (v : ValueOf s) → read s text ≡ some v → Admits s v
unfolding read
read-Admits (bool_variable name write boot context) text v h = tt
read-Admits (int_variable name write boot low high context) text v h = ground arith
read-Admits (enum_variable name write boot options context) text v h = pick-Offers text options v h

unfoldable pub name_of : Setting → CString
name_of (bool_variable name write boot context) = name
name_of (int_variable name write boot low high context) = name
name_of (enum_variable name write boot options context) = name

-- The configuration file keeps 300 events.
abbrev pub server : GucServer
server = record {
  placeholder = λ s.
      if str_eq (name_of s) (codes "pg_circuit.event_history_size")
      then read s (codes "300")
      else none;
  accepts = λ s text. elim (context_of s) [
    | GucContext.postmaster ↦ none
    | GucContext.suset ↦ read s text
  ];
}

pub server-Enforces : Enforces server
server-Enforces = record {
  placed = λ s v h. ground (arith, read-Admits s (codes "300") v);
  accepted = λ s text v h. ground (arith, read-Admits s text v);
  fixed = λ s text h. rw (h, server) refl;
}

-- Enforce mode, a threshold, a threshold that is out of range, and the fixed size.
abbrev pub changes : List (ℕ × CString)
changes =
    (2, codes "enforce")
    ∷ (8, codes "70")
    ∷ (7, codes "101")
    ∷ (9, codes "4096")
    ∷ (99, codes "on")
    ∷ []

register_gucs-IsRegistered_example :
    let c = register_gucs server two_slots in
    IsRegistered c
    × IsRegistered (set_all server changes c)
    × ((set_all server changes c).event_history_size ≡ c.event_history_size)
    × (register_gucs (record server { placeholder = λ s. none }) two_slots ≡ defaults)
register_gucs-IsRegistered_example =
    register_gucs-IsRegistered server two_slots changes server-Enforces

-- What the changes leave.
changed : set_all server changes (register_gucs server two_slots) ≡ record defaults {
  mode = Mode.enforce;
  risk_block_threshold = pos 70;
  event_history_size = pos 300;
}
unfolding register_gucs set_all read digits pick name_of mode_options
changed = refl
