-- ===== src/Prelude/Text.antt =====
-- C strings as lists of bytes, the terminating zero left out, and the parts of the C library that
-- the program formats text with.
use Prim.Native.Nat.{ℕ, zero, suc, ◌+◌, ◌-◌, ◌/◌, ◌%◌, ◌<◌}
use Prim.Native.Char.{code}
use Prim.Native.String.{String}
use mathlib.Core.Bool.{Bool, true, false, ◌&&◌}
use mathlib.Core.List.{List, [], ◌∷◌}
use native.Mathlib.Omega.{arith}
use pg_circuit.Prelude.Tests.{ltb, ◌==◌, if◌then◌else◌}
use pg_circuit.Prelude.Lists.{length, take, length-take}
use pg_circuit.Prelude.Int.{ℤ, pos, negsuc}

abbrev pub CString : Type 0
CString = List ℕ

-- A string literal.
abbrev pub codes : String → CString
codes String.[] = []
codes (String.◌∷◌ c s) = code c ∷ codes s

-- `s[0] == '\0'`
abbrev pub is_empty : CString → Bool
is_empty [] = true
is_empty (c ∷ s) = false

-- `strcmp(s, t) == 0`
abbrev pub str_eq : CString → CString → Bool
str_eq [] [] = true
str_eq [] (d ∷ t) = false
str_eq (c ∷ s) [] = false
str_eq (c ∷ s) (d ∷ t) = (c == d) && str_eq s t

-- What a buffer of `size` bytes holds after `strlcpy` or `snprintf` of `s`.
abbrev pub fit : ℕ → CString → CString
fit size s = take (size - 1) s

pub length-fit : (size : ℕ) (s : CString) → 0 < size → length (fit size s) < size
length-fit size s h = omega (arith, length-take (size - 1) s)

-- The decimal digits of `n`, most significant first, put before `acc`.
unfoldable pub digits_onto : ℕ → ℕ → CString → CString
digits_onto zero n acc = acc
digits_onto (suc f) n acc =
    let rest = digits_onto f (n / 10) ((48 + n % 10) ∷ acc) in
    if ltb n 10 then (48 + n) ∷ acc else rest

-- `%d` and `%u`; a number has at most as many digits as its successor counts.
unfoldable pub show_ℕ : ℕ → CString
unfolding digits_onto
show_ℕ n = digits_onto (suc n) n []

unfoldable pub show_ℤ : ℤ → CString
unfolding show_ℕ
show_ℤ (pos n) = show_ℕ n
show_ℤ (negsuc n) = b'-' ∷ show_ℕ (suc n)
