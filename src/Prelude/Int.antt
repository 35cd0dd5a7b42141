-- ===== src/Prelude/Int.antt =====
-- C's signed integers: an integer over the native numbers, and arithmetic that wraps at a width.
-- PostgreSQL and its extensions are built with -fwrapv, so signed overflow wraps around.
use Prim.Native.Nat.{ℕ, suc, ◌+◌, ◌-◌, ◌*◌, ◌%◌, ◌^◌, ◌≤◌, ◌<◌}
use mathlib.Core.Path.{◌≡◌}
use mathlib.Core.Bool.{Bool}
use native.Mathlib.Omega.{arith}
use pg_circuit.Prelude.Tests.{ltb, leb, if◌then◌else◌}

-- `negsuc n` is -(n + 1).
pub data ℤ : Type 0 where
  pos : ℕ → ℤ
  negsuc : ℕ → ℤ

abbrev pub pos_part : ℤ → ℕ
pos_part (pos n) = n
pos_part (negsuc n) = 0

abbrev pub neg_part : ℤ → ℕ
neg_part (pos n) = 0
neg_part (negsuc n) = suc n

-- a - b, as an integer.
abbrev pub sub_ℕ : ℕ → ℕ → ℤ
sub_ℕ a b = if leb b a then pos (a - b) else negsuc (b - a - 1)

infixl 65 ◌+ℤ◌ ◌-ℤ◌
infixl 70 ◌*ℤ◌
infix 50 ◌≤ℤ◌
abbrev pub ◌+ℤ◌ : ℤ → ℤ → ℤ
a +ℤ b = sub_ℕ (pos_part a + pos_part b) (neg_part a + neg_part b)

abbrev pub ◌-ℤ◌ : ℤ → ℤ → ℤ
a -ℤ b = sub_ℕ (pos_part a + neg_part b) (neg_part a + pos_part b)

abbrev pub ◌*ℤ◌ : ℤ → ℤ → ℤ
a *ℤ b =
    sub_ℕ (pos_part a * pos_part b + neg_part a * neg_part b)
      (pos_part a * neg_part b + neg_part a * pos_part b)

abbrev pub ◌≤ℤ◌ : ℤ → ℤ → Type 0
a ≤ℤ b = pos_part a + neg_part b ≤ pos_part b + neg_part a

abbrev pub ltb_ℤ : ℤ → ℤ → Bool
ltb_ℤ a b = ltb (pos_part a + neg_part b) (pos_part b + neg_part a)

abbrev pub leb_ℤ : ℤ → ℤ → Bool
leb_ℤ a b = leb (pos_part a + neg_part b) (pos_part b + neg_part a)

-- A number modulo `2 * half`, read as a two's complement value of -half .. half - 1.
abbrev pub of_residue : ℕ → ℕ → ℤ
of_residue half r = if ltb r half then pos r else negsuc (2 * half - 1 - r)

abbrev pub wrap : ℕ → ℤ → ℤ
wrap half (pos n) = of_residue half (n % (2 * half))
wrap half (negsuc n) = of_residue half (2 * half - 1 - n % (2 * half))

-- `int`
abbrev pub int_half : ℕ
int_half = 2 ^ 31

unfoldable pub add_int : ℤ → ℤ → ℤ
add_int a b = wrap int_half (a +ℤ b)

unfoldable pub mul_int : ℤ → ℤ → ℤ
mul_int a b = wrap int_half (a *ℤ b)

unfoldable pub sub_int : ℤ → ℤ → ℤ
sub_int a b = wrap int_half (a -ℤ b)

-- `int64`
unfoldable pub add_int64 : ℤ → ℤ → ℤ
add_int64 a b = wrap (2 ^ 63) (a +ℤ b)

unfoldable pub sub_int64 : ℤ → ℤ → ℤ
sub_int64 a b = wrap (2 ^ 63) (a -ℤ b)

-- Below the limit of its type a sum or a product of counts is exact.
pub add_int-pos : (a b : ℕ) → a + b < 2 ^ 31 → add_int (pos a) (pos b) ≡ pos (a + b)
unfolding add_int
add_int-pos a b h = ground arith

pub mul_int-pos : (a b : ℕ) → a * b < 2 ^ 31 → mul_int (pos a) (pos b) ≡ pos (a * b)
unfolding mul_int
mul_int-pos a b h = ground arith

pub add_int64-pos : (a b : ℕ) → a + b < 2 ^ 63 → add_int64 (pos a) (pos b) ≡ pos (a + b)
unfolding add_int64
add_int64-pos a b h = ground arith
