-- ===== src/Breaker/Groups.antt =====
-- The groups of digits that append_grouped_u64 of src/circuit_breaker.c writes.
use pg_circuit.Prelude.{
  ℕ, ◌+◌, ◌%◌, ◌≤◌, ◌≡◌, refl, ltb, ◌==◌, true, false, List, ◌&&◌, [], ◌∷◌, ◌++◌, length, CString,
  All, arith,
}
use mathlib.Core.List.{reverse, reverse-cons}
use pg_circuit.Breaker.{group_digits}

-- The characters of a number are digits.
abbrev pub IsDigit : ℕ → Type 0
IsDigit c = (48 ≤ c) × (c ≤ 57)

abbrev pub IsDigits : CString → Type 0
IsDigits s = All IsDigit s

All-append : {A : Type 0} (P : A → Type 0) (s t : List A) → All P s → All P t → All P (s ++ t)
All-append P [] t h k = k
All-append P (x ∷ s) t (first, h) k = (first, All-append P s t h k)

pub reverse-IsDigits : (s : CString) → IsDigits s → IsDigits (reverse s)
reverse-IsDigits [] d = tt
reverse-IsDigits (c ∷ s) (first, d) =
    rw (reverse-cons c s)
      (All-append IsDigit (reverse s) (c ∷ []) (reverse-IsDigits s d) (first, tt))

-- A number with separators, read from its last digit on: groups of three digits, each followed by a
-- comma, and last one to three digits.
pub data IsGrouped : CString → Type 0 where
  one : {a : ℕ} → IsDigit a → IsGrouped (a ∷ [])
  two : {a b : ℕ} → IsDigit a → IsDigit b → IsGrouped (a ∷ b ∷ [])
  three : {a b c : ℕ} → IsDigit a → IsDigit b → IsDigit c → IsGrouped (a ∷ b ∷ c ∷ [])
  more :
      {a b c : ℕ} {s : CString}
      → IsDigit a
      → IsDigit b
      → IsDigit c
      → IsGrouped s
      → IsGrouped (a ∷ b ∷ c ∷ b',' ∷ s)

group_digits-on :
    (k c : ℕ) (s : CString)
    → (ltb 0 k && k % 3 == 0) ≡ false
    → group_digits k (c ∷ s) ≡ c ∷ group_digits (k + 1) s
unfolding group_digits
group_digits-on k c s h = rw h refl

group_digits-cut :
    (k c : ℕ) (s : CString)
    → (ltb 0 k && k % 3 == 0) ≡ true
    → group_digits k (c ∷ s) ≡ b',' ∷ c ∷ group_digits (k + 1) s
unfolding group_digits
group_digits-cut k c s h = rw h refl

-- From a multiple `k` of 3 on, past the comma.
group_digits-IsGrouped_from :
    (k a : ℕ) (s : CString)
    → k % 3 ≡ 0
    → IsDigit a
    → IsDigits s
    → IsGrouped (a ∷ group_digits (k + 1) s)
unfolding group_digits
group_digits-IsGrouped_from k a [] h da ds = one da
group_digits-IsGrouped_from k a (b ∷ []) h da (db, ds) =
    let first : (ltb 0 (k + 1) && (k + 1) % 3 == 0) ≡ false = ground arith in
    rw (group_digits-on (k + 1) b [] first) (two da db)
group_digits-IsGrouped_from k a (b ∷ c ∷ []) h da (db, (dc, ds)) =
    let first : (ltb 0 (k + 1) && (k + 1) % 3 == 0) ≡ false = ground arith in
    let second : (ltb 0 (k + 1 + 1) && (k + 1 + 1) % 3 == 0) ≡ false = ground arith in
    rw (group_digits-on (k + 1) b (c ∷ []) first, group_digits-on (k + 1 + 1) c [] second)
      (three da db dc)
group_digits-IsGrouped_from k a (b ∷ c ∷ d ∷ s) h da (db, (dc, (dd, ds))) =
    let first : (ltb 0 (k + 1) && (k + 1) % 3 == 0) ≡ false = ground arith in
    let second : (ltb 0 (k + 1 + 1) && (k + 1 + 1) % 3 == 0) ≡ false = ground arith in
    let third : (ltb 0 (k + 1 + 1 + 1) && (k + 1 + 1 + 1) % 3 == 0) ≡ true = ground arith in
    rw
      (
        group_digits-on (k + 1) b (c ∷ d ∷ s) first,
        group_digits-on (k + 1 + 1) c (d ∷ s) second,
        group_digits-cut (k + 1 + 1 + 1) d s third,
      )
      (more da db dc (group_digits-IsGrouped_from (k + 1 + 1 + 1) d s (omega (arith, h)) dd ds))

pub group_digits-IsGrouped :
    (s : CString) → 1 ≤ length s → IsDigits s → IsGrouped (group_digits 0 s)
group_digits-IsGrouped [] h d = absurd (omega arith)
group_digits-IsGrouped (a ∷ s) h (first, d) =
    rw (group_digits-on 0 a s refl) (group_digits-IsGrouped_from 0 a s refl first d)
