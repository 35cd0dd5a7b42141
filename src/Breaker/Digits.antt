-- ===== src/Breaker/Digits.antt =====
-- The numbers that append_grouped_u64 of src/circuit_breaker.c writes.
use pg_circuit.Prelude.{
  ℕ, zero, suc, ◌+◌, ◌-◌, ◌*◌, ◌/◌, ◌%◌, ◌^◌, ◌≤◌, ◌<◌, ◌≡◌, refl, sym, ap, ◌∙◌, ltb, ◌==◌, false,
  ◌&&◌, if◌then◌else◌, [], ◌∷◌, ◌++◌, length, length-append, CString, show_ℕ, digits_onto,
  Bool-cases, inl, inr, arith,
}
use mathlib.Core.List.{reverse, reverse-cons, reverse-reverse, append-nil}
use pg_circuit.Breaker.Groups.{IsDigits, IsGrouped, reverse-IsDigits, group_digits-IsGrouped}
use pg_circuit.Breaker.{group_digits, grouped}

-- The number that digits read as, from `a` on; commas are passed over.
pub read_digits : ℕ → CString → ℕ
read_digits a [] = a
read_digits a (c ∷ s) =
    let skipped = read_digits a s in
    let taken = read_digits (a * 10 + (c - 48)) s in if c == b',' then skipped else taken

-- The characters that are no commas.
strip : CString → CString
strip [] = []
strip (c ∷ s) = let rest = strip s in if c == b',' then rest else c ∷ rest

read_digits-strip : (a : ℕ) (s : CString) → read_digits a (strip s) ≡ read_digits a s
unfolding read_digits strip
read_digits-strip a [] = refl
read_digits-strip a (c ∷ s) = elim (Bool-cases (c == b',')) [
  | inl comma ↦ rw comma (read_digits-strip a s)
  | inr other ↦ rw (other, other) (read_digits-strip (a * 10 + (c - 48)) s)
]

strip-append : (s t : CString) → strip (s ++ t) ≡ strip s ++ strip t
unfolding strip
strip-append [] t = refl
strip-append (c ∷ s) t = elim (Bool-cases (c == b',')) [
  | inl comma ↦ rw comma (strip-append s t)
  | inr other ↦ rw other (ap (λ r. c ∷ r) (strip-append s t))
]

strip-group_digits : (k : ℕ) (s : CString) → strip (group_digits k s) ≡ strip s
unfolding strip group_digits
strip-group_digits k [] = refl
strip-group_digits k (c ∷ s) = elim (Bool-cases (ltb 0 k && k % 3 == 0)) [
  | inl cut ↦ rw cut (ap (λ r. if c == b',' then r else c ∷ r) (strip-group_digits (k + 1) s))
  | inr on ↦ rw on (ap (λ r. if c == b',' then r else c ∷ r) (strip-group_digits (k + 1) s))
]

strip-IsDigits : (s : CString) → IsDigits s → strip s ≡ s
unfolding strip
strip-IsDigits [] d = refl
strip-IsDigits (c ∷ s) (first, d) =
    let other : (c == b',') ≡ false = ground (arith, first.0) in
    rw other (ap (λ r. c ∷ r) (strip-IsDigits s d))

digits_onto-IsDigits : (f n : ℕ) (acc : CString) → IsDigits acc → IsDigits (digits_onto f n acc)
unfolding digits_onto
digits_onto-IsDigits zero n acc d = d
digits_onto-IsDigits (suc f) n acc d = elim (Bool-cases (ltb n 10)) [
  | inl small ↦ let low : n < 10 = ground arith in rw small ((omega arith, omega (arith, low)), d)
  | inr large ↦
      rw large
        (digits_onto-IsDigits f (n / 10) ((48 + n % 10) ∷ acc) ((omega arith, omega arith), d))
]

read_digits-digit :
    (a d : ℕ) (acc : CString) → read_digits a ((48 + d) ∷ acc) ≡ read_digits (a * 10 + d) acc
unfolding read_digits
read_digits-digit a d acc =
    let other : ((48 + d) == b',') ≡ false = ground arith in
    let value : a * 10 + (48 + d - 48) ≡ a * 10 + d = omega arith in rw (other, value) refl

read_digits-digits_onto :
    (f n : ℕ) (acc : CString) → n < f → read_digits 0 (digits_onto f n acc) ≡ read_digits n acc
unfolding digits_onto
read_digits-digits_onto zero n acc h = absurd (omega arith)
read_digits-digits_onto (suc f) n acc h = elim (Bool-cases (ltb n 10)) [
  | inl small ↦
      let value : 0 * 10 + n ≡ n = omega arith in
      rw small (read_digits-digit 0 n acc ∙ ap (λ v. read_digits v acc) value)
  | inr large ↦
      let value : n / 10 * 10 + n % 10 ≡ n = omega arith in
      rw large (
        read_digits-digits_onto f (n / 10) ((48 + n % 10) ∷ acc) (ground arith)
        ∙ read_digits-digit (n / 10) (n % 10) acc
        ∙ ap (λ v. read_digits v acc) value)
]

-- 10 to the power of k
ten_to : ℕ → ℕ
ten_to zero = 1
ten_to (suc k) = 10 * ten_to k

length-digits_onto :
    (k f n : ℕ) (acc : CString)
    → n < ten_to (suc k)
    → length (digits_onto f n acc) ≤ suc k + length acc
unfolding digits_onto ten_to
length-digits_onto k zero n acc h = omega arith
length-digits_onto zero (suc f) n acc h = elim (Bool-cases (ltb n 10)) [
  | inl small ↦ rw small (omega arith)
  | inr large ↦ absurd (ground arith)
]
length-digits_onto (suc k) (suc f) n acc h = elim (Bool-cases (ltb n 10)) [
  | inl small ↦ rw small (omega arith)
  | inr large ↦
      let rest = length-digits_onto k f (n / 10) ((48 + n % 10) ∷ acc) (omega arith) in
      rw large (omega arith)
]

length-group_digits : (k : ℕ) (s : CString) → length (group_digits k s) ≤ 2 * length s
unfolding group_digits
length-group_digits k [] = omega arith
length-group_digits k (c ∷ s) = elim (Bool-cases (ltb 0 k && k % 3 == 0)) [
  | inl cut ↦ rw cut (omega (arith, length-group_digits (k + 1) s))
  | inr on ↦ rw on (omega (arith, length-group_digits (k + 1) s))
]

strip-reverse : (s : CString) → strip (reverse s) ≡ reverse (strip s)
unfolding strip
strip-reverse [] = refl
strip-reverse (c ∷ s) = rw (reverse-cons c s) (
    strip-append (reverse s) (c ∷ []) ∙ (elim (Bool-cases (c == b',')) [
      | inl comma ↦ rw comma (append-nil (strip (reverse s)) ∙ strip-reverse s)
      | inr other ↦ rw (other, reverse-cons c (strip s)) (ap (λ r. r ++ c ∷ []) (strip-reverse s))
    ]))

length-reverse : (s : CString) → length (reverse s) ≡ length s
length-reverse [] = refl
length-reverse (c ∷ s) =
    rw (reverse-cons c s)
      (length-append (reverse s) (c ∷ []) ∙ ap (λ n. n + 1) (length-reverse s) ∙ omega arith)

show_fits : (n : ℕ) → n < 2 ^ 64 → length (show_ℕ n) ≤ 20
unfolding show_ℕ ten_to
show_fits n h =
    let bound : n < ten_to 20 = omega arith in
    omega (arith, length-digits_onto 19 (suc n) n [] bound)

digits_onto-length : (f n : ℕ) (acc : CString) → length acc + 1 ≤ length (digits_onto (suc f) n acc)
unfolding digits_onto
digits_onto-length zero n acc = elim (Bool-cases (ltb n 10)) [
  | inl small ↦ rw small (omega arith)
  | inr large ↦ rw large (omega arith)
]
digits_onto-length (suc f) n acc = elim (Bool-cases (ltb n 10)) [
  | inl small ↦ rw small (omega arith)
  | inr large ↦
      let rest = digits_onto-length f (n / 10) ((48 + n % 10) ∷ acc) in rw large (omega arith)
]

-- A 64-bit number is written with a comma before each group of three digits from the right that has a
-- digit before it, and with no other one; it reads back; and its text fits the buffers `tmp[32]` and
-- `out[48]`.
pub read_digits-grouped :
    (n : ℕ)
    → n < 2 ^ 64
    → IsGrouped (reverse (grouped n))
      × (read_digits 0 (grouped n) ≡ n)
      × (length (show_ℕ n) < 32)
      × (length (grouped n) < 48)
unfolding grouped show_ℕ read_digits
read_digits-grouped n h =
    let turned = reverse (show_ℕ n) in
    let digits = digits_onto-IsDigits (suc n) n [] tt in
    let some_digit : 1 ≤ length turned =
      omega (arith, length-reverse (show_ℕ n), digits_onto-length n n []) in
    (
      rw (reverse-reverse (group_digits 0 turned))
          (group_digits-IsGrouped turned some_digit (reverse-IsDigits (show_ℕ n) digits)),
      sym (read_digits-strip 0 (grouped n))
          ∙ ap (read_digits 0) (
              strip-reverse (group_digits 0 turned)
              ∙ ap reverse (
                  strip-group_digits 0 turned
                  ∙ strip-reverse (show_ℕ n)
                  ∙ ap reverse (strip-IsDigits (show_ℕ n) digits))
              ∙ reverse-reverse (show_ℕ n))
          ∙ read_digits-digits_onto (suc n) n [] (omega arith),
      omega (arith, show_fits n h),
      omega (
        arith,
        show_fits n h,
        length-reverse (show_ℕ n),
        length-group_digits 0 turned,
        length-reverse (group_digits 0 turned),
      ),
    )
