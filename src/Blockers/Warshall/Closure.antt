-- ===== src/Blockers/Warshall/Closure.antt =====
-- The loops of graph_has_cycle in src/blocker_graph.c compute the transitive closure.
use pg_circuit.Prelude.{
  ℕ, zero, suc, ◌+◌, ◌≤◌, ◌<◌, ◌≡◌, true, false, ◌↔◌, inl, inr, Bool-cases, arith,
}
use native.Mathlib.Decide.{ℕ_discrete}
use pg_circuit.Blockers.Matrix.{Matrix, get_bit, IsSquare}
use pg_circuit.Blockers.Warshall.{
  relax_rows, warshall, has_loop, relax_rows-IsSquare, get_bit-relax_rows,
}

-- Every bit of the matrix means a relation.
abbrev pub Sound : (ℕ → ℕ → Type 0) → Matrix → Type 0
Sound R m = (a b : ℕ) → get_bit m a b ≡ true → R a b

-- Steps through the first `k` indices are closed.
abbrev pub Closed : ℕ → ℕ → Matrix → Type 0
Closed n k m =
    (a x b : ℕ)
    → x < k
    → a < n
    → b < n
    → get_bit m a x ≡ true
    → get_bit m x b ≡ true
    → get_bit m a b ≡ true

-- No bit is lost.
abbrev pub Keeps : Matrix → Matrix → Type 0
Keeps m m' = (a b : ℕ) → get_bit m a b ≡ true → get_bit m' a b ≡ true

module _ (n : ℕ) (small : n ≤ 64) where
  -- A round at an index in range, as the disjunction that it computes.
  abbrev Through : ℕ → Matrix → ℕ → ℕ → Type 0
  Through k m a b = (get_bit m a k ≡ true) × (get_bit m k b ≡ true)

  round-Sound :
      (k : ℕ) (m : Matrix) (R : ℕ → ℕ → Type 0)
      → k < n
      → IsSquare m
      → ((a b c : ℕ) → R a b → R b c → R a c)
      → Sound R m
      → Sound R (relax_rows k n n 0 m)
  round-Sound k m R hk sq trans h a b on = elim (Bool-cases (get_bit m a b)) [
    | inl old ↦ h a b old
    | inr new ↦ let (left, right) = through new in trans a k b (h a k left) (h k b right)
  ]
    where
      through : get_bit m a b ≡ false → Through k m a b
      through new = ground (arith, get_bit-relax_rows k n n 0 m a b hk small (omega arith) sq)

  round-Keeps : (k : ℕ) (m : Matrix) → k < n → IsSquare m → Keeps m (relax_rows k n n 0 m)
  round-Keeps k m hk sq a b on =
      ground (arith, get_bit-relax_rows k n n 0 m a b hk small (omega arith) sq)

  round-Closed :
      (k : ℕ) (m : Matrix)
      → k < n
      → IsSquare m
      → Closed n k m
      → Closed n (suc k) (relax_rows k n n 0 m)
  round-Closed k m hk sq h a x b hx ha hb =
      let bit = λ (i j : ℕ). get_bit-relax_rows k n n 0 m i j hk small (omega arith) sq in
      ground (arith, bit a x, bit x b, bit a b, h a x b, h a x k, h k x b)

  -- What the whole triple loop does from round `k` on.
  pub record Closes (k : ℕ) (m m' : Matrix) : Type 1 where
    pub square : IsSquare m'
    pub sound :
        (R : ℕ → ℕ → Type 0) → ((a b c : ℕ) → R a b → R b c → R a c) → Sound R m → Sound R m'
    pub keeps : Keeps m m'
    pub closed : Closed n k m → Closed n n m'

  warshall-Closes :
      (left k : ℕ) (m : Matrix) → k + left ≡ n → IsSquare m → Closes k m (warshall n left k m)
  unfolding warshall
  warshall-Closes zero k m e sq = record {
    square = sq;
    sound = λ R trans h. h;
    keeps = λ a b on. on;
    closed = λ h a x b hx. h a x b (omega arith);
  }
  warshall-Closes (suc left) k m e sq =
      let m' = relax_rows k n n 0 m in
      let hk : k < n = omega arith in
      let rest =
        warshall-Closes left (k + 1) m' (omega arith)
          (relax_rows-IsSquare k n n 0 m (omega arith) sq) in
      record {
        square = rest.square;
        sound = λ R trans h. rest.sound R trans (round-Sound k m R hk sq trans h);
        keeps = λ a b on. rest.keeps a b (round-Keeps k m hk sq a b on);
        closed = λ h. rest.closed (λ a x b hx. round-Closed k m hk sq h a x b (omega arith));
      }

  -- The loops compute the transitive closure of the matrix below `n`.
  pub warshall_lem : (m : Matrix) → IsSquare m → Closes 0 m (warshall n n 0 m)
  warshall_lem m sq = warshall-Closes n 0 m (omega arith) sq

pub has_loop_iff :
    (left i : ℕ) (m : Matrix)
    → (has_loop left i m ≡ true) ↔ ((k : ℕ) × (i ≤ k) × (k < i + left) × (get_bit m k k ≡ true))
unfolding has_loop
has_loop_iff left i m = (to left i, from left i)
  where
    to :
        (left i : ℕ)
        → has_loop left i m ≡ true
        → (k : ℕ) × (i ≤ k) × (k < i + left) × (get_bit m k k ≡ true)
    to zero i h = cc
    to (suc left) i h = elim (Bool-cases (get_bit m i i)) [
      | inl on ↦ (i, omega arith, omega arith, on)
      | inr off ↦
          let (k, low, high, on) = to left (i + 1) (ground arith) in
          (k, omega arith, omega arith, on)
    ]

    from :
        (left i : ℕ)
        → (k : ℕ) × (i ≤ k) × (k < i + left) × (get_bit m k k ≡ true)
        → has_loop left i m ≡ true
    from zero i (k, low, high, on) = absurd (omega arith)
    from (suc left) i (k, low, high, on) = elim (ℕ_discrete i k) [
      | yes e ↦ ground arith
      | no ne ↦ ground (arith, from left (i + 1) (k, omega arith, omega arith, on))
    ]
