-- ===== src/Blockers/Warshall.antt =====
-- The reachability loops of graph_has_cycle in src/blocker_graph.c: transitive closure in place.
pub mod Closure
use pg_circuit.Prelude.{
  ℕ, zero, suc, ◌+◌, ◌≤◌, ◌<◌, ◌≡◌, refl, ◌==◌, ltb, leb, Bool, true, false, ◌&&◌, ◌||◌,
  if◌then◌else◌, List, ◌⊎◌, inl, inr, Bool-cases, arith, ◌∙◌,
}
use pg_circuit.Blockers.Matrix.{
  Matrix, get_bit, set_bit, IsSquare, get_bit-set_bit, set_bit-IsSquare,
}

-- `for (j ...) if (adj[k][j]) adj[i][j] = true;`, with `left` rounds to go.
unfoldable pub relax_row : ℕ → ℕ → ℕ → ℕ → Matrix → Matrix
relax_row k i zero j m = m
relax_row k i (suc left) j m =
    relax_row k i left (j + 1) (if get_bit m k j then set_bit m i j else m)

-- `for (i ...) if (adj[i][k]) for (j ...) ...`
unfoldable pub relax_rows : ℕ → ℕ → ℕ → ℕ → Matrix → Matrix
unfolding relax_row
relax_rows k n zero i m = m
relax_rows k n (suc left) i m =
    relax_rows k n left (i + 1) (if get_bit m i k then relax_row k i n 0 m else m)

-- `for (k ...) for (i ...) ...`
unfoldable pub warshall : ℕ → ℕ → ℕ → Matrix → Matrix
unfolding relax_rows
warshall n zero k m = m
warshall n (suc left) k m = warshall n left (k + 1) (relax_rows k n n 0 m)

-- `for (i ...) if (adj[i][i]) return true; return false;`
unfoldable pub has_loop : ℕ → ℕ → Matrix → Bool
has_loop zero i m = false
has_loop (suc left) i m = get_bit m i i || has_loop left (i + 1) m

-- One round of the innermost loop.
abbrev relax_bit : ℕ → ℕ → ℕ → Matrix → Matrix
relax_bit k i j m = if get_bit m k j then set_bit m i j else m

relax_bit-IsSquare : (k i j : ℕ) (m : Matrix) → i < 64 → IsSquare m → IsSquare (relax_bit k i j m)
relax_bit-IsSquare k i j m hi sq = elim (Bool-cases (get_bit m k j)) [
  | inl on ↦ rw on (set_bit-IsSquare m i j hi sq)
  | inr off ↦ rw off sq
]

get_bit-relax_bit :
    (k i j : ℕ) (m : Matrix) (a b : ℕ)
    → i < 64
    → j < 64
    → IsSquare m
    → get_bit (relax_bit k i j m) a b ≡ (get_bit m a b || (a == i) && (b == j) && get_bit m k j)
get_bit-relax_bit k i j m a b hi hj sq = ground (arith, get_bit-set_bit m i j a b)

relax_row-IsSquare :
    (k i left j : ℕ) (m : Matrix) → i < 64 → IsSquare m → IsSquare (relax_row k i left j m)
unfolding relax_row
relax_row-IsSquare k i zero j m hi sq = sq
relax_row-IsSquare k i (suc left) j m hi sq =
    relax_row-IsSquare k i left (j + 1) (relax_bit k i j m) hi (relax_bit-IsSquare k i j m hi sq)

pub get_bit-relax_row :
    (k i left j : ℕ) (m : Matrix) (a b : ℕ)
    → i < 64
    → j + left ≤ 64
    → IsSquare m
    → get_bit (relax_row k i left j m) a b
      ≡ (get_bit m a b || (a == i) && (leb j b && ltb b (j + left) && get_bit m k b))
unfolding relax_row
get_bit-relax_row k i zero j m a b hi hj sq = ground arith
get_bit-relax_row k i (suc left) j m a b hi hj sq =
    let m' = relax_bit k i j m in
    ground (
      arith,
      get_bit-relax_row k i left (j + 1) m' a b hi (omega arith) (relax_bit-IsSquare k i j m hi sq),
      get_bit-relax_bit k i j m a b hi (omega arith) sq,
      get_bit-relax_bit k i j m k b hi (omega arith) sq,
    )

-- One round of the loop over the rows.
abbrev relax_if : ℕ → ℕ → ℕ → Matrix → Matrix
relax_if k n i m = if get_bit m i k then relax_row k i n 0 m else m

relax_if-IsSquare : (k n i : ℕ) (m : Matrix) → i < 64 → IsSquare m → IsSquare (relax_if k n i m)
relax_if-IsSquare k n i m hi sq = elim (Bool-cases (get_bit m i k)) [
  | inl on ↦ rw on (relax_row-IsSquare k i n 0 m hi sq)
  | inr off ↦ rw off sq
]

get_bit-relax_if :
    (k n i : ℕ) (m : Matrix) (a b : ℕ)
    → i < 64
    → n ≤ 64
    → IsSquare m
    → get_bit (relax_if k n i m) a b
      ≡ (get_bit m a b || (a == i) && ltb b n && get_bit m i k && get_bit m k b)
get_bit-relax_if k n i m a b hi hn sq =
    ground (arith, get_bit-relax_row k i n 0 m a b hi (omega arith) sq)

pub relax_rows-IsSquare :
    (k n left i : ℕ) (m : Matrix) → i + left ≤ 64 → IsSquare m → IsSquare (relax_rows k n left i m)
unfolding relax_rows
relax_rows-IsSquare k n zero i m hi sq = sq
relax_rows-IsSquare k n (suc left) i m hi sq =
    relax_rows-IsSquare k n left (i + 1) (relax_if k n i m) (omega arith)
      (relax_if-IsSquare k n i m (omega arith) sq)

-- A round of the outer loop sets exactly the bits that lead through `k`, though it reads the row
-- and the column of `k` while it writes.
pub get_bit-relax_rows :
    (k n left i : ℕ) (m : Matrix) (a b : ℕ)
    → k < n
    → n ≤ 64
    → i + left ≤ 64
    → IsSquare m
    → get_bit (relax_rows k n left i m) a b ≡ (
        get_bit m a b || (leb i a && ltb a (i + left) && ltb b n && get_bit m a k && get_bit m k b))
unfolding relax_rows
get_bit-relax_rows k n zero i m a b hk hn hi sq = ground arith
get_bit-relax_rows k n (suc left) i m a b hk hn hi sq =
    let m' = relax_if k n i m in
    ground (
      arith,
      get_bit-relax_rows k n left (i + 1) m' a b hk hn (omega arith)
          (relax_if-IsSquare k n i m (omega arith) sq),
      get_bit-relax_if k n i m a b (omega arith) hn sq,
      get_bit-relax_if k n i m a k (omega arith) hn sq,
      get_bit-relax_if k n i m k b (omega arith) hn sq,
    )
