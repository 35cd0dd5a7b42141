-- ===== src/Blockers/Matrix.antt =====
-- The adjacency matrix `bool adj[64][64]` of graph_has_cycle in src/blocker_graph.c.
use pg_circuit.Prelude.{
  ℕ, zero, suc, ◌<◌, ◌≡◌, refl, ◌==◌, Bool, true, false, ◌&&◌, ◌||◌, List, [], ◌∷◌, length, get_or,
  set, replicate, length-set, arith, if◌then◌else◌,
}

abbrev pub Matrix : Type 0
Matrix = List (List Bool)

-- `adj[i][j]`
unfoldable pub get_bit : Matrix → ℕ → ℕ → Bool
get_bit m i j = get_or (get_or m i []) j false

-- `adj[i][j] = true`
unfoldable pub set_bit : Matrix → ℕ → ℕ → Matrix
set_bit m i j = set m i (set (get_or m i []) j true)

-- `MemSet(adj, 0, sizeof(adj))`
unfoldable pub blank : Matrix
blank = replicate 64 (replicate 64 false)

pub record IsSquare (m : Matrix) : Type 0 where
  pub rows : length m ≡ 64
  pub columns : (i : ℕ) → i < 64 → length (get_or m i []) ≡ 64

get_or-replicate : {A : Type 0} (n i : ℕ) (a d : A) → i < n → get_or (replicate n a) i d ≡ a
get_or-replicate zero i a d h = elim h [ ]
get_or-replicate (suc n) zero a d h = refl
get_or-replicate (suc n) (suc i) a d h = get_or-replicate n i a d (omega arith)

pub blank-IsSquare : IsSquare blank
unfolding blank
blank-IsSquare = record {
  rows = refl;
  columns = λ i h. rw (get_or-replicate 64 i (replicate 64 false) [] h);
}

get_or-replicate_self : {A : Type 0} (n i : ℕ) (a : A) → get_or (replicate n a) i a ≡ a
get_or-replicate_self zero i a = refl
get_or-replicate_self (suc n) zero a = refl
get_or-replicate_self (suc n) (suc i) a = get_or-replicate_self n i a

get_or-replicate-false :
    (n i j : ℕ) → get_or (get_or (replicate n (replicate 64 false)) i []) j false ≡ false
get_or-replicate-false zero i j = refl
get_or-replicate-false (suc n) zero j = get_or-replicate_self 64 j false
get_or-replicate-false (suc n) (suc i) j = get_or-replicate-false n i j

pub get_bit-blank : (i j : ℕ) → get_bit blank i j ≡ false
unfolding get_bit blank
get_bit-blank i j = get_or-replicate-false 64 i j

get_or-set {ℓ} :
    {A : Type ℓ} (xs : List A) (i k : ℕ) (v d : A)
    → i < length xs
    → get_or (set xs i v) k d ≡ (if k == i then v else get_or xs k d)
get_or-set [] i k v d h = absurd (omega arith)
get_or-set (x ∷ xs) zero zero v d h = refl
get_or-set (x ∷ xs) zero (suc k) v d h = ground arith
get_or-set (x ∷ xs) (suc i) zero v d h = ground arith
get_or-set (x ∷ xs) (suc i) (suc k) v d h = ground (arith, get_or-set xs i k v d)

pub set_bit-IsSquare : (m : Matrix) (i j : ℕ) → i < 64 → IsSquare m → IsSquare (set_bit m i j)
unfolding set_bit
set_bit-IsSquare m i j h sq =
    let row = set (get_or m i []) j true in
    record {
      rows = rw (length-set m i row) sq.rows;
      columns = λ k hk. ground (
        arith,
        get_or-set m i k row [],
        length-set (get_or m i []) j true,
        sq.columns i,
        sq.columns k,
        sq.rows,
      );
    }

pub get_bit-set_bit :
    (m : Matrix) (i j a b : ℕ)
    → i < 64
    → j < 64
    → IsSquare m
    → get_bit (set_bit m i j) a b ≡ ((a == i) && (b == j) || get_bit m a b)
unfolding get_bit set_bit
get_bit-set_bit m i j a b hi hj sq = ground (
  arith,
  get_or-set m i a (set (get_or m i []) j true) [],
  get_or-set (get_or m i []) j b true false,
  sq.columns i,
  sq.rows,
)
