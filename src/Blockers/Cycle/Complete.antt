-- ===== src/Blockers/Cycle/Complete.antt =====
-- Which bits graph_has_cycle of src/blocker_graph.c sets, where all process ids have room.
use pg_circuit.Prelude.{ℕ, ◌<◌, ◌≡◌, true, List, [], ◌∷◌, some, inl, inr, arith}
use mathlib.Core.Path.{subst₂}
use pg_circuit.Blockers.{Edge, pid_index, scan_edge, scan_edges}
use pg_circuit.Blockers.Matrix.{
  Matrix, get_bit, set_bit, IsSquare, set_bit-IsSquare, get_bit-set_bit,
}
use pg_circuit.Blockers.Numbering.{
  pid_index-get_or, intern-Interned, Fits, intern-Fits, scan_edge_both,
}
use pg_circuit.Blockers.Cycle.{mark_edge, Waits, Covers}

set_bit_keeps :
    (m : Matrix) (i j a b : ℕ)
    → i < 64
    → j < 64
    → IsSquare m
    → get_bit m a b ≡ true
    → get_bit (set_bit m i j) a b ≡ true
set_bit_keeps m i j a b hi hj sq on = ground (arith, get_bit-set_bit m i j a b hi hj sq)

set_bit_sets :
    (m : Matrix) (i j : ℕ) → i < 64 → j < 64 → IsSquare m → get_bit (set_bit m i j) i j ≡ true
set_bit_sets m i j hi hj sq = ground (arith, get_bit-set_bit m i j i j hi hj sq)

-- The bit of two indexed process ids is set.
pub record Linked (pids : List ℕ) (m : Matrix) (p q : ℕ) : Type 0 where
  pub from : ℕ
  pub to : ℕ
  pub from_index : pid_index pids p ≡ some from
  pub to_index : pid_index pids q ≡ some to
  pub bit : get_bit m from to ≡ true

-- What a scan does where every process id has room: it keeps the links and the room.
pub record Extends (known : List ℕ) (st t : List ℕ × Matrix) : Type 0 where
  pub fits : Fits known t.0
  pub square : IsSquare t.1
  pub links : (p q : ℕ) → Linked st.0 st.1 p q → Linked t.0 t.1 p q

module _ (known : List ℕ) {D : Type 0} where
  scan_edge-Extends :
      (e : Edge D) (pids : List ℕ) (m : Matrix)
      → Fits known pids
      → IsSquare m
      → (j : ℕ) × (pid_index known e.blocked_pid ≡ some j)
      → (j : ℕ) × (pid_index known e.blocking_pid ≡ some j)
      → Extends known (pids, m) (scan_edge mark_edge e (pids, m))
        × Linked
            (scan_edge mark_edge e (pids, m)).0
            (scan_edge mark_edge e (pids, m)).1
            e.blocked_pid
            e.blocking_pid
  scan_edge-Extends e pids m fits sq (k, first_known) (l, second_known) =
      let (r, first, fits') = intern-Fits known pids e.blocked_pid k first_known fits in
      let (t, second, fits'') = intern-Fits known r.1 e.blocking_pid l second_known fits' in
      let i = intern-Interned pids e.blocked_pid first in
      let j = intern-Interned r.1 e.blocking_pid second in
      let here = j.stable e.blocked_pid r.0 i.index in
      let in_a : r.0 < 64 = omega (arith, pid_index-get_or t.1 e.blocked_pid r.0 here, fits'') in
      let in_b : t.0 < 64 =
        omega (arith, pid_index-get_or t.1 e.blocking_pid t.0 j.index, fits'') in
      rw (scan_edge_both mark_edge e pids m r t first second) (
        record {
          fits = fits'';
          square = set_bit-IsSquare m r.0 t.0 in_a sq;
          links = λ p q link. record {
            from = link.from;
            to = link.to;
            from_index = j.stable p link.from (i.stable p link.from link.from_index);
            to_index = j.stable q link.to (i.stable q link.to link.to_index);
            bit = set_bit_keeps m r.0 t.0 link.from link.to in_a in_b sq link.bit;
          };
        },
        record {
          from = r.0;
          to = t.0;
          from_index = here;
          to_index = j.index;
          bit = set_bit_sets m r.0 t.0 in_a in_b sq;
        },
      )

  pub scan_edges-Extends :
      (es : List (Edge D)) (st : List ℕ × Matrix)
      → Fits known st.0
      → IsSquare st.1
      → Covers known es
      → Extends known st (scan_edges mark_edge es st)
        × ((p q : ℕ)
            → Waits es p q
            → Linked (scan_edges mark_edge es st).0 (scan_edges mark_edge es st).1 p q)
  unfolding scan_edges
  scan_edges-Extends [] st fits sq c =
      (record { fits = fits; square = sq; links = λ p q l. l }, λ p q w. absurd w)
  scan_edges-Extends (e ∷ es) st fits sq c =
      let (step, new) = scan_edge-Extends e st.0 st.1 fits sq c.0 c.1 in
      let (rest, waits) =
        scan_edges-Extends es (scan_edge mark_edge e st) step.fits step.square c.2 in
      (
        record {
          fits = rest.fits;
          square = rest.square;
          links = λ p q l. rest.links p q (step.links p q l);
        },
        λ p q w. elim w [
          | inl (ep, eq) ↦ rest.links p q (subst₂ (Linked _ _) ep eq new)
          | inr later ↦ waits p q later
        ],
      )
