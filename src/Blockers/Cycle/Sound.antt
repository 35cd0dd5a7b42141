-- ===== src/Blockers/Cycle/Sound.antt =====
-- What a bit of the matrix in graph_has_cycle of src/blocker_graph.c stands for.
use pg_circuit.Prelude.{
  ℕ, ◌≤◌, ◌<◌, ◌≡◌, true, List, [], ◌∷◌, length, get_or, some, Option-cases, ◌⊎◌, inl, inr, All,
  arith,
}
use pg_circuit.Blockers.{Edge, pid_index, intern, scan_edge, scan_edges}
use pg_circuit.Blockers.Matrix.{
  Matrix, get_bit, set_bit, IsSquare, set_bit-IsSquare, get_bit-set_bit,
}
use pg_circuit.Blockers.Numbering.{
  pid_index-get_or, intern-Interned, scan_edge_full, scan_edge_half, scan_edge_both,
}
use pg_circuit.Blockers.Cycle.{mark_edge}

-- The matrix over a list of process ids, with a bit only where `E` relates the ids.
pub record Named (E : ℕ → ℕ → Type 0) (pids : List ℕ) (m : Matrix) : Type 0 where
  pub small : length pids ≤ 64
  pub square : IsSquare m
  pub bits :
      (a b : ℕ)
      → get_bit m a b ≡ true
      → (a < length pids) × (b < length pids) × E (get_or pids a 0) (get_or pids b 0)

-- A bit that is set after a mark is the marked one or an old one.
bit_cases :
    (m : Matrix) (i j a b : ℕ)
    → i < 64
    → j < 64
    → IsSquare m
    → get_bit (set_bit m i j) a b ≡ true
    → (a ≡ i) × (b ≡ j) ⊎ (get_bit m a b ≡ true)
bit_cases m i j a b hi hj sq on = ground (arith, get_bit-set_bit m i j a b hi hj sq)

module _ (E : ℕ → ℕ → Type 0) where
  Named-intern :
      (pids : List ℕ) (m : Matrix) (p : ℕ) (r : ℕ × List ℕ)
      → intern pids p ≡ some r
      → Named E pids m
      → Named E r.1 m
  Named-intern pids m p r e n =
      let i = intern-Interned pids p e in
      record {
        small = i.small n.small;
        square = n.square;
        bits = λ a b on.
            let (ha, hb, ab) = n.bits a b on in
            (omega (arith, i.grows), omega (arith, i.grows), rw (i.named a ha, i.named b hb) ab);
      }

  Named-mark :
      (pids : List ℕ) (m : Matrix) (p q i j : ℕ)
      → pid_index pids p ≡ some i
      → pid_index pids q ≡ some j
      → E p q
      → Named E pids m
      → Named E pids (mark_edge i j m)
  Named-mark pids m p q i j hi hj pq n =
      let (in_i, at_i) = pid_index-get_or pids p i hi in
      let (in_j, at_j) = pid_index-get_or pids q j hj in
      let low_i : i < 64 = omega (arith, n.small) in
      let low_j : j < 64 = omega (arith, n.small) in
      record {
        small = n.small;
        square = set_bit-IsSquare m i j low_i n.square;
        bits = λ a b on. elim (bit_cases m i j a b low_i low_j n.square on) [
          | inl (ea, eb) ↦ rw (ea, eb, at_i, at_j) (in_i, in_j, pq)
          | inr old ↦ n.bits a b old
        ];
      }

  module _ {D : Type 0} where
    scan_edge-Named :
        (e : Edge D) (pids : List ℕ) (m : Matrix)
        → E e.blocked_pid e.blocking_pid
        → Named E pids m
        → let (pids', m') = scan_edge mark_edge e (pids, m) in Named E pids' m'
    scan_edge-Named e pids m pq n = elim (Option-cases (intern pids e.blocked_pid)) [
      | inl full ↦ rw (scan_edge_full mark_edge e pids m full) n
      | inr (r, first) ↦
          let n' = Named-intern pids m e.blocked_pid r first n in
          elim (Option-cases (intern r.1 e.blocking_pid)) [
            | inl full ↦ rw (scan_edge_half mark_edge e pids m r first full) n'
            | inr (s, second) ↦
                let i = intern-Interned pids e.blocked_pid first in
                let j = intern-Interned r.1 e.blocking_pid second in
                rw (scan_edge_both mark_edge e pids m r s first second) (
                  Named-mark s.1 m e.blocked_pid e.blocking_pid r.0 s.0
                    (j.stable e.blocked_pid r.0 i.index) j.index pq
                    (Named-intern r.1 m e.blocking_pid s second n'))
          ]
    ]

    pub scan_edges-Named :
        (es : List (Edge D)) (st : List ℕ × Matrix)
        → All (λ e. E e.blocked_pid e.blocking_pid) es
        → Named E st.0 st.1
        → let (pids', m') = scan_edges mark_edge es st in Named E pids' m'
    unfolding scan_edges
    scan_edges-Named [] st h n = n
    scan_edges-Named (e ∷ es) st h n =
        scan_edges-Named es (scan_edge mark_edge e st) h.1 (scan_edge-Named e st.0 st.1 h.0 n)
