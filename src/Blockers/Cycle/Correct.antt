-- ===== src/Blockers/Cycle/Correct.antt =====
-- graph_has_cycle of src/blocker_graph.c finds the cycles of the edges.
use pg_circuit.Prelude.{
  ℕ, ◌≤◌, ◌<◌, ◌≡◌, refl, sym, ◌∙◌, subst, true, List, [], ◌∷◌, length, get_or, inl, inr, All,
  arith,
}
use mathlib.Core.Bool.{true≢false}
use mathlib.Core.Option.{some-injective}
use pg_circuit.Blockers.{Edge, scan_edges}
use pg_circuit.Blockers.Matrix.{Matrix, get_bit, blank, blank-IsSquare, get_bit-blank}
use pg_circuit.Blockers.Warshall.{warshall}
use pg_circuit.Blockers.Warshall.Closure.{Closes, warshall_lem, has_loop_iff}
use pg_circuit.Blockers.Numbering.{pid_index-get_or, Fits-nil}
use pg_circuit.Blockers.Cycle.Sound.{Named, scan_edges-Named}
use pg_circuit.Blockers.Cycle.Complete.{Linked, scan_edges-Extends}
use pg_circuit.Blockers.Cycle.{
  mark_edge, graph_has_cycle, Waits, WaitsFor, one, more, WaitsFor-trans, Covers,
}

Named_nil : (E : ℕ → ℕ → Type 0) → Named E [] blank
Named_nil E = record {
  small = omega arith;
  square = blank-IsSquare;
  bits = λ a b on. absurd (true≢false (sym on ∙ get_bit-blank a b));
}

module _ {D : Type 0} where
  All-wait :
      (all es : List (Edge D))
      → ((p q : ℕ) → Waits es p q → Waits all p q)
      → All (λ e. WaitsFor all e.blocked_pid e.blocking_pid) es
  All-wait all [] h = tt
  All-wait all (e ∷ es) h = (
    one (h e.blocked_pid e.blocking_pid (inl (refl, refl))),
    All-wait all es (λ p q w. h p q (inr w)),
  )

  module _ (es : List (Edge D)) where
    abbrev numbered : List ℕ × Matrix
    numbered = scan_edges mark_edge es ([], blank)

    scanned : Named (WaitsFor es) numbered.0 numbered.1
    scanned =
        scan_edges-Named (WaitsFor es) es ([], blank) (All-wait es es (λ p q w. w))
          (Named_nil (WaitsFor es))

    abbrev closure : Matrix
    closure = warshall (length numbered.0) (length numbered.0) 0 numbered.1

    closes : Closes (length numbered.0) scanned.small 0 numbered.1 closure
    closes = warshall_lem (length numbered.0) scanned.small numbered.1 scanned.square

    -- A reported cycle is one: some session waits for itself through the edges.
    pub graph_has_cycle_sound : graph_has_cycle es ≡ true → (p : ℕ) × WaitsFor es p p
    unfolding graph_has_cycle
    graph_has_cycle_sound h =
        let (k, low, high, on) = (has_loop_iff (length numbered.0) 0 closure).0 h in
        (
          get_or numbered.0 k 0,
          closes.sound (λ a b. WaitsFor es (get_or numbered.0 a 0) (get_or numbered.0 b 0))
              (λ a b c u v. WaitsFor-trans u v) (λ a b bit. (scanned.bits a b bit).2) k k on,
        )

    closed_step :
        {p q r : ℕ}
        → Linked numbered.0 closure p q
        → Linked numbered.0 closure q r
        → Linked numbered.0 closure p r
    closed_step {p} {q} {r} u v =
        let same : u.to ≡ v.from = some-injective _ _ (sym u.to_index ∙ v.from_index) in
        let npids = length numbered.0 in
        let a_in : u.from < npids = (pid_index-get_or numbered.0 p u.from u.from_index).0 in
        let x_in : u.to < npids = (pid_index-get_or numbered.0 q u.to u.to_index).0 in
        let b_in : v.to < npids = (pid_index-get_or numbered.0 r v.to v.to_index).0 in
        record {
          from = u.from;
          to = v.to;
          from_index = u.from_index;
          to_index = v.to_index;
          bit =
              closes.closed (λ a x b h. absurd (omega arith)) u.from u.to v.to x_in a_in b_in u.bit
                (subst (λ k. get_bit closure k v.to ≡ true) (sym same) v.bit);
        }

    Linked-one :
        ((p q : ℕ) → Waits es p q → Linked numbered.0 numbered.1 p q)
        → {p q : ℕ} → Waits es p q
        → Linked numbered.0 closure p q
    Linked-one waits {p} {q} w =
        let l = waits p q w in
        record {
          from = l.from;
          to = l.to;
          from_index = l.from_index;
          to_index = l.to_index;
          bit = closes.keeps l.from l.to l.bit;
        }

    linked :
        ((p q : ℕ) → Waits es p q → Linked numbered.0 numbered.1 p q)
        → {p q : ℕ} → WaitsFor es p q
        → Linked numbered.0 closure p q
    linked waits (one w) = Linked-one waits w
    linked waits (more w v) = closed_step (Linked-one waits w) (linked waits v)

    -- With at most 64 process ids in the edges every cycle is reported.
    pub graph_has_cycle_complete :
        (known : List ℕ)
        → length known ≤ 64
        → Covers known es
        → (p : ℕ) × WaitsFor es p p
        → graph_has_cycle es ≡ true
    unfolding graph_has_cycle
    graph_has_cycle_complete known room covered (p, cycle) =
        let (_, waits) =
          scan_edges-Extends known es ([], blank) (Fits-nil known room) blank-IsSquare covered in
        let l = linked waits cycle in
        let same : l.to ≡ l.from = some-injective _ _ (sym l.to_index ∙ l.from_index) in
        let inside : l.from < length numbered.0 =
          (pid_index-get_or numbered.0 p l.from l.from_index).0 in
        (has_loop_iff (length numbered.0) 0 closure).1 (
          l.from,
          omega arith,
          omega arith,
          subst (λ k. get_bit closure l.from k ≡ true) same l.bit,
        )
