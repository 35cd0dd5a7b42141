-- ===== src/Blockers/Build/Loops.antt =====
-- The outer loop of the scan in src/blocker_graph.c, over the whole lock table.
use pg_circuit.Prelude.{
  ◌≡◌, refl, sym, ap, ◌∙◌, subst, ℤ, true, false, List, [], ◌∷◌, ◌++◌, length-append, Option, inl,
  inr, Bool-cases, arith,
}
use mathlib.Core.List.{append-nil, append_assoc}
use pg_circuit.Platform.{Float}
use pg_circuit.Relations.{Catalog}
use pg_circuit.Transactions.{BackendStatus}
use pg_circuit.Blockers.{Edge}
use pg_circuit.Blockers.LockTable.{LockInstance, LockManager, is_waiter}
use pg_circuit.Blockers.Build.{
  Scan, Flow, going, done_scan, scan_holders, scan_waiter, scan_waiters, note_wait,
}
use pg_circuit.Blockers.Build.Pairs.{
  take-append, IsScan, Reaches, whole, cut, edges_of, all_edges, scan_holders-Reaches,
}

module _ (F : Float) (C : Catalog F.Double) (M : LockManager) (now : ℤ)
    (backends : List (Option BackendStatus)) where
  -- The scan of a table reaches the edges of all its conflicts.
  module _ (my_pid : ℤ) (locks : List LockInstance) where
    -- The rest of the outer loop.
    abbrev then_waiters : List LockInstance → Flow F.Double → Flow F.Double
    then_waiters ws (going s) = scan_waiters F C M now backends my_pid locks ws s
    then_waiters ws (done_scan s) = done_scan s

    scan_waiter_other :
        (w : LockInstance) (s : Scan F.Double)
        → is_waiter my_pid w ≡ false
        → scan_waiter F C M now backends my_pid locks w s ≡ going s
    unfolding scan_waiter
    scan_waiter_other w s other = rw other refl

    scan_waiter_waits :
        (w : LockInstance) (s : Scan F.Double)
        → is_waiter my_pid w ≡ true
        → scan_waiter F C M now backends my_pid locks w s
          ≡ scan_holders F C M now backends w locks (note_wait F C M now backends w s)
    unfolding scan_waiter
    scan_waiter_waits w s waits = rw waits refl

    scan_waiters-cons :
        (w : LockInstance) (ws : List LockInstance) (s : Scan F.Double) (f : Flow F.Double)
        → scan_waiter F C M now backends my_pid locks w s ≡ f
        → scan_waiters F C M now backends my_pid locks (w ∷ ws) s ≡ then_waiters ws f
    unfolding scan_waiters
    scan_waiters-cons w ws s f e = ap (then_waiters ws) e

    Reaches-append :
        (ws : List LockInstance)
        → ((s : Scan F.Double)
            → IsScan s
            → Reaches
                (s.edges ++ all_edges F C M now backends my_pid locks ws)
                (scan_waiters F C M now backends my_pid locks ws s))
        → (all : List (Edge F.Double)) (f : Flow F.Double) → Reaches all f
        → Reaches (all ++ all_edges F C M now backends my_pid locks ws) (then_waiters ws f)
    Reaches-append ws next all _ (whole {s = s} e i) =
        subst
          (λ es.
            Reaches (es ++ all_edges F C M now backends my_pid locks ws)
              (scan_waiters F C M now backends my_pid locks ws s))
          e (next s i)
    Reaches-append ws next all _ (cut e full i) =
        cut (e ∙ sym (take-append 256 all (all_edges F C M now backends my_pid locks ws) full))
          (omega (arith, length-append all (all_edges F C M now backends my_pid locks ws))) i

    pub scan_waiters-Reaches :
        (ws : List LockInstance) (s : Scan F.Double)
        → IsScan s
        → Reaches
            (s.edges ++ all_edges F C M now backends my_pid locks ws)
            (scan_waiters F C M now backends my_pid locks ws s)
    unfolding scan_waiters note_wait
    scan_waiters-Reaches [] s i = whole (sym (append-nil s.edges)) i
    scan_waiters-Reaches (w ∷ ws) s i = elim (Bool-cases (is_waiter my_pid w)) [
      | inr other ↦
          rw (scan_waiters-cons w ws s _ (scan_waiter_other w s other), other)
            (scan_waiters-Reaches ws s i)
      | inl waits ↦
          let s' = note_wait F C M now backends w s in
          let i' : IsScan s' = record {
            small = i.small;
            blocked = i.blocked;
            blocking = i.blocking;
          } in
          let f = scan_holders F C M now backends w locks s' in
          rw (scan_waiters-cons w ws s f (scan_waiter_waits w s waits), waits)
            (subst (λ all. Reaches all (then_waiters ws f))
              (append_assoc s.edges (edges_of F C M now backends w locks)
                (all_edges F C M now backends my_pid locks ws))
              (Reaches-append ws (scan_waiters-Reaches ws)
                (s.edges ++ edges_of F C M now backends w locks) f
                (scan_holders-Reaches F C M now backends w locks s' i')))
    ]
