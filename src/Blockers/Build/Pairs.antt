-- ===== src/Blockers/Build/Pairs.antt =====
-- The scan of the lock table in src/blocker_graph.c, against the list of all pairs that conflict.
use pg_circuit.Prelude.{
  ℕ, zero, suc, ◌≤◌, ◌<◌, ◌≡◌, refl, sym, ap, ◌∙◌, subst, ℤ, pos_part, true, false, leb,
  if◌then◌else◌, List, [], ◌∷◌, ◌++◌, length, take, length-append, take_all, Option, inl, inr,
  Bool-cases, leb→le, arith,
}
use mathlib.Core.List.{append-nil, append_assoc}
use pg_circuit.Platform.{Float}
use pg_circuit.Relations.{Catalog}
use pg_circuit.Transactions.{BackendStatus}
use pg_circuit.Blockers.{Edge}
use pg_circuit.Blockers.LockTable.{LockInstance, LockManager, is_waiter, is_blocked_by}
use pg_circuit.Blockers.Build.{
  Scan, Flow, going, done_scan, make_edge, fill_relation_from_locktag, is_relation_tag, add_edge,
  scan_holder, scan_holders, note_pid,
}
use pg_circuit.Blockers.Build.Rosters.{IsRoster, note_pid-IsRoster}

pub take-append {ℓ} :
    {A : Type ℓ} (n : ℕ) (xs ys : List A) → n ≤ length xs → take n (xs ++ ys) ≡ take n xs
take-append zero xs ys h = refl
take-append (suc n) [] ys h = absurd (omega arith)
take-append (suc n) (x ∷ xs) ys h = ap (λ r. x ∷ r) (take-append n xs ys (omega arith))

below : (a b : ℕ) → leb a b ≡ false → b < a
below a b h = ground arith

module _ {D : Type 0} where
  -- What holds of the variables of the scan: at most 256 edges, and the rosters of their two ends.
  pub record IsScan (s : Scan D) : Type 0 where
    pub small : length s.edges ≤ 256
    pub blocked : IsRoster (λ e. e.blocked_pid) s.edges s.blocked_pids
    pub blocking : IsRoster (λ e. e.blocking_pid) s.edges s.blocking_pids

  -- The scan has found all the edges of `all`, or it has stopped with the first 256 of them.
  pub data Reaches (all : List (Edge D)) : Flow D → Type 0 where
    whole : {s : Scan D} → s.edges ≡ all → IsScan s → Reaches all (going s)
    cut :
        {s : Scan D}
        → s.edges ≡ take 256 all
        → 256 ≤ length all
        → IsScan s
        → Reaches all (done_scan s)

module _ (F : Float) (C : Catalog F.Double) (M : LockManager) (now : ℤ)
    (backends : List (Option BackendStatus)) where
  -- The edges of a waiter, one for each holder in its way.
  abbrev pub edges_of : LockInstance → List LockInstance → List (Edge F.Double)
  edges_of w [] = []
  edges_of w (h ∷ hs) =
      let rest = edges_of w hs in
      if is_blocked_by M w h then make_edge F C M now backends w h ∷ rest else rest

  -- The edges of all waiters.
  abbrev pub all_edges : ℤ → List LockInstance → List LockInstance → List (Edge F.Double)
  all_edges my_pid locks [] = []
  all_edges my_pid locks (w ∷ ws) =
      let rest = all_edges my_pid locks ws in
      if is_waiter my_pid w then edges_of w locks ++ rest else rest

  pub make_edge_pids :
      (w h : LockInstance)
      → ((make_edge F C M now backends w h).blocked_pid ≡ pos_part w.pid)
        × ((make_edge F C M now backends w h).blocking_pid ≡ pos_part h.pid)
  unfolding make_edge fill_relation_from_locktag
  make_edge_pids w h = elim (Bool-cases (is_relation_tag F M w.locktag.locktag_type)) [
    | inl relation ↦ rw relation (refl, refl)
    | inr other ↦ rw other (refl, refl)
  ]

  add_edge-IsScan :
      (w h : LockInstance) (s : Scan F.Double)
      → length s.edges < 256
      → IsScan s
      → IsScan (add_edge F C M now backends w h s)
  unfolding add_edge
  add_edge-IsScan w h s room i =
      let e = make_edge F C M now backends w h in
      let (waits, blocks) = make_edge_pids w h in
      record {
        small = omega (arith, length-append s.edges (e ∷ []));
        blocked =
            subst
              (λ p. IsRoster (λ d. d.blocked_pid) (s.edges ++ e ∷ []) (note_pid s.blocked_pids p))
              waits
              (note_pid-IsRoster (λ d. d.blocked_pid) s.edges e s.blocked_pids room i.blocked);
        blocking =
            subst
              (λ p. IsRoster (λ d. d.blocking_pid) (s.edges ++ e ∷ []) (note_pid s.blocking_pids p))
              blocks
              (note_pid-IsRoster (λ d. d.blocking_pid) s.edges e s.blocking_pids room i.blocking);
      }

  -- The three ways through a round of the inner loop.
  scan_holder_free :
      (w h : LockInstance) (s : Scan F.Double)
      → is_blocked_by M w h ≡ false
      → scan_holder F C M now backends w h s ≡ going s
  unfolding scan_holder
  scan_holder_free w h s free = rw free refl

  scan_holder_full :
      (w h : LockInstance) (s : Scan F.Double)
      → is_blocked_by M w h ≡ true
      → leb 256 (length s.edges) ≡ true
      → scan_holder F C M now backends w h s ≡ done_scan s
  unfolding scan_holder
  scan_holder_full w h s held full = rw (held, full) refl

  scan_holder_room :
      (w h : LockInstance) (s : Scan F.Double)
      → is_blocked_by M w h ≡ true
      → leb 256 (length s.edges) ≡ false
      → scan_holder F C M now backends w h s ≡ going (add_edge F C M now backends w h s)
  unfolding scan_holder
  scan_holder_room w h s held room = rw (held, room) refl

  -- The rest of the inner loop.
  abbrev then_holders : LockInstance → List LockInstance → Flow F.Double → Flow F.Double
  then_holders w hs (going s) = scan_holders F C M now backends w hs s
  then_holders w hs (done_scan s) = done_scan s

  scan_holders-cons :
      (w h : LockInstance) (hs : List LockInstance) (s : Scan F.Double) (f : Flow F.Double)
      → scan_holder F C M now backends w h s ≡ f
      → scan_holders F C M now backends w (h ∷ hs) s ≡ then_holders w hs f
  unfolding scan_holders
  scan_holders-cons w h hs s f e = ap (then_holders w hs) e

  pub scan_holders-Reaches :
      (w : LockInstance) (hs : List LockInstance) (s : Scan F.Double)
      → IsScan s
      → Reaches (s.edges ++ edges_of w hs) (scan_holders F C M now backends w hs s)
  unfolding scan_holders add_edge
  scan_holders-Reaches w [] s i = whole (sym (append-nil s.edges)) i
  scan_holders-Reaches w (h ∷ hs) s i = elim (Bool-cases (is_blocked_by M w h)) [
    | inr free ↦
        rw (scan_holders-cons w h hs s _ (scan_holder_free w h s free), free)
          (scan_holders-Reaches w hs s i)
    | inl held ↦
        let e = make_edge F C M now backends w h in
        elim (Bool-cases (leb 256 (length s.edges))) [
          | inl full ↦
              let many = leb→le 256 (length s.edges) full in
              let first = take-append 256 s.edges (e ∷ edges_of w hs) many in
              rw (scan_holders-cons w h hs s _ (scan_holder_full w h s held full), held)
                (cut (sym (first ∙ take_all 256 s.edges i.small))
                  (omega (arith, many, length-append s.edges (e ∷ edges_of w hs))) i)
          | inr room ↦
              let s' = add_edge F C M now backends w h s in
              rw (scan_holders-cons w h hs s _ (scan_holder_room w h s held room), held)
                (subst (λ all. Reaches all (scan_holders F C M now backends w hs s'))
                  (append_assoc s.edges (e ∷ []) (edges_of w hs))
                  (scan_holders-Reaches w hs s'
                    (add_edge-IsScan w h s (below 256 (length s.edges) room) i)))
        ]
  ]
