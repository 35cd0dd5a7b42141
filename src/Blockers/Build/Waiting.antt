-- ===== src/Blockers/Build/Waiting.antt =====
-- Who waits for whom in the lock table, and in the edges that src/blocker_graph.c makes of it.
use pg_circuit.Prelude.{
  ℕ, zero, suc, ◌≡◌, refl, sym, ◌∙◌, subst, ℤ, pos_part, true, List, [], ◌∷◌, ◌++◌, take, Option,
  ◌⊎◌, inl, inr, Bool-cases,
}
use mathlib.Core.List.{Memᴰ}
use pg_circuit.Platform.{Float}
use pg_circuit.Relations.{Catalog}
use pg_circuit.Transactions.{BackendStatus}
use pg_circuit.Blockers.{Edge}
use pg_circuit.Blockers.Cycle.{Waits, WaitsFor, one, more}
use pg_circuit.Blockers.LockTable.{LockInstance, LockManager, is_waiter, is_blocked_by}
use pg_circuit.Blockers.Build.{make_edge}
use pg_circuit.Blockers.Build.Pairs.{edges_of, all_edges, make_edge_pids}
use pg_circuit.Blockers.Build.Conflicts.{IsWaiting, is_waiter_iff, IsBlocked, is_blocked_by_iff}

-- The process `p` of an entry of the table awaits a lock that the process `q` of an entry holds in a
-- conflicting mode.
pub record Awaits (M : LockManager) (my_pid : ℤ) (locks : List LockInstance) (p q : ℕ)
    : Type 0 where
  pub waiter : LockInstance
  pub holder : LockInstance
  pub waiter_in : Memᴰ waiter locks
  pub holder_in : Memᴰ holder locks
  pub waits : IsWaiting my_pid waiter
  pub blocked : IsBlocked M waiter holder
  pub waiter_pid : pos_part waiter.pid ≡ p
  pub holder_pid : pos_part holder.pid ≡ q

-- `p` awaits `q`, directly or through other processes.
pub data AwaitsFor (M : LockManager) (my_pid : ℤ) (locks : List LockInstance) : ℕ → ℕ → Type 0 where
  direct : {p q : ℕ} → Awaits M my_pid locks p q → AwaitsFor M my_pid locks p q
  through :
      {p q r : ℕ}
      → Awaits M my_pid locks p q
      → AwaitsFor M my_pid locks q r
      → AwaitsFor M my_pid locks p r

module _ {D : Type 0} where
  Waits-append_left : (xs ys : List (Edge D)) (p q : ℕ) → Waits xs p q → Waits (xs ++ ys) p q
  Waits-append_left [] ys p q w = absurd w
  Waits-append_left (x ∷ xs) ys p q (inl w) = inl w
  Waits-append_left (x ∷ xs) ys p q (inr w) = inr (Waits-append_left xs ys p q w)

  Waits-append_right : (xs ys : List (Edge D)) (p q : ℕ) → Waits ys p q → Waits (xs ++ ys) p q
  Waits-append_right [] ys p q w = w
  Waits-append_right (x ∷ xs) ys p q w = inr (Waits-append_right xs ys p q w)

  Waits-append_cases :
      (xs ys : List (Edge D)) (p q : ℕ) → Waits (xs ++ ys) p q → Waits xs p q ⊎ Waits ys p q
  Waits-append_cases [] ys p q w = inr w
  Waits-append_cases (x ∷ xs) ys p q (inl w) = inl (inl w)
  Waits-append_cases (x ∷ xs) ys p q (inr w) = elim (Waits-append_cases xs ys p q w) [
    | inl left ↦ inl (inr left)
    | inr right ↦ inr right
  ]

  pub Waits-take : (n : ℕ) (xs : List (Edge D)) (p q : ℕ) → Waits (take n xs) p q → Waits xs p q
  Waits-take zero xs p q w = absurd w
  Waits-take (suc n) [] p q w = absurd w
  Waits-take (suc n) (x ∷ xs) p q (inl w) = inl w
  Waits-take (suc n) (x ∷ xs) p q (inr w) = inr (Waits-take n xs p q w)

module _ (F : Float) (C : Catalog F.Double) (M : LockManager) (now : ℤ)
    (backends : List (Option BackendStatus)) where
  edges_of_sound :
      (w : LockInstance) (hs : List LockInstance) (p q : ℕ)
      → Waits (edges_of F C M now backends w hs) p q
      → (h : LockInstance) × Memᴰ h hs
        × (is_blocked_by M w h ≡ true)
        × (pos_part w.pid ≡ p)
        × (pos_part h.pid ≡ q)
  edges_of_sound w [] p q = λ e. absurd e
  edges_of_sound w (h ∷ hs) p q = elim (Bool-cases (is_blocked_by M w h)) [
    | inr free ↦ rw free (λ e.
        let (k, there, rest, a, b) = edges_of_sound w hs p q e in (k, Memᴰ.tail there, rest, a, b))
    | inl held ↦ rw held (λ e. elim e [
      | inl (same_p, same_q) ↦
          let (from, to) = make_edge_pids F C M now backends w h in
          (h, Memᴰ.head refl, held, sym from ∙ same_p, sym to ∙ same_q)
      | inr later ↦
          let (k, there, rest, a, b) = edges_of_sound w hs p q later in
          (k, Memᴰ.tail there, rest, a, b)
    ])
  ]

  edges_of_complete :
      (w h : LockInstance) (hs : List LockInstance)
      → Memᴰ h hs
      → is_blocked_by M w h ≡ true
      → Waits (edges_of F C M now backends w hs) (pos_part w.pid) (pos_part h.pid)
  edges_of_complete w h [] m held = elim m [ ]
  edges_of_complete w h (k ∷ hs) (Memᴰ.head e) held =
      let held' = subst (λ x. is_blocked_by M w x ≡ true) e held in
      let (from, to) = make_edge_pids F C M now backends w k in
      rw held' (
        inl (
          from,
          subst (λ x. (make_edge F C M now backends w k).blocking_pid ≡ pos_part x.pid) (sym e) to,
        ))
  edges_of_complete w h (k ∷ hs) (Memᴰ.tail m) held =
      let rest = edges_of_complete w h hs m held in
      elim (Bool-cases (is_blocked_by M w k)) [
        | inl too ↦ rw too (inr rest)
        | inr free ↦ rw free rest
      ]

  module _ (my_pid : ℤ) (locks : List LockInstance) where
    all_edges_sound :
        (ws : List LockInstance) (p q : ℕ)
        → Waits (all_edges F C M now backends my_pid locks ws) p q
        → (w h : LockInstance) × Memᴰ w ws
          × Memᴰ h locks
          × (is_waiter my_pid w ≡ true)
          × (is_blocked_by M w h ≡ true)
          × (pos_part w.pid ≡ p)
          × (pos_part h.pid ≡ q)
    all_edges_sound [] p q = λ e. absurd e
    all_edges_sound (w ∷ ws) p q = elim (Bool-cases (is_waiter my_pid w)) [
      | inr other ↦ rw other (λ e.
          let (v, h, there, a, b, c, d, f) = all_edges_sound ws p q e in
          (v, h, Memᴰ.tail there, a, b, c, d, f))
      | inl waits ↦ rw waits (λ e.
          elim (Waits-append_cases (edges_of F C M now backends w locks)
            (all_edges F C M now backends my_pid locks ws) p q e) [
              | inl here ↦
                  let (h, there, held, a, b) = edges_of_sound w locks p q here in
                  (w, h, Memᴰ.head refl, there, waits, held, a, b)
              | inr later ↦
                  let (v, h, there, a, b, c, d, f) = all_edges_sound ws p q later in
                  (v, h, Memᴰ.tail there, a, b, c, d, f)
            ])
    ]

    all_edges_complete :
        (w h : LockInstance) (ws : List LockInstance)
        → Memᴰ w ws
        → Memᴰ h locks
        → is_waiter my_pid w ≡ true
        → is_blocked_by M w h ≡ true
        → Waits (all_edges F C M now backends my_pid locks ws) (pos_part w.pid) (pos_part h.pid)
    all_edges_complete w h [] m there waits held = elim m [ ]
    all_edges_complete w h (v ∷ ws) (Memᴰ.head e) there waits held =
        let waits' = subst (λ x. is_waiter my_pid x ≡ true) e waits in
        let found = edges_of_complete w h locks there held in
        let found' =
          subst (λ x. Waits (edges_of F C M now backends x locks) (pos_part w.pid) (pos_part h.pid))
            e found in
        rw waits' (Waits-append_left _ (all_edges F C M now backends my_pid locks ws) _ _ found')
    all_edges_complete w h (v ∷ ws) (Memᴰ.tail m) there waits held =
        let rest = all_edges_complete w h ws m there waits held in
        elim (Bool-cases (is_waiter my_pid v)) [
          | inl too ↦ rw too (Waits-append_right (edges_of F C M now backends v locks) _ _ _ rest)
          | inr other ↦ rw other rest
        ]

    pub all_edges-Awaits :
        (p q : ℕ)
        → Waits (all_edges F C M now backends my_pid locks locks) p q
        → Awaits M my_pid locks p q
    all_edges-Awaits p q e =
        let (w, h, w_in, h_in, waits, held, p_of, q_of) = all_edges_sound locks p q e in
        record {
          waiter = w;
          holder = h;
          waiter_in = w_in;
          holder_in = h_in;
          waits = (is_waiter_iff my_pid w).0 waits;
          blocked = (is_blocked_by_iff M w h).0 held;
          waiter_pid = p_of;
          holder_pid = q_of;
        }

    pub Awaits-all_edges :
        (p q : ℕ)
        → Awaits M my_pid locks p q
        → Waits (all_edges F C M now backends my_pid locks locks) p q
    Awaits-all_edges p q a =
        let found =
          all_edges_complete a.waiter a.holder locks a.waiter_in a.holder_in
            ((is_waiter_iff my_pid a.waiter).1 a.waits)
            ((is_blocked_by_iff M a.waiter a.holder).1 a.blocked) in
        let es = all_edges F C M now backends my_pid locks locks in
        subst (λ x. Waits es p x) a.holder_pid
          (subst (λ x. Waits es x (pos_part a.holder.pid)) a.waiter_pid found)

    -- Chains of waits through edges are chains of waits in the table, if single waits are.
    pub WaitsFor-AwaitsFor :
        (es : List (Edge F.Double))
        → ((p q : ℕ) → Waits es p q → Awaits M my_pid locks p q)
        → {p q : ℕ} → WaitsFor es p q
        → AwaitsFor M my_pid locks p q
    WaitsFor-AwaitsFor es h (one w) = direct (h _ _ w)
    WaitsFor-AwaitsFor es h (more w v) = through (h _ _ w) (WaitsFor-AwaitsFor es h v)

    pub AwaitsFor-WaitsFor :
        (es : List (Edge F.Double))
        → ((p q : ℕ) → Awaits M my_pid locks p q → Waits es p q)
        → {p q : ℕ} → AwaitsFor M my_pid locks p q
        → WaitsFor es p q
    AwaitsFor-WaitsFor es h (direct w) = one (h _ _ w)
    AwaitsFor-WaitsFor es h (through w v) = more (h _ _ w) (AwaitsFor-WaitsFor es h v)
