-- ===== src/Sql/Sets/Shown.antt =====
-- From a statement that src/hooks.c checks to the rows of pg_circuit_events of src/pg_circuit.c, with
-- the collection of src/runtime_state.c in between.
use pg_circuit.Prelude.{
  ℕ, zero, suc, ◌≤◌, ◌≡◌, ◌≢◌, refl, ap, ◌∙◌, subst, true, false, List, ◌∷◌, map, take, Option,
  none, some, CString, codes, arith,
}
use pg_circuit.Types.{Decision, QueryKind}
use pg_circuit.Platform.{Float, Postgres}
use pg_circuit.Config.{Config}
use pg_circuit.Runtime.{RuntimeState}
use pg_circuit.Risk.{Assessment, QueryInfo}
use pg_circuit.Risk.Assess.{assess_query}
use pg_circuit.Shmem.{SharedEvent, SharedState}
use pg_circuit.Shmem.Ring.{event_snapshot}
use pg_circuit.Shmem.Ring.Inv.{IsValid}
use pg_circuit.Shmem.Ring.Refine.{contents, event_snapshot-contents}
use pg_circuit.Event.{Session}
use pg_circuit.Relations.{Catalog}
use pg_circuit.Hooks.{done, Backend, Checked, fault_is}
use pg_circuit.Hooks.Evaluate.{evaluate_and_apply}
use pg_circuit.Hooks.Evaluate.Recorded.{Outcome, evaluate_and_apply_lem}
use pg_circuit.Hooks.Evaluate.Appends.{Tells, Appends}
use pg_circuit.Pressure.{compute_pressure_and_mode}
use pg_circuit.Collect.{
  Server, zero_runtime, collect_wal_signals, collect_rest, collect_runtime_state,
}
use pg_circuit.Collect.Frame.{collect_wal_signals-keeps}
use pg_circuit.Collect.Sources.{is_faulty, collect_sessions-fine}
use pg_circuit.Sql.Sets.{EventRow, event_row, snapshot_size, events}
use pg_circuit.Sql.Sets.Drain.{Run}
use pg_circuit.Sql.Sets.Correct.{snapshot-Run}

snapshot_size-positive : (c : Config) → 1 ≤ snapshot_size c
unfolding snapshot_size
snapshot_size-positive c = ground arith

take-take_cons :
    {A : Type 0} (m n : ℕ) (x : A) (xs : List A)
    → 1 ≤ m
    → 1 ≤ n
    → (rest : List A) × (take m (take n (x ∷ xs)) ≡ x ∷ rest)
take-take_cons zero n x xs h k = absurd (omega arith)
take-take_cons (suc m) zero x xs h k = absurd (omega arith)
take-take_cons (suc m) (suc n) x xs h k = (take m (take n xs), refl)

Outcome-Appends :
    (F : Float) (b : Backend F.Double) (q : QueryInfo F.Double) (a : Assessment F.Double)
    (s : SharedState F.Double) (d : Decision) (r : Checked F.Double)
    → d ≢ Decision.allow
    → Outcome F b q a s d r
    → Appends F b q a s r.shared
Outcome-Appends F b q a s Decision.allow r h o = absurd (h refl)
Outcome-Appends F b q a s Decision.warn r h o = o.1
Outcome-Appends F b q a s Decision.block r h o = o.1

module _ (F : Float) (C : Catalog F.Double) (p : Postgres) (c : Config) (srv : Server)
    (session : Session) (database user : Option CString) where
  open F use {Double}

  -- The backend of a client that collects its runtime state from `srv`, and whose names are found.
  abbrev pub client : Backend Double
  client = record {
    config = c;
    postgres = p;
    session = session;
    is_parallel_worker = false;
    is_autovacuum_worker = false;
    fault = srv.fault;
    collect = collect_runtime_state F C p c srv;
    names = done (database, user);
  }

  collect_returns :
      (s : SharedState Double)
      → is_faulty F C p c srv ≡ false
      → IsValid s
      → (t : SharedState Double) × (st : RuntimeState Double) × (collect_runtime_state F C p c srv
            (some s)
          ≡ (some t, done st))
        × IsValid t
  unfolding collect_runtime_state collect_rest
  collect_returns s fine v =
      let (r, e, _) = collect_sessions-fine F C p c srv fine in
      let (t, kept, valid, _, _) = collect_wal_signals-keeps F c srv.wal_now s r srv.wal_bytes v in
      let last =
        compute_pressure_and_mode F c
          (collect_wal_signals F c srv.wal_bytes srv.wal_now (some s) r).1 in
      (t, last, ap (collect_rest F C p c srv (some s)) e ∙ ap (λ o. (o, done last)) kept, valid)

  -- A listed statement that is warned of or blocked, checked on a valid ring with the runtime state
  -- collected from a server, with the names found and without injected faults, is what a query of
  -- `pg_circuit_events` shows first, if the ring is as the check left it at the query's first call: the
  -- query ends, and its first row is that of an event with the decision, the score, the kind and the
  -- relation of the statement.
  pub evaluate_and_apply-events :
      (q : QueryInfo Double) (s : SharedState Double) (world : ℕ → Option (SharedState Double))
      → q.kind ≢ QueryKind.other
      → is_faulty F C p c srv ≡ false
      → fault_is p srv.fault (codes "runtime") ≡ false
      → fault_is p srv.fault (codes "event_full") ≡ false
      → IsValid s
      → (assess_query F c q (zero_runtime F)).decision ≢ Decision.allow
      → world 0 ≡ (evaluate_and_apply F client q (some s)).shared
      → (slot : SharedEvent) × (rows : List EventRow) × Tells F client q
          (assess_query F c q (zero_runtime F))
          slot
        × Run (λ k. events c true (world k)) 0 none (event_row slot ∷ rows)
  unfolding assess_query
  evaluate_and_apply-events q s world listed fine calm room v risky began =
      let (t, st, collected, valid) = collect_returns s fine v in
      let a = assess_query F c q st in
      let checked =
        evaluate_and_apply_lem F client q (some s) t st (database, user) listed calm room collected
          refl valid in
      let pushed : Appends F client q a t (evaluate_and_apply F client q (some s)).shared =
        Outcome-Appends F client q a t a.decision (evaluate_and_apply F client q (some s)) risky
          checked.0 in
      let (rest, cut) =
        take-take_cons (snapshot_size c) t.capacity pushed.slot (contents t)
          (snapshot_size-positive c) valid.room in
      let shown : event_snapshot (world 0) (snapshot_size c) ≡ pushed.slot ∷ rest =
        ap (λ r. event_snapshot r (snapshot_size c)) (began ∙ pushed.result)
        ∙ event_snapshot-contents pushed.after (snapshot_size c)
        ∙ ap (take (snapshot_size c)) pushed.pushed
        ∙ cut in
      (
        pushed.slot,
        map event_row rest,
        pushed.tells,
        subst (λ es. Run (λ k. events c true (world k)) 0 none (map event_row es)) shown
            (snapshot-Run p c world),
      )
