-- ===== src/Sql/Sets/Correct.antt =====
-- The rows that a query gets from pg_circuit_events and pg_circuit_blockers of src/pg_circuit.c.
use pg_circuit.Prelude.{
  ℕ, ◌≡◌, refl, ap, ◌∙◌, subst, pos_part, min, true, List, map, take, length, Option, none, some,
  CString, arith,
}
use pg_circuit.Platform.{Float, Postgres}
use pg_circuit.Config.{Config, IsRegistered}
use pg_circuit.Shmem.{SharedState, zero_event, shmem_startup}
use pg_circuit.Shmem.Ring.{event_snapshot}
use pg_circuit.Shmem.Ring.Calls.{Call, record_calls, log_calls, empty_log}
use pg_circuit.Shmem.Ring.Log.{event_snapshot_refines}
use pg_circuit.Relations.{Catalog}
use pg_circuit.Blockers.LockTable.{LockInstance}
use pg_circuit.Blockers.Build.{build_blocker_graph}
use pg_circuit.Blockers.Build.Pairs.{all_edges}
use pg_circuit.Blockers.Build.Correct.{build_blocker_graph-IsGraph}
use pg_circuit.Collect.{Server}
use pg_circuit.Sql.Sets.{
  one_call, event_row, snapshot_size, events_first, events, blocker_row, zero_edge, blockers_first,
  blockers,
}
use pg_circuit.Sql.Sets.Drain.{Run, Run-whole}

snapshot_size_lem : (c : Config) → IsRegistered c → snapshot_size c ≡ pos_part c.event_history_size
unfolding snapshot_size
snapshot_size_lem c r = ground (arith, r.history_size)

module _ (p : Postgres) {D : Type 0} where
  pub snapshot-Run :
      (c : Config) (world : ℕ → Option (SharedState D))
      → Run
          (λ k. events c true (world k))
          0
          none
          (map event_row (event_snapshot (world 0) (snapshot_size c)))
  unfolding events one_call events_first
  snapshot-Run c world =
      let xs = event_snapshot (world 0) (snapshot_size c) in
      Run-whole zero_event event_row (λ ctx. ctx.max_calls) (λ k. events c true (world k)) xs
        (λ j. refl) (λ n ctx. refl) refl

  -- With a registered configuration a query of `pg_circuit_events` ends, if at its first call the ring
  -- is that after any calls from start-up, and it returns a row for each event in the newest part of the
  -- log of those calls, newest first, as far as the history size allows: whatever happens to the ring
  -- after its first call.
  pub events-Run :
      (z : D) (c : Config) (cs : List Call) (world : ℕ → Option (SharedState D))
      → IsRegistered c
      → world 0 ≡ record_calls p cs (shmem_startup z c none)
      → Run
          (λ k. events c true (world k))
          0
          none
          (map event_row (take (pos_part c.event_history_size) (log_calls p cs empty_log).entries))
  events-Run z c cs world registered began =
      let size = snapshot_size_lem c registered in
      let n = pos_part c.event_history_size in
      let twice : min n n ≡ n = omega arith in
      let rows : event_snapshot (world 0) (snapshot_size c)
          ≡ take n (log_calls p cs empty_log).entries =
        ap (event_snapshot (world 0)) size
        ∙ ap (λ s. event_snapshot s n) began
        ∙ event_snapshot_refines p z c cs n registered
        ∙ ap (λ k. take k (log_calls p cs empty_log).entries) twice in
      subst (λ es. Run (λ k. events c true (world k)) 0 none (map event_row es)) rows
        (snapshot-Run c world)

module _ (F : Float) (C : Catalog F.Double) (get_database_name : ℕ → Option CString) where
  open F use {Double}

  -- Where there is a lock table at its first call, a query of `pg_circuit_blockers` ends, and it returns
  -- a row for each of the first 256 pairs of a waiter and a holder in its way in that table, in its order:
  -- whatever happens to the locks after the first call.
  pub blockers-Run :
      (world : ℕ → Server) (locks : List LockInstance)
      → (world 0).lock_table ≡ some locks
      → Run
          (λ k. blockers F C get_database_name true (world k))
          0
          none
          (map (blocker_row F get_database_name) (
            take 256 (
              all_edges F C
                (world 0).manager
                (world 0).locks_now
                (world 0).backends
                (world 0).my_pid
                locks
                locks)))
  unfolding blockers one_call blockers_first
  blockers-Run world locks table =
      let srv = world 0 in
      let graph_of = build_blocker_graph F C srv.manager srv.locks_now srv.backends srv.my_pid in
      let xs = (graph_of srv.lock_table).edges in
      let rows =
        ap (λ t. (graph_of t).edges) table
        ∙ (build_blocker_graph-IsGraph F C srv.manager srv.locks_now srv.backends srv.my_pid
            locks).edges in
      subst
        (λ es.
          Run (λ k. blockers F C get_database_name true (world k)) 0 none
            (map (blocker_row F get_database_name) es))
        rows
        (Run-whole (zero_edge F) (blocker_row F get_database_name) (λ ctx. length ctx.user_fctx)
          (λ k. blockers F C get_database_name true (world k)) xs (λ j. refl) (λ n ctx. refl) refl)
