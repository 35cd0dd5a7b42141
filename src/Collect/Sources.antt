-- ===== src/Collect/Sources.antt =====
-- What the runtime state that src/runtime_state.c collects says of the server.
use pg_circuit.Prelude.{
  ℕ, ◌↔◌, ◌<◌, ◌≤◌, ◌^◌, ◌≡◌, refl, sym, ◌∙◌, subst, pos, ◌≤ℤ◌, Bool, true, false, List, length,
  Option, some, inl, inr, Bool-cases, codes,
}
use pg_circuit.Types.{SafetyMode}
use pg_circuit.Platform.{Float, Postgres}
use pg_circuit.Config.{Config}
use pg_circuit.Runtime.{RuntimeState}
use pg_circuit.Shmem.{SharedState}
use pg_circuit.Shmem.Ring.Inv.{IsValid}
use pg_circuit.Shmem.Ring.Refine.{contents}
use pg_circuit.Relations.{Catalog}
use pg_circuit.Hooks.{Attempt, done, failed, fault_is}
use pg_circuit.Transactions.{long_limit_us, collect_transaction_signals}
use pg_circuit.Transactions.Tests.{is_other_client, is_open, is_waiting, is_long}
use pg_circuit.Transactions.Counts.{Tallies, count_from, collect_transaction_signals_lem}
use pg_circuit.Blockers.Chain.Visit.{Elem}
use pg_circuit.Blockers.LockTable.{LockInstance}
use pg_circuit.Blockers.Build.{build_blocker_graph}
use pg_circuit.Blockers.Build.Waiting.{Awaits, AwaitsFor}
use pg_circuit.Locks.{collect_lock_signals}
use pg_circuit.Locks.Signals.{Counts, AgreesWithLocks, collect_lock_signals-AgreesWithLocks}
use pg_circuit.Replication.{injected_replication_failure, collect_replication_signals}
use pg_circuit.Pressure.{compute_pressure_and_mode}
use pg_circuit.Collect.Frame.{
  SameSessions, SameSessions-trans, IsFinished, collect_replication_signals-SameSessions,
  collect_wal_signals-keeps, finish-IsFinished,
}
use pg_circuit.Collect.{
  Server, collect_wal_signals, unknown_lags, collect_sessions, collect_rest, collect_runtime_state,
}

module _ (F : Float) where
  open F use {Double}

  module _ (C : Catalog Double) (p : Postgres) (c : Config) (srv : Server) where
    -- The state behind the collectors of sessions.
    abbrev pub sessions_of : RuntimeState Double
    sessions_of =
        collect_lock_signals F C srv.manager srv.locks_now srv.backends srv.my_pid srv.lock_table (
          collect_transaction_signals F c srv.transactions_now srv.my_pid srv.max_connections
            srv.reserved_connections srv.backends (unknown_lags F))

    abbrev pub is_faulty : Bool
    is_faulty = fault_is p srv.fault (codes "replication")

    -- What a collected state says: it counts the clients, the open, the idle and the long transactions
    -- among the backends; it agrees with the lock table; its mode is NORMAL; and its pressure is from 0
    -- to 100.
    pub record IsCollected (locks : List LockInstance) (st : RuntimeState Double) : Type 0 where
      pub transactions :
          Tallies st
            (count_from 0 (is_other_client srv.my_pid) srv.backends)
            (count_from 0 (is_open srv.my_pid) srv.backends)
            (count_from 0 (is_waiting srv.my_pid) srv.backends)
            (count_from 0 (is_long srv.transactions_now srv.my_pid (long_limit_us c)) srv.backends)
      pub agrees : AgreesWithLocks F C srv.manager srv.locks_now srv.backends srv.my_pid locks st
      pub normal : st.mode ≡ SafetyMode.normal
      pub low : pos 0 ≤ℤ st.pressure_score
      pub high : st.pressure_score ≤ℤ pos 100

    -- How a collection ends: with the injected error and the ring untouched, or with a collected state
    -- and the same events in the ring.
    pub data Outcome (locks : List LockInstance) (s : SharedState Double)
        : Option (SharedState Double) × Attempt (RuntimeState Double) → Type 0 where
      injected : is_faulty ≡ true → Outcome locks s (some s, failed injected_replication_failure)
      collected :
          {t : SharedState Double} {st : RuntimeState Double}
          → is_faulty ≡ false
          → IsValid t
          → t.events ≡ s.events
          → contents t ≡ contents s
          → IsCollected locks st
          → Outcome locks s (some t, done st)

    sessions-IsCollected :
        (locks : List LockInstance) (st r : RuntimeState Double)
        → Tallies st
            (count_from 0 (is_other_client srv.my_pid) srv.backends)
            (count_from 0 (is_open srv.my_pid) srv.backends)
            (count_from 0 (is_waiting srv.my_pid) srv.backends)
            (count_from 0 (is_long srv.transactions_now srv.my_pid (long_limit_us c)) srv.backends)
        → AgreesWithLocks F C srv.manager srv.locks_now srv.backends srv.my_pid locks st
        → IsFinished F st r
        → IsCollected locks r
    sessions-IsCollected locks st r t a f =
        let same = f.sessions in
        record {
          transactions = record {
            clients = same.connections ∙ t.clients;
            transactions = same.transactions ∙ t.transactions;
            waiting = same.waiting ∙ t.waiting;
            long = same.long ∙ t.long;
          };
          agrees = record {
            blocked =
                subst (λ n. Counts (λ p. (q : ℕ) × Awaits srv.manager srv.my_pid locks p q) n)
                  (sym same.blocked) a.blocked;
            blocking =
                subst (λ n. Counts (λ q. (p : ℕ) × Awaits srv.manager srv.my_pid locks p q) n)
                  (sym same.blocking) a.blocking;
            cycle =
                subst (λ b. (b ≡ true) ↔ ((p : ℕ) × AwaitsFor srv.manager srv.my_pid locks p p))
                  (sym same.cycle) a.cycle;
          };
          normal = f.normal;
          low = f.low;
          high = f.high;
        }

    collect_sessions-faulty :
        is_faulty ≡ true → collect_sessions F C p c srv ≡ failed injected_replication_failure
    unfolding collect_sessions collect_replication_signals
    collect_sessions-faulty faulty = rw faulty refl

    pub collect_sessions-fine :
        is_faulty ≡ false
        → (r : RuntimeState Double) × (collect_sessions F C p c srv ≡ done r)
          × SameSessions sessions_of r
    unfolding collect_sessions
    collect_sessions-fine fine =
        rw fine
          (collect_replication_signals-SameSessions F c srv.replication_now srv.senders sessions_of)

    sessions_of-Tallies :
        length srv.backends < 2 ^ 31
        → Tallies sessions_of
            (count_from 0 (is_other_client srv.my_pid) srv.backends)
            (count_from 0 (is_open srv.my_pid) srv.backends)
            (count_from 0 (is_waiting srv.my_pid) srv.backends)
            (count_from 0 (is_long srv.transactions_now srv.my_pid (long_limit_us c)) srv.backends)
    unfolding collect_lock_signals
    sessions_of-Tallies small =
        let t =
          collect_transaction_signals_lem F c srv.transactions_now srv.my_pid srv.max_connections
            srv.reserved_connections srv.backends (unknown_lags F) small in
        record {
          clients = t.clients;
          transactions = t.transactions;
          waiting = t.waiting;
          long = t.long;
        }

    -- What comes behind the collectors of sessions, for a state that has their signals.
    collect_rest-Outcome :
        (locks : List LockInstance) (s : SharedState Double) (r : RuntimeState Double)
        → is_faulty ≡ false
        → IsValid s
        → SameSessions sessions_of r
        → length srv.backends < 2 ^ 31
        → AgreesWithLocks F C srv.manager srv.locks_now srv.backends srv.my_pid locks sessions_of
        → Outcome locks s (collect_rest F C p c srv (some s) (done r))
    unfolding collect_rest
    collect_rest-Outcome locks s r fine v same small agrees =
        let (t, e, valid, events, contents_kept) =
          collect_wal_signals-keeps F c srv.wal_now s r srv.wal_bytes v in
        let f = finish-IsFinished F c srv.wal_now (some s) r srv.wal_bytes in
        let last =
          compute_pressure_and_mode F c
            (collect_wal_signals F c srv.wal_bytes srv.wal_now (some s) r).1 in
        let whole : IsFinished F sessions_of last = record {
          sessions = SameSessions-trans F sessions_of r last same f.sessions;
          normal = f.normal;
          low = f.low;
          high = f.high;
        } in
        subst (λ o. Outcome locks s (o, done last)) (sym e)
          (collected fine valid events contents_kept
            (sessions-IsCollected locks sessions_of last (sessions_of-Tallies small) agrees whole))

    -- With a lock table, fewer than 2^31 backends, fewer than 256 edges, at most 64 processes that await
    -- another or that another awaits, and a valid ring, a collection raises the injected error exactly if that fault is on, and
    -- then leaves the ring alone; else it returns a state that counts the backends and agrees with the
    -- lock table, with the mode NORMAL and a pressure from 0 to 100, and the ring stays valid and keeps its
    -- events.
    pub collect_runtime_state-Outcome :
        (locks : List LockInstance) (known : List ℕ)
        → srv.lock_table ≡ some locks
        → length srv.backends < 2 ^ 31
        → let g =
            build_blocker_graph F C srv.manager srv.locks_now srv.backends srv.my_pid
              (some locks) in
          length g.edges < 256
          → length known ≤ 64
          → ((p q : ℕ) → Awaits srv.manager srv.my_pid locks p q → Elem p known × Elem q known)
          → (s : SharedState Double) → IsValid s
          → Outcome locks s (collect_runtime_state F C p c srv (some s))
    unfolding collect_runtime_state collect_rest
    collect_runtime_state-Outcome locks known table small few_edges few all_known s v =
        elim (Bool-cases is_faulty) [
          | inl faulty ↦
              subst (λ a. Outcome locks s (collect_rest F C p c srv (some s) a))
                (sym (collect_sessions-faulty faulty)) (injected faulty)
          | inr fine ↦
              let (r, e, same) = collect_sessions-fine fine in
              let agrees =
                collect_lock_signals-AgreesWithLocks F C srv.manager srv.locks_now srv.backends
                  srv.my_pid locks known few_edges few all_known
                  (collect_transaction_signals F c srv.transactions_now srv.my_pid
                    srv.max_connections srv.reserved_connections srv.backends (unknown_lags F)) in
              let agrees' : AgreesWithLocks F C srv.manager srv.locks_now srv.backends srv.my_pid
                  locks sessions_of =
                rw table agrees in
              subst (λ a. Outcome locks s (collect_rest F C p c srv (some s) a)) (sym e)
                (collect_rest-Outcome locks s r fine v same small agrees')
        ]
