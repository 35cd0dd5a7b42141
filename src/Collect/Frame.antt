-- ===== src/Collect/Frame.antt =====
-- What the later collectors of src/runtime_state.c leave as it is.
use pg_circuit.Prelude.{
  ℕ, ◌≡◌, refl, ◌∙◌, ℤ, pos, negsuc, add_int, ltb_ℤ, if◌then◌else◌, ◌≤ℤ◌, false, List, Option, none,
  some, arith,
}
use pg_circuit.Types.{SafetyMode}
use pg_circuit.Platform.{Float}
use pg_circuit.Config.{Config}
use pg_circuit.Runtime.{RuntimeState}
use pg_circuit.Shmem.{SharedState}
use pg_circuit.Shmem.Ring.Inv.{IsValid}
use pg_circuit.Shmem.Ring.Refine.{contents}
use pg_circuit.Shmem.Wal.{wal_cache_read-wal_sample_update}
use pg_circuit.Hooks.{done}
use pg_circuit.Replication.{WalSender, collect_replication_signals}
use pg_circuit.Pressure.{compute_pressure_and_mode, pressure_score_combine5, resolve_safety_mode}
use pg_circuit.Collect.{collect_wal_signals}

clamp : ℤ → ℤ
clamp s = if ltb_ℤ s (pos 0) then pos 0 else if ltb_ℤ (pos 100) s then pos 100 else s

clamp-bounds : (s : ℤ) → (pos 0 ≤ℤ clamp s) × (clamp s ≤ℤ pos 100)
unfolding clamp
clamp-bounds (pos n) = ground arith
clamp-bounds (negsuc n) = ground arith

pressure_score_combine5-bounds :
    (a b c d e : ℤ)
    → (pos 0 ≤ℤ pressure_score_combine5 a b c d e) × (pressure_score_combine5 a b c d e ≤ℤ pos 100)
unfolding pressure_score_combine5 clamp
pressure_score_combine5-bounds a b c d e =
    clamp-bounds (add_int (add_int (add_int (add_int a b) c) d) e)

-- The signals of sessions are the same in both states.
pub record SameSessions {D : Type 0} (st r : RuntimeState D) : Type 0 where
  pub connections : r.active_connections ≡ st.active_connections
  pub transactions : r.active_transactions ≡ st.active_transactions
  pub waiting : r.idle_in_transaction ≡ st.idle_in_transaction
  pub long : r.long_transactions ≡ st.long_transactions
  pub blocked : r.blocked_sessions ≡ st.blocked_sessions
  pub blocking : r.blocking_sessions ≡ st.blocking_sessions
  pub cycle : r.lock_cycle_detected ≡ st.lock_cycle_detected

module _ (F : Float) where
  open F use {Double}

  pub collect_replication_signals-SameSessions :
      (c : Config) (now : ℤ) (slots : Option (List WalSender)) (st : RuntimeState Double)
      → (r : RuntimeState Double) × (collect_replication_signals F c false now slots st ≡ done r)
        × SameSessions st r
  unfolding collect_replication_signals
  collect_replication_signals-SameSessions c now none st = (
    _,
    refl,
    record {
      connections = refl;
      transactions = refl;
      waiting = refl;
      long = refl;
      blocked = refl;
      blocking = refl;
      cycle = refl;
    },
  )
  collect_replication_signals-SameSessions c now (some ws) st = (
    _,
    refl,
    record {
      connections = refl;
      transactions = refl;
      waiting = refl;
      long = refl;
      blocked = refl;
      blocking = refl;
      cycle = refl;
    },
  )

  -- What `collect_rest` does behind the collectors of the sessions.
  pub record IsFinished (st r : RuntimeState Double) : Type 0 where
    pub sessions : SameSessions st r
    pub normal : r.mode ≡ SafetyMode.normal
    pub low : pos 0 ≤ℤ r.pressure_score
    pub high : r.pressure_score ≤ℤ pos 100

  compute_pressure_and_mode-IsFinished :
      (c : Config) (st : RuntimeState Double) → IsFinished st (compute_pressure_and_mode F c st)
  unfolding compute_pressure_and_mode resolve_safety_mode
  compute_pressure_and_mode-IsFinished c st = record {
    sessions = record {
      connections = refl;
      transactions = refl;
      waiting = refl;
      long = refl;
      blocked = refl;
      blocking = refl;
      cycle = refl;
    };
    normal = refl;
    low = (pressure_score_combine5-bounds _ _ _ _ _).0;
    high = (pressure_score_combine5-bounds _ _ _ _ _).1;
  }

  pub SameSessions-trans :
      (a b c : RuntimeState Double) → SameSessions a b → SameSessions b c → SameSessions a c
  SameSessions-trans a b c h k = record {
    connections = k.connections ∙ h.connections;
    transactions = k.transactions ∙ h.transactions;
    waiting = k.waiting ∙ h.waiting;
    long = k.long ∙ h.long;
    blocked = k.blocked ∙ h.blocked;
    blocking = k.blocking ∙ h.blocking;
    cycle = k.cycle ∙ h.cycle;
  }

  collect_wal_signals-SameSessions :
      (c : Config) (now : ℤ) (shared : Option (SharedState Double)) (st : RuntimeState Double)
      (wal_bytes : Option ℕ)
      → SameSessions st (collect_wal_signals F c wal_bytes now shared st).1
  unfolding collect_wal_signals
  collect_wal_signals-SameSessions c now shared st none = record {
    connections = refl;
    transactions = refl;
    waiting = refl;
    long = refl;
    blocked = refl;
    blocking = refl;
    cycle = refl;
  }
  collect_wal_signals-SameSessions c now shared st (some n) = record {
    connections = refl;
    transactions = refl;
    waiting = refl;
    long = refl;
    blocked = refl;
    blocking = refl;
    cycle = refl;
  }

  pub collect_wal_signals-keeps :
      (c : Config) (now : ℤ) (s : SharedState Double) (st : RuntimeState Double)
      (wal_bytes : Option ℕ)
      → IsValid s
      → (t : SharedState Double) × ((collect_wal_signals F c wal_bytes now (some s) st).0 ≡ some t)
        × IsValid t
        × (t.events ≡ s.events)
        × (contents t ≡ contents s)
  unfolding collect_wal_signals
  collect_wal_signals-keeps c now s st none v = (s, refl, v, refl, refl)
  collect_wal_signals-keeps c now s st (some n) v =
      let (t, e, _, valid, events, same, _) =
        wal_cache_read-wal_sample_update F c n now s (F.decimal 0 1) v in
      (t, e, valid, events, same)

  -- The collection of the WAL signals and the pressure, behind the collectors of sessions.
  pub finish-IsFinished :
      (c : Config) (now : ℤ) (shared : Option (SharedState Double)) (st : RuntimeState Double)
      (wal_bytes : Option ℕ)
      → IsFinished st
          (compute_pressure_and_mode F c (collect_wal_signals F c wal_bytes now shared st).1)
  finish-IsFinished c now shared st wal_bytes =
      let mid = (collect_wal_signals F c wal_bytes now shared st).1 in
      let f = compute_pressure_and_mode-IsFinished c mid in
      record {
        sessions =
            SameSessions-trans st mid _ (collect_wal_signals-SameSessions c now shared st wal_bytes)
              f.sessions;
        normal = f.normal;
        low = f.low;
        high = f.high;
      }
