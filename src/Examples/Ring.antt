-- ===== src/Examples/Ring.antt =====
-- Inputs for the event ring of src/shmem.c.
use pg_circuit.Prelude.{
  ◌≡◌, refl, ℤ, pos, false, List, [], ◌∷◌, length, take, min, none, some, codes, arith,
}
use pg_circuit.Types.{Decision}
use pg_circuit.Hooks.Chain.{foreign, Slot}
use pg_circuit.Config.Register.{set_all}
use pg_circuit.Load.{Process, pg_init, IsLoaded, pg_init-IsLoaded}
use pg_circuit.Config.{IsRegistered}
use pg_circuit.Event.{RiskEvent}
use pg_circuit.Shmem.{SharedEvent, SharedState, fresh_state, shmem_startup}
use pg_circuit.Shmem.Ring.{event_record, event_snapshot, store}
use pg_circuit.Shmem.Ring.Inv.{IsValid, shmem_startup-IsValid}
use pg_circuit.Shmem.Ring.Calls.{Call, empty_log, log_calls, record_calls}
use pg_circuit.Shmem.Ring.Log.{CountsDown, event_snapshot_refines, event_snapshot-CountsDown}
use pg_circuit.Examples.Settings.{server, server-Enforces, changes}
use pg_circuit.Examples.Values.{postgres, event, two_slots}

pub two_slots-IsRegistered : IsRegistered two_slots
two_slots-IsRegistered = record {
  long_transaction = (omega arith, omega arith);
  lag_warning = (omega arith, omega arith);
  lag_critical = (omega arith, omega arith);
  warn_threshold = (omega arith, omega arith);
  block_threshold = (omega arith, omega arith);
  history_size = (omega arith, omega arith);
  wal_elevated = (omega arith, omega arith);
  wal_high = (omega arith, omega arith);
}

abbrev call : RiskEvent → Call
call e = record {
  full = false;
  event = e;
  rule_ids = some (codes "PGC003");
  relation = some (codes "public.users");
  database = some (codes "app");
  user = some (codes "alice");
  policy = none;
}

-- Four calls, of which the second is an ALLOW.
abbrev pub four_calls : List Call
four_calls =
    call (record event { risk_score = pos 51 })
    ∷ call (record event { risk_score = pos 52; decision = Decision.allow })
    ∷ call (record event { risk_score = pos 53 })
    ∷ call (record event { risk_score = pos 54 })
    ∷ []

abbrev scores : List SharedEvent → List ℤ
scores [] = []
scores (e ∷ es) = e.risk_score ∷ scores es

four_calls_run :
    scores
      (event_snapshot (record_calls postgres four_calls (shmem_startup (pos 0) two_slots none)) 10)
    ≡ pos 54 ∷ pos 53 ∷ []
unfolding event_snapshot record_calls shmem_startup event_record
four_calls_run = refl

shmem_startup-IsValid_example :
    (s : SharedState ℤ) × (shmem_startup (pos 0) two_slots none ≡ some s)
    × IsValid s
    × (s.count ≡ 0)
    × (pos s.capacity ≡ pos 2)
    × (s.next_event_id ≡ pos 0)
    × (s.next_decision_id ≡ pos 0)
shmem_startup-IsValid_example = shmem_startup-IsValid (pos 0) two_slots two_slots-IsRegistered

abbrev fresh : SharedState ℤ
fresh = fresh_state (pos 0) 2

fresh-IsValid : IsValid fresh
unfolding fresh_state
fresh-IsValid = record {
  room = omega arith;
  small = omega arith;
  slots = refl;
  head_in = omega arith;
  count_in = omega arith;
}

recorded :
    event_record postgres false event none none none none none (some fresh)
    ≡ some (store postgres event none none none none fresh)
unfolding event_record fresh_state
recorded = refl

event_snapshot_refines_example :
    event_snapshot (record_calls postgres four_calls (shmem_startup (pos 0) two_slots none)) 10
    ≡ take (min 10 2) (log_calls postgres four_calls empty_log).entries
event_snapshot_refines_example =
    event_snapshot_refines postgres (pos 0) two_slots four_calls 10 two_slots-IsRegistered

event_snapshot-CountsDown_example :
    CountsDown
      (length (log_calls postgres four_calls empty_log).entries)
      (event_snapshot (record_calls postgres four_calls (shmem_startup (pos 0) two_slots none)) 10)
event_snapshot-CountsDown_example =
    event_snapshot-CountsDown postgres (pos 0) two_slots four_calls 10 two_slots-IsRegistered
      (omega arith)

-- A process in which another extension has hooked into start-up.
abbrev free_slot : Slot
free_slot = record { current = none; prev = none }

abbrev process : Process
process = record {
  hooks = record {
    planner = free_slot;
    process_utility = record { current = some (foreign 3); prev = none };
    executor_start = free_slot;
    executor_end = free_slot;
  };
  shmem_request = free_slot;
  shmem_startup = record { current = some (foreign 4); prev = none };
  config = two_slots;
}

pg_init-IsLoaded_example :
    (s : SharedState ℤ) × IsLoaded server
      (pos 0)
      96
      512
      (set_all server changes (pg_init server process).config)
      process
      s
pg_init-IsLoaded_example = pg_init-IsLoaded server (pos 0) 96 512 changes process server-Enforces
