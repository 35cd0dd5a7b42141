-- ===== src/Shmem/Ring.antt =====
-- src/shmem.c: recording an event in the ring, and reading the ring back.
pub mod Inv
pub mod Refine
pub mod Calls
pub mod Log
use pg_circuit.Prelude.{
  ℕ, zero, suc, ◌+◌, ◌-◌, ◌*◌, ◌%◌, ℤ, pos, negsuc, sub_ℕ, ltb, ltb_ℤ, pos_part, min, add_int64,
  Bool, true, false, not, ◌&&◌, ◌||◌, if◌then◌else◌, List, [], ◌∷◌, ◌+ℤ◌, length, get_or, set,
  CString, codes, Option, none, some,
}
use pg_circuit.Types.{Decision}
use pg_circuit.Platform.{Postgres}
use pg_circuit.Policy.{PolicyResult}
use pg_circuit.Event.{RiskEvent}
use pg_circuit.Shmem.{SharedEvent, SharedState, zero_event, make_slot}

-- `event->decision == PGC_DECISION_ALLOW && !(policy && policy->audit_only)`
unfoldable pub is_dropped : RiskEvent → Option PolicyResult → Bool
is_dropped e policy =
    let audited : Bool = elim policy [ some p ↦ p.audit_only | none ↦ false ] in
    (elim e.decision [ Decision.allow ↦ true | _ ↦ false ]) && not audited

-- `while (idx < 0) idx += capacity;`, with at most `fuel` rounds
unfoldable pub wrap_index : ℕ → ℕ → ℤ → ℤ
wrap_index zero capacity idx = idx
wrap_index (suc fuel) capacity idx =
    let rest = wrap_index fuel capacity (idx +ℤ pos capacity) in
    if ltb_ℤ idx (pos 0) then rest else idx

module _ {D : Type 0} where
  -- The part of `pg_circuit_event_record` under the lock, from the increments of the ids on.
  unfoldable pub store :
      Postgres
      → RiskEvent
      → Option CString
      → Option CString
      → Option CString
      → Option CString
      → SharedState D
      → SharedState D
  unfolding make_slot
  store p e rule_ids relation database user s =
      let event_id = add_int64 s.next_event_id (pos 1) in
      let decision_id = add_int64 s.next_decision_id (pos 1) in
      record s {
        next_event_id = event_id;
        next_decision_id = decision_id;
        events =
            set s.events s.head
              (make_slot p e event_id decision_id rule_ids relation database user);
        head = (s.head + 1) % s.capacity;
        count = if ltb s.count s.capacity then s.count + 1 else s.count;
      }

  -- `pg_circuit_event_record`; `full` is `pg_circuit_fault_is("event_full")`.
  unfoldable pub event_record :
      Postgres
      → Bool
      → RiskEvent
      → Option CString
      → Option CString
      → Option CString
      → Option CString
      → Option PolicyResult
      → Option (SharedState D)
      → Option (SharedState D)
  unfolding is_dropped store
  event_record p full e rule_ids relation database user policy none = none
  event_record p full e rule_ids relation database user policy (some s) =
      if full
      then some s
      else if is_dropped e policy
      then some s
      else if ltb s.capacity 1
      then some s
      else some (store p e rule_ids relation database user s)

  -- `events[idx]` for round `i` of the copy. The index falls short of 0 by less than `i + 2`.
  unfoldable pub nth_newest : SharedState D → ℕ → SharedEvent
  unfolding wrap_index
  nth_newest s i =
      get_or s.events (pos_part (wrap_index (suc (suc i)) s.capacity (sub_ℕ s.head (1 + i))))
        zero_event

  -- The loop over `out[i]`, with `left` rounds to go.
  unfoldable pub copy_out : SharedState D → ℕ → ℕ → List SharedEvent
  unfolding nth_newest
  copy_out s zero i = []
  copy_out s (suc left) i = nth_newest s i ∷ copy_out s left (i + 1)

  -- `pg_circuit_event_snapshot`: what is written to `out`, the array's first `n` elements.
  -- A negative `max_out` is as 0.
  unfoldable pub event_snapshot : Option (SharedState D) → ℕ → List SharedEvent
  unfolding copy_out
  event_snapshot none max_out = []
  event_snapshot (some s) max_out = copy_out s (min s.count max_out) 0
