-- ===== src/Hooks/Evaluate/Stores.antt =====
-- When event_record of src/shmem.c stores an event of src/hooks.c, and when it drops it.
use pg_circuit.Prelude.{
  ◌≡◌, ◌≢◌, refl, Bool, true, false, not, ◌&&◌, Option, some, CString, arith, ltb,
}
use pg_circuit.Types.{Decision}
use pg_circuit.Platform.{Postgres}
use pg_circuit.Policy.{PolicyResult}
use pg_circuit.Event.{RiskEvent}
use pg_circuit.Shmem.{SharedState}
use pg_circuit.Shmem.Ring.{event_record, is_dropped, store}
use pg_circuit.Shmem.Ring.Inv.{IsValid}

pub is_dropped-allow :
    (e : RiskEvent) (policy : PolicyResult)
    → e.decision ≡ Decision.allow
    → policy.audit_only ≡ false
    → is_dropped e (some policy) ≡ true
unfolding is_dropped
is_dropped-allow e policy h na = rw (h, na) refl

pub is_dropped-other :
    (e : RiskEvent) (policy : PolicyResult)
    → e.decision ≢ Decision.allow
    → is_dropped e (some policy) ≡ false
unfolding is_dropped
is_dropped-other e policy h = by_decision e.decision h
  where
    by_decision :
        (d : Decision)
        → d ≢ Decision.allow
        → ((elim d [ Decision.allow ↦ true | _ ↦ false ]) && not policy.audit_only) ≡ false
    by_decision Decision.allow h = absurd (h refl)
    by_decision Decision.warn h = refl
    by_decision Decision.block h = refl

pub event_record-dropped :
    {D : Type 0} (p : Postgres) (full : Bool) (e : RiskEvent) (ids rel db user : Option CString)
    (policy : Option PolicyResult) (s : SharedState D)
    → is_dropped e policy ≡ true
    → event_record p full e ids rel db user policy (some s) ≡ some s
unfolding event_record
event_record-dropped p true e ids rel db user policy s h = refl
event_record-dropped p false e ids rel db user policy s h = rw h refl

pub event_record-stored :
    {D : Type 0} (p : Postgres) (full : Bool) (e : RiskEvent) (ids rel db user : Option CString)
    (policy : Option PolicyResult) (s : SharedState D)
    → IsValid s
    → full ≡ false
    → is_dropped e policy ≡ false
    → event_record p full e ids rel db user policy (some s) ≡ some (store p e ids rel db user s)
unfolding event_record
event_record-stored p full e ids rel db user policy s v room h =
    let one_slot : ltb s.capacity 1 ≡ false = ground (arith, v.room) in rw (room, h, one_slot) refl
