-- ===== src/Hooks/Evaluate/Appends.antt =====
-- What pg_circuit_persist_risk_event of src/event.c, as src/hooks.c calls it, adds to the ring.
use pg_circuit.Prelude.{
  ◌≡◌, ◌≢◌, refl, false, if◌then◌else◌, ◌∷◌, Option, some, CString, codes, take, is_empty,
}
use pg_circuit.Types.{Decision}
use pg_circuit.Platform.{Float}
use pg_circuit.Runtime.{RuntimeState}
use pg_circuit.Risk.{Assessment, QueryInfo}
use pg_circuit.Policy.{PolicyResult}
use pg_circuit.Event.{RiskEvent, fill_risk_event, build_rule_ids}
use pg_circuit.Shmem.{SharedState, SharedEvent, make_slot, fit_or_empty}
use pg_circuit.Shmem.Ring.{store}
use pg_circuit.Shmem.Ring.Inv.{IsValid}
use pg_circuit.Shmem.Ring.Refine.{contents, contents-store, new_slot}
use pg_circuit.Hooks.{Backend, persist_risk_event, fault_is}
use pg_circuit.Hooks.Evaluate.Stores.{
  is_dropped-allow, is_dropped-other, event_record-dropped, event_record-stored,
}

module _ (F : Float) where
  open F use {Double}

  -- A slot that tells of the statement `q`, its score and its decision.
  pub record Tells (b : Backend Double) (q : QueryInfo Double) (a : Assessment Double)
      (e : SharedEvent) : Type 0 where
    pub decision : e.decision ≡ a.decision
    pub risk_score : e.risk_score ≡ a.score
    pub operation : e.operation ≡ q.kind
    pub relation_oid : e.relation_oid ≡ q.relation_oid
    pub backend_pid : e.backend_pid ≡ b.session.my_pid
    pub timestamp : e.timestamp ≡ b.session.now

  -- The ring `r` is that of `s` with such a slot put in front, cut to the capacity.
  pub record Appends (b : Backend Double) (q : QueryInfo Double) (a : Assessment Double)
      (s : SharedState Double) (r : Option (SharedState Double)) : Type 0 where
    pub after : SharedState Double
    pub slot : SharedEvent
    pub result : r ≡ some after
    pub pushed : contents after ≡ take s.capacity (slot ∷ contents s)
    pub tells : Tells b q a slot

  pub persist-allow :
      (b : Backend Double) (e : RiskEvent) (q : QueryInfo Double) (a : Assessment Double)
      (policy : PolicyResult) (names : Option CString × Option CString) (s : SharedState Double)
      → e.decision ≡ Decision.allow
      → policy.audit_only ≡ false
      → persist_risk_event F b e q a policy names (some s) ≡ some s
  unfolding persist_risk_event
  persist-allow b e q a policy names s h na =
      event_record-dropped _ _ e _ _ _ _ (some policy) s (is_dropped-allow e policy h na)

  pub persist-Appends :
      (b : Backend Double) (q : QueryInfo Double) (runtime : RuntimeState Double)
      (a : Assessment Double) (policy : PolicyResult) (names : Option CString × Option CString)
      (s : SharedState Double)
      → IsValid s
      → fault_is b.postgres b.fault (codes "event_full") ≡ false
      → a.decision ≢ Decision.allow
      → Appends b q a s (
          persist_risk_event F b
            (fill_risk_event b.session q runtime a (some policy))
            q
            a
            policy
            names
            (some s))
  unfolding persist_risk_event fill_risk_event make_slot
  persist-Appends b q runtime a policy names s v room h =
      let e = fill_risk_event b.session q runtime a (some policy) in
      let ids = some (build_rule_ids 64 a) in
      let rel =
        some (if is_empty q.relation_qualname then q.relation_name else q.relation_qualname) in
      let db = some (fit_or_empty 64 names.0) in
      let user = some (fit_or_empty 64 names.1) in
      record {
        after = store b.postgres e ids rel db user s;
        slot = new_slot b.postgres e ids rel db user s;
        result =
            event_record-stored b.postgres _ e ids rel db user (some policy) s v room
              (is_dropped-other e policy h);
        pushed = contents-store b.postgres e ids rel db user v;
        tells = record {
          decision = refl;
          risk_score = refl;
          operation = refl;
          relation_oid = refl;
          backend_pid = refl;
          timestamp = refl;
        };
      }
