-- ===== src/Shmem/Ring/Calls.antt =====
-- A call of pg_circuit_event_record of src/shmem.c on the ring and on an unbounded log.
use pg_circuit.Prelude.{
  ◌≡◌, refl, ◌∙◌, ℤ, pos, add_int64, Bool, false, ◌||◌, if◌then◌else◌, List, [], ◌∷◌, take, Option,
  some, inl, inr, CString, take-cons_take, Bool-cases, arith,
}
use pg_circuit.Platform.{Postgres}
use pg_circuit.Policy.{PolicyResult}
use pg_circuit.Event.{RiskEvent}
use pg_circuit.Shmem.{SharedEvent, SharedState, make_slot}
use pg_circuit.Shmem.Ring.{is_dropped, store, event_record}
use pg_circuit.Shmem.Ring.Inv.{IsValid, store-IsValid}
use pg_circuit.Shmem.Ring.Refine.{contents, contents-store}

-- The arguments of a call of `pg_circuit_event_record`, with the state of fault injection.
pub record Call : Type 0 where
  pub full : Bool
  pub event : RiskEvent
  pub rule_ids : Option CString
  pub relation : Option CString
  pub database : Option CString
  pub user : Option CString
  pub policy : Option PolicyResult

-- What an unbounded history holds, newest first, and the ids used so far.
pub record Log : Type 0 where
  pub entries : List SharedEvent
  pub event_ids : ℤ
  pub decision_ids : ℤ

abbrev pub empty_log : Log
empty_log = record { entries = []; event_ids = pos 0; decision_ids = pos 0 }

module _ (p : Postgres) where
  -- A call that is neither refused by fault injection nor an unaudited ALLOW adds one entry.
  unfoldable pub log_call : Call → Log → Log
  log_call c l = if c.full || is_dropped c.event c.policy then l else record {
    entries =
        make_slot p c.event (add_int64 l.event_ids (pos 1)) (add_int64 l.decision_ids (pos 1))
          c.rule_ids c.relation c.database c.user
        ∷ l.entries;
    event_ids = add_int64 l.event_ids (pos 1);
    decision_ids = add_int64 l.decision_ids (pos 1);
  }

  unfoldable pub log_calls : List Call → Log → Log
  log_calls [] l = l
  log_calls (c ∷ cs) l = log_calls cs (log_call c l)

  module _ {D : Type 0} where
    unfoldable pub record_call : Call → Option (SharedState D) → Option (SharedState D)
    record_call c s =
        event_record p c.full c.event c.rule_ids c.relation c.database c.user c.policy s

    unfoldable pub record_calls : List Call → Option (SharedState D) → Option (SharedState D)
    unfolding record_call
    record_calls [] s = s
    record_calls (c ∷ cs) s = record_calls cs (record_call c s)

    -- The ring holds the newest entries of the log, as many as it has slots.
    pub record Represents (s : SharedState D) (l : Log) : Type 0 where
      pub valid : IsValid s
      pub newest : contents s ≡ take s.capacity l.entries
      pub event_ids : s.next_event_id ≡ l.event_ids
      pub decision_ids : s.next_decision_id ≡ l.decision_ids

    store_call : Call → SharedState D → SharedState D
    store_call c s = store p c.event c.rule_ids c.relation c.database c.user s

    -- What recording an event leaves alone.
    pub record SameSegment (s t : SharedState D) : Type 0 where
      pub capacity : t.capacity ≡ s.capacity
      pub magic : t.magic ≡ s.magic
      pub version : t.version ≡ s.version
      pub lock : t.lock ≡ s.lock

    SameSegment-refl : (s : SharedState D) → SameSegment s s
    SameSegment-refl s = record { capacity = refl; magic = refl; version = refl; lock = refl }

    SameSegment-trans :
        {r s t : SharedState D} → SameSegment r s → SameSegment s t → SameSegment r t
    SameSegment-trans h k = record {
      capacity = k.capacity ∙ h.capacity;
      magic = k.magic ∙ h.magic;
      version = k.version ∙ h.version;
      lock = k.lock ∙ h.lock;
    }

    SameSegment-store_call : (c : Call) (s : SharedState D) → SameSegment s (store_call c s)
    unfolding store_call store
    SameSegment-store_call c s = record {
      capacity = refl;
      magic = refl;
      version = refl;
      lock = refl;
    }

    record_call_lem :
        (c : Call) (s : SharedState D)
        → IsValid s
        → record_call c (some s)
          ≡ some (if c.full || is_dropped c.event c.policy then s else store_call c s)
    unfolding record_call event_record store_call
    record_call_lem c s v = ground (arith, v)

    -- One more entry in front, of which the ring keeps as many as it has slots.
    store_call-Represents :
        (c : Call) (s : SharedState D) (l : Log)
        → (c.full || is_dropped c.event c.policy) ≡ false
        → Represents s l
        → Represents (store_call c s) (log_call c l)
    unfolding store_call log_call store
    store_call-Represents c s l taken r = rw taken (record {
      valid = store-IsValid p c.event c.rule_ids c.relation c.database c.user r.valid;
      newest =
          contents-store p c.event c.rule_ids c.relation c.database c.user r.valid
          ∙ rw (r.newest, r.event_ids, r.decision_ids) (take-cons_take s.capacity _ l.entries);
      event_ids = rw r.event_ids;
      decision_ids = rw r.decision_ids;
    })

    pub record_call-Represents :
        (c : Call) (s : SharedState D) (l : Log)
        → Represents s l
        → (t : SharedState D) × (record_call c (some s) ≡ some t)
          × SameSegment s t
          × Represents t (log_call c l)
    unfolding log_call
    record_call-Represents c s l r = elim (Bool-cases (c.full || is_dropped c.event c.policy)) [
      | inl refused ↦
          (s, rw (record_call_lem c s r.valid, refused), SameSegment-refl s, rw refused r)
      | inr taken ↦ (
        store_call c s,
        rw (record_call_lem c s r.valid, taken),
        SameSegment-store_call c s,
        store_call-Represents c s l taken r,
      )
    ]

    pub record_calls-Represents :
        (cs : List Call) (s : SharedState D) (l : Log)
        → Represents s l
        → (t : SharedState D) × (record_calls cs (some s) ≡ some t)
          × SameSegment s t
          × Represents t (log_calls cs l)
    unfolding record_calls log_calls
    record_calls-Represents [] s l r = (s, refl, SameSegment-refl s, r)
    record_calls-Represents (c ∷ cs) s l r =
        let (t, step, kept, r') = record_call-Represents c s l r in
        let (u, rest, same, r'') = record_calls-Represents cs t (log_call c l) r' in
        (u, rw step rest, SameSegment-trans kept same, r'')
