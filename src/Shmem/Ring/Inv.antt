-- ===== src/Shmem/Ring/Inv.antt =====
-- The representation invariant of the event ring of src/shmem.c.
use pg_circuit.Prelude.{
  ℕ, suc, ◌+◌, ◌-◌, ◌≤◌, ◌<◌, ◌≡◌, refl, pos, sub_ℕ, ltb, add_int64, Bool, if◌then◌else◌, length,
  length-set, length-replicate, Option, none, some, arith, CString,
}
use pg_circuit.Platform.{Postgres}
use pg_circuit.Config.{Config, IsRegistered}
use pg_circuit.Policy.{PolicyResult}
use pg_circuit.Event.{RiskEvent}
use pg_circuit.Shmem.{SharedState, zero_event, make_slot, fresh_state, ring_capacity, shmem_startup}
use pg_circuit.Shmem.Ring.{store, event_record, wrap_index}

ring_capacity-bounds :
    (c : Config)
    → IsRegistered c
    → (1 ≤ ring_capacity c)
      × (ring_capacity c ≤ 4096)
      × (pos (ring_capacity c) ≡ c.event_history_size)
unfolding ring_capacity
ring_capacity-bounds c r = ground (arith, r.history_size)

module _ {D : Type 0} where
  pub record IsValid (s : SharedState D) : Type 0 where
    pub room : 1 ≤ s.capacity
    pub small : s.capacity ≤ 4096
    pub slots : length s.events ≡ s.capacity
    pub head_in : s.head < s.capacity
    pub count_in : s.count ≤ s.capacity

  -- A new segment is valid and empty, with the registered number of slots and no id used.
  pub shmem_startup-IsValid :
      (z : D) (c : Config)
      → IsRegistered c
      → (s : SharedState D) × (shmem_startup z c none ≡ some s)
        × IsValid s
        × (s.count ≡ 0)
        × (pos s.capacity ≡ c.event_history_size)
        × (s.next_event_id ≡ pos 0)
        × (s.next_decision_id ≡ pos 0)
  unfolding shmem_startup
  shmem_startup-IsValid z c r =
      let cap = ring_capacity c in
      let bounds = ring_capacity-bounds c r in
      (
        fresh_state z cap,
        refl,
        record {
          room = omega (arith, bounds);
          small = omega (arith, bounds);
          slots = length-replicate cap zero_event;
          head_in = omega (arith, bounds);
          count_in = omega arith;
        },
        refl,
        bounds.2,
        refl,
        refl,
      )

  pub store-IsValid :
      (p : Postgres) (e : RiskEvent) (ids rel db user : Option CString) {s : SharedState D}
      → IsValid s
      → IsValid (store p e ids rel db user s)
  unfolding store
  store-IsValid p e ids rel db user {s} v =
      let id = add_int64 s.next_event_id (pos 1) in
      let decision = add_int64 s.next_decision_id (pos 1) in
      let slot = make_slot p e id decision ids rel db user in
      record {
        room = v.room;
        small = v.small;
        slots = rw (length-set s.events s.head slot) v.slots;
        head_in = grind (arith, v);
        count_in = ground (arith, v);
      }

  -- Recording an event keeps the ring valid, whatever branch is taken.
  pub event_record-IsValid :
      (p : Postgres) (full : Bool) (e : RiskEvent) (ids rel db user : Option CString)
      (policy : Option PolicyResult) {s t : SharedState D}
      → IsValid s
      → event_record p full e ids rel db user policy (some s) ≡ some t
      → IsValid t
  unfolding event_record
  event_record-IsValid p full e ids rel db user policy {s} {t} v h =
      ground (arith, store-IsValid p e ids rel db user v)

-- The slot of the `i`-th newest event.
abbrev pub slot_index : ℕ → ℕ → ℕ → ℕ
slot_index cap h i = if ltb i h then h - 1 - i else h + cap - 1 - i

pub wrap_index_lem :
    (f cap h i : ℕ)
    → h < cap
    → i < cap
    → wrap_index (suc (suc f)) cap (sub_ℕ h (1 + i)) ≡ pos (slot_index cap h i)
unfolding wrap_index
wrap_index_lem f cap h i hh hi = ground arith
