-- ===== src/Shmem/Ring/Refine.antt =====
-- The event ring of src/shmem.c against an unbounded log, newest event first.
use pg_circuit.Prelude.{
  ℕ, zero, suc, ◌+◌, ◌-◌, ◌%◌, ◌<◌, ◌≡◌, ◌≢◌, refl, sym, ap, ap₂, ◌∙◌, pos, ltb, add_int64,
  if◌then◌else◌, List, [], ◌∷◌, get_or, set, take, min, Option, some, CString, get_or-set_self,
  get_or-set_ne, take-nil, min_comm, min-suc, arith, min-zero, zero-min, pos_part,
}
use native.Mathlib.Nat.{mod-eq_of_lt, mod_self}
use native.Mathlib.Decide.{dec_lt}
use pg_circuit.Platform.{Postgres}
use pg_circuit.Event.{RiskEvent}
use pg_circuit.Shmem.{SharedEvent, SharedState, WalCache, zero_event, make_slot}
use pg_circuit.Shmem.Ring.{store, nth_newest, copy_out, event_snapshot}
use pg_circuit.Shmem.Ring.Inv.{IsValid, slot_index, wrap_index_lem, store-IsValid}

module _ {D : Type 0} where
  -- What the ring holds, newest first.
  pub contents : SharedState D → List SharedEvent
  contents s = copy_out s s.count 0

  nth_newest_lem :
      {s : SharedState D} (i : ℕ)
      → IsValid s
      → i < s.capacity
      → nth_newest s i ≡ get_or s.events (slot_index s.capacity s.head i) zero_event
  unfolding nth_newest
  nth_newest_lem {s} i v h =
      ap (λ k. get_or s.events (pos_part k) zero_event)
        (wrap_index_lem i s.capacity s.head i v.head_in h)

  pub take-copy_out :
      (s : SharedState D) (k n i : ℕ) → take k (copy_out s n i) ≡ copy_out s (min k n) i
  unfolding copy_out
  take-copy_out s zero n i = rw zero-min
  take-copy_out s (suc k) zero i = rw min-zero
  take-copy_out s (suc k) (suc n) i =
      rw min-suc (ap (λ r. nth_newest s i ∷ r) (take-copy_out s k n (i + 1)))

  -- A snapshot is the newest part of what the ring holds.
  pub event_snapshot-contents :
      (s : SharedState D) (k : ℕ) → event_snapshot (some s) k ≡ take k (contents s)
  unfolding event_snapshot contents
  event_snapshot-contents s k =
      ap (λ n. copy_out s n 0) (min_comm s.count k) ∙ sym (take-copy_out s k s.count 0)

  pub empty-contents : (s : SharedState D) → s.count ≡ 0 → contents s ≡ take s.capacity []
  unfolding contents copy_out
  empty-contents s e = rw e (sym (take-nil s.capacity))

-- The head moves on by one: what was the `i`-th newest slot becomes the next older one.
slot_index-step :
    (cap h i : ℕ)
    → h < cap
    → suc i < cap
    → (slot_index cap ((h + 1) % cap) (i + 1) ≡ slot_index cap h i) × (h ≢ slot_index cap h i)
slot_index-step cap h i hh hi = elim (dec_lt (h + 1) cap) [
  | yes p ↦ rw (mod-eq_of_lt p) (ground arith, ground arith)
  | no p ↦ let e : h + 1 ≡ cap = omega arith in rw (e, mod_self cap) (ground arith, ground arith)
]

slot_index-newest : (cap h : ℕ) → h < cap → slot_index cap ((h + 1) % cap) 0 ≡ h
slot_index-newest cap h hh = elim (dec_lt (h + 1) cap) [
  | yes p ↦ rw (mod-eq_of_lt p) (ground arith)
  | no p ↦ let e : h + 1 ≡ cap = omega arith in rw (e, mod_self cap) (ground arith)
]

module _ (p : Postgres) (e : RiskEvent) (ids rel db user : Option CString) where
  -- The slot that recording the event in `s` fills.
  abbrev pub new_slot : {D : Type 0} → SharedState D → SharedEvent
  new_slot s =
      make_slot p e (add_int64 s.next_event_id (pos 1)) (add_int64 s.next_decision_id (pos 1)) ids
        rel db user

  nth_newest-store :
      {D : Type 0} {s : SharedState D} (i : ℕ)
      → IsValid s
      → suc i < s.capacity
      → nth_newest (store p e ids rel db user s) (i + 1) ≡ nth_newest s i
  unfolding store
  nth_newest-store {s = s} i v h =
      let (index, other) = slot_index-step s.capacity s.head i v.head_in h in
      nth_newest_lem (i + 1) (store-IsValid p e ids rel db user v) (omega arith)
      ∙ ap (λ k. get_or (set s.events s.head (new_slot s)) k zero_event) index
      ∙ get_or-set_ne s.events s.head (slot_index s.capacity s.head i) (new_slot s) zero_event other
      ∙ sym (nth_newest_lem i v (omega arith))

  nth_newest-store_zero :
      {D : Type 0} {s : SharedState D}
      → IsValid s
      → nth_newest (store p e ids rel db user s) 0 ≡ new_slot s
  unfolding store
  nth_newest-store_zero {s = s} v =
      nth_newest_lem 0 (store-IsValid p e ids rel db user v) v.room
      ∙ ap (λ k. get_or (set s.events s.head (new_slot s)) k zero_event)
          (slot_index-newest s.capacity s.head v.head_in)
      ∙ get_or-set_self s.events s.head (new_slot s) zero_event (omega (arith, v))

  pub copy_out-store :
      {D : Type 0} {s : SharedState D} (left i : ℕ)
      → IsValid s
      → i + left < s.capacity
      → copy_out (store p e ids rel db user s) left (i + 1) ≡ copy_out s left i
  unfolding copy_out
  copy_out-store zero i v h = refl
  copy_out-store (suc left) i v h =
      ap₂ ◌∷◌ (nth_newest-store i v (omega arith)) (copy_out-store left (i + 1) v (omega arith))

  pub contents-store :
      {D : Type 0} {s : SharedState D}
      → IsValid s
      → contents (store p e ids rel db user s) ≡ take s.capacity (new_slot s ∷ contents s)
  unfolding contents store copy_out
  contents-store {s = s} v =
      let older = s.capacity - 1 in
      let count' = if ltb s.count s.capacity then s.count + 1 else s.count in
      let s' = store p e ids rel db user s in
      let counted : count' ≡ suc (min older s.count) = ground (arith, v) in
      let filled : s.capacity ≡ suc older = omega (arith, v) in
      ap (λ n. copy_out s' n 0) counted
      ∙ ap₂ ◌∷◌ (nth_newest-store_zero v) (
          copy_out-store (min older s.count) 0 v (omega (arith, v))
          ∙ sym (take-copy_out s older s.count 0))
      ∙ sym (ap (λ n. take n (new_slot s ∷ contents s)) filled)

module _ {D : Type 0} (s : SharedState D) (w : WalCache D) where
  copy_out-wal : (left i : ℕ) → copy_out (record s { wal = w }) left i ≡ copy_out s left i
  unfolding copy_out
  copy_out-wal zero i = refl
  copy_out-wal (suc left) i = ap (λ r. nth_newest s i ∷ r) (copy_out-wal left (i + 1))

  -- The WAL sample is no part of the ring.
  pub contents-wal : contents (record s { wal = w }) ≡ contents s
  unfolding contents
  contents-wal = copy_out-wal s.count 0
