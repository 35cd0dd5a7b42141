-- ===== src/Shmem.antt =====
-- include/shmem.h and src/shmem.c: the shared state, the slots of the event ring, and start-up.
pub mod Ring
pub mod Wal
use pg_circuit.Prelude.{
  ℕ, zero, suc, ◌+◌, ◌-◌, ◌*◌, ◌%◌, ◌^◌, ℤ, pos, negsuc, sub_ℕ, ltb, leb, ltb_ℤ, leb_ℤ, pos_part,
  ◌==◌, add_int64, sub_int64, Bool, true, false, not, ◌&&◌, ◌||◌, if◌then◌else◌, List, [], ◌∷◌,
  ◌++◌, length, get_or, set, replicate, CString, codes, fit, Option, none, some, min,
}
use pg_circuit.Types.{Decision, SafetyMode, QueryKind}
use pg_circuit.Platform.{Float, Postgres}
use pg_circuit.Config.{Config}
use pg_circuit.Policy.{PolicyResult}
use pg_circuit.Event.{RiskEvent, query_kind_name}

-- `PgCircuitSharedEvent`. The enumerations that C stores as `int16` keep their types.
pub record SharedEvent : Type 0 where
  pub timestamp : ℤ
  pub event_id : ℤ
  pub decision_id : ℤ
  pub backend_pid : ℤ
  pub database_oid : ℕ
  pub user_oid : ℕ
  pub relation_oid : ℕ
  pub decision : Decision
  pub base_decision : Decision
  pub runtime_mode : SafetyMode
  pub operation : QueryKind
  pub risk_score : ℤ
  pub primary_rule : CString
  pub rule_ids : CString
  pub relation_name : CString
  pub database_name : CString
  pub user_name : CString
  pub fingerprint : CString

-- A slot after `MemSet` to zero.
abbrev pub zero_event : SharedEvent
zero_event = record {
  timestamp = pos 0;
  event_id = pos 0;
  decision_id = pos 0;
  backend_pid = pos 0;
  database_oid = 0;
  user_oid = 0;
  relation_oid = 0;
  decision = Decision.allow;
  base_decision = Decision.allow;
  runtime_mode = SafetyMode.normal;
  operation = QueryKind.other;
  risk_score = pos 0;
  primary_rule = [];
  rule_ids = [];
  relation_name = [];
  database_name = [];
  user_name = [];
  fingerprint = [];
}

-- `PgCircuitWalCache`
pub record WalCache (D : Type 0) : Type 0 where
  pub valid : Bool
  pub wal_bytes : ℕ
  pub sample_time : ℤ
  pub bytes_per_sec : D
  pub pressure_level : ℤ

-- `PgCircuitSharedState`. `lock` says whether the pointer is set. `capacity`, `head` and `count`
-- are `int`s that are never negative: they are set to a number from 1 on, 0 and 0, and then
-- change by `+ 1` and `%` alone. The flexible array `events` has `capacity` slots.
pub record SharedState (D : Type 0) : Type 0 where
  pub magic : ℕ
  pub version : ℕ
  pub lock : Bool
  pub capacity : ℕ
  pub head : ℕ
  pub count : ℕ
  pub wal : WalCache D
  pub next_event_id : ℤ
  pub next_decision_id : ℤ
  pub events : List SharedEvent

abbrev pub shmem_magic : ℕ
shmem_magic = 0x50474339

abbrev pub shmem_version : ℕ
shmem_version = 5

-- `cap` of `pg_circuit_shared_memsize` and `pg_circuit_shmem_startup`
unfoldable pub ring_capacity : Config → ℕ
ring_capacity c = if ltb_ℤ c.event_history_size (pos 1) then 1 else pos_part c.event_history_size

-- `pg_circuit_shared_memsize`, from the offset of `events` and the size of a slot.
unfoldable pub shared_memsize : ℕ → ℕ → Config → ℕ
unfolding ring_capacity
shared_memsize offset slot c = offset + ring_capacity c * slot

-- `fingerprint_op`: the MD5 of "kind|relation", the text cut to the buffer `src[128]`.
unfoldable pub fingerprint_op : Postgres → QueryKind → Option CString → CString
unfolding query_kind_name
fingerprint_op p kind relation =
    let name : CString = elim relation [ some r ↦ r | none ↦ [] ] in
    elim (p.md5_hash (fit 128 (query_kind_name kind ++ codes "|" ++ name))) [
      | some hash ↦ hash
      | none ↦ []
    ]

-- `if (name) strlcpy(slot->name, name, size)` on a zeroed slot
abbrev pub fit_or_empty : ℕ → Option CString → CString
fit_or_empty size (some s) = fit size s
fit_or_empty size none = []

-- The slot that `pg_circuit_event_record` writes.
unfoldable pub make_slot :
    Postgres
    → RiskEvent
    → ℤ
    → ℤ
    → Option CString
    → Option CString
    → Option CString
    → Option CString
    → SharedEvent
unfolding fingerprint_op
make_slot p e event_id decision_id rule_ids relation database user = record {
  timestamp = e.timestamp;
  event_id = event_id;
  decision_id = decision_id;
  backend_pid = e.backend_pid;
  database_oid = e.database_oid;
  user_oid = e.user_oid;
  relation_oid = e.relation_oid;
  decision = e.decision;
  base_decision = e.base_decision;
  runtime_mode = e.runtime_mode;
  operation = e.operation;
  risk_score = e.risk_score;
  primary_rule = fit 16 e.primary_rule;
  rule_ids = elim rule_ids [ some ids ↦ fit 64 ids | none ↦ fit 64 e.primary_rule ];
  relation_name = fit_or_empty 64 relation;
  database_name = fit_or_empty 64 database;
  user_name = fit_or_empty 64 user;
  fingerprint = fit 33 (fingerprint_op p e.operation relation);
}

module _ {D : Type 0} where
  -- A new segment, zeroed and filled by `pg_circuit_shmem_startup`; `zero` is the double 0.
  unfoldable pub fresh_state : D → ℕ → SharedState D
  fresh_state z cap = record {
    magic = shmem_magic;
    version = shmem_version;
    lock = true;
    capacity = cap;
    head = 0;
    count = 0;
    wal = record {
      valid = false;
      wal_bytes = 0;
      sample_time = pos 0;
      bytes_per_sec = z;
      pressure_level = pos 0;
    };
    next_event_id = pos 0;
    next_decision_id = pos 0;
    events = replicate cap zero_event;
  }

  -- `pg_circuit_shmem_startup` behind the call of the former hook, which is in `Load`: the segment that
  -- `ShmemInitStruct` found, if any, and the pointer
  -- `pg_circuit_shared` that results (`none` for NULL).
  unfoldable pub shmem_startup : D → Config → Option (SharedState D) → Option (SharedState D)
  unfolding ring_capacity fresh_state
  shmem_startup z c none = some (fresh_state z (ring_capacity c))
  shmem_startup z c (some s) =
      if not (s.magic == shmem_magic) || not (s.version == shmem_version)
      then none
      else if not s.lock
      then some (record s { lock = true })
      else some s
