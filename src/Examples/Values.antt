-- ===== src/Examples/Values.antt =====
-- Concrete values of the parameters: doubles as whole numbers, a small catalog, and a backend.
use pg_circuit.Prelude.{
  ◌/◌, ◌==◌, ℤ, pos, negsuc, pos_part, ltb_ℤ, leb_ℤ, ◌*ℤ◌, true, false, if◌then◌else◌, [], ◌∷◌,
  ◌++◌, none, some, CString, codes, str_eq, show_ℤ,
}
use pg_circuit.Types.{Decision, SafetyMode, QueryKind, LockClass, WorkloadClass}
use pg_circuit.Platform.{Float, Postgres}
use pg_circuit.Config.{Config, defaults}
use pg_circuit.Runtime.{RuntimeState, ReplicationHealth}
use pg_circuit.Risk.{QueryInfo}
use pg_circuit.Relations.{Catalog}
use pg_circuit.Event.{RiskEvent, Session}
use pg_circuit.Hooks.{done, Backend}

abbrev pub div_ℤ : ℤ → ℤ → ℤ
div_ℤ (pos a) b = pos (a / pos_part b)
div_ℤ (negsuc a) b = pos 0

-- Whole numbers in the place of doubles.
abbrev pub whole : Float
whole = record {
  Double = ℤ;
  of_int = λ a. a;
  decimal = λ n d. pos (n / d);
  mul = ◌*ℤ◌;
  div = div_ℤ;
  lt = ltb_ℤ;
  le = leb_ℤ;
  to_uint64 = pos_part;
  show_tenths = λ a. show_ℤ a ++ codes ".0";
  show_whole = show_ℤ;
}

abbrev pub postgres : Postgres
postgres = record {
  same_ignoring_case = str_eq;
  md5_hash = λ s. some (codes "d41d8cd98f00b204e9800998ecf8427e");
}

-- One table, `public.users` of 5 pages and 300 rows, with the object id 7.
abbrev pub catalog : Catalog ℤ
catalog = record {
  RangeVar = CString;
  relname = λ rv. rv;
  get_relid = λ rv. if str_eq rv (codes "users") then 7 else 0;
  from_names = λ names. elim names [ [] ↦ [] | n ∷ ns ↦ n ];
  get_rel_name = λ oid. if oid == 7 then some (codes "users") else none;
  get_namespace_name = λ oid. if oid == 7 then some (codes "public") else none;
  open_relation = λ oid. if oid == 7 then some (5, pos 300) else none;
  block_size = 8192;
  max_tuples_per_page = 291;
}

abbrev pub calm : RuntimeState ℤ
calm = record {
  mode = SafetyMode.normal;
  active_connections = pos 3;
  idle_connections = pos 2;
  active_query_backends = pos 1;
  max_connections = pos 100;
  reserved_connections = pos 3;
  connection_pressure_score = pos 0;
  active_transactions = pos 1;
  long_transactions = pos 0;
  idle_in_transaction = pos 0;
  oldest_transaction_age_seconds = pos 0;
  oldest_idle_in_transaction_age_seconds = pos 0;
  blocked_sessions = pos 0;
  blocking_sessions = pos 0;
  max_lock_wait_seconds = pos 0;
  lock_cycle_detected = false;
  max_lock_chain_depth = pos 0;
  max_lock_descendants = pos 0;
  replica_count = pos 0;
  max_replication_lag_seconds = pos 0;
  max_write_lag_seconds = negsuc 0;
  max_flush_lag_seconds = negsuc 0;
  max_replay_lag_seconds = negsuc 0;
  max_reply_lag_seconds = pos 0;
  replication_health = ReplicationHealth.none;
  wal_bytes_per_sec = pos 0;
  wal_pressure_level = pos 0;
  pressure_score = pos 0;
  pressure_tx = pos 0;
  pressure_locks = pos 0;
  pressure_replication = pos 0;
  pressure_wal = pos 0;
  pressure_connections = pos 0;
}

-- A statement of the kind `k` on `public.users`.
abbrev pub statement : QueryKind → QueryInfo ℤ
statement k = record {
  kind = k;
  relation_oid = 7;
  relation_name = codes "users";
  relation_qualname = codes "public.users";
  estimated_rows = pos 300;
  relation_size = pos 40960;
  has_where = false;
  is_write = true;
  concurrent = false;
  rewrite_likely = false;
  lock_class = LockClass.high;
  workload_class = WorkloadClass.bulk_write;
  ddl_detail = [];
}

abbrev pub session : Session
session = record { now = pos 1000; my_pid = pos 42; my_database = 5; user_id = 10 }

-- A backend with the configuration `c`, whose collection always succeeds.
abbrev pub backend : Config → Backend ℤ
backend c = record {
  config = c;
  postgres = postgres;
  session = session;
  is_parallel_worker = false;
  is_autovacuum_worker = false;
  fault = none;
  collect = λ shared. (shared, done calm);
  names = done (some (codes "app"), some (codes "alice"));
}

-- A warning about a TRUNCATE.
abbrev pub event : RiskEvent
event = record {
  timestamp = pos 1000;
  backend_pid = pos 42;
  database_oid = 5;
  user_oid = 10;
  primary_rule = codes "PGC003";
  risk_score = pos 95;
  decision = Decision.warn;
  base_decision = Decision.warn;
  runtime_mode = SafetyMode.normal;
  relation_oid = 7;
  operation = QueryKind.truncate;
}

-- The default configuration with room for two events.
abbrev pub two_slots : Config
two_slots = record defaults { event_history_size = pos 2 }
