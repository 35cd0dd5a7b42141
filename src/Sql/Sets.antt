-- ===== src/Sql/Sets.antt =====
-- src/pg_circuit.c: the functions that return a set of rows, one row for each call.
pub mod Drain
pub mod Correct
pub mod Shown
use pg_circuit.Prelude.{
  ℕ, ◌+◌, ◌==◌, ℤ, pos, pos_part, ltb, ltb_ℤ, Bool, false, not, if◌then◌else◌, List, [], ◌∷◌,
  length, get_or, Option, none, some, CString, codes, fit, is_empty,
}
use pg_circuit.Platform.{Float, Postgres}
use pg_circuit.Config.{Config}
use pg_circuit.Reporting.{score_to_level, risk_level_name, safety_mode_name, decision_name}
use pg_circuit.Event.{query_kind_name}
use pg_circuit.Shmem.{SharedEvent, SharedState, zero_event}
use pg_circuit.Shmem.Ring.{event_snapshot}
use pg_circuit.Relations.{Catalog}
use pg_circuit.Hooks.{Attempt, done, failed}
use pg_circuit.Blockers.{Edge}
use pg_circuit.Blockers.Build.{build_blocker_graph}
use pg_circuit.Collect.{Server}
use pg_circuit.Sql.{not_a_row, text_or_null}

-- The `FuncCallContext` of a query: what `user_fctx` points to, and the number of rows returned.
pub record FuncCall (A : Type 0) : Type 0 where
  pub user_fctx : List A
  pub max_calls : ℕ
  pub call_cntr : ℕ

-- `SRF_RETURN_NEXT`, which counts the call, and `SRF_RETURN_DONE`.
pub data Reply (R : Type 0) : Type 0 where
  next : R → Reply R
  finished : Reply R

-- What both functions do behind `SRF_PERCALL_SETUP`: `limit` is the bound of the calls, and `missing`
-- stands for an element behind the end.
unfoldable pub per_call :
    {A R : Type 0} → A → (A → R) → (FuncCall A → ℕ) → FuncCall A → FuncCall A × Reply R
per_call missing row limit ctx =
    if ltb ctx.call_cntr (limit ctx)
    then (
      record ctx { call_cntr = ctx.call_cntr + 1 },
      next (row (get_or ctx.user_fctx ctx.call_cntr missing)),
    )
    else (ctx, finished)

-- `SRF_IS_FIRSTCALL`: with no context the call starts one; `is_row` is the answer of
-- `get_call_result_type`.
unfoldable pub one_call :
    {A R : Type 0}
    → Bool
    → FuncCall A
    → (FuncCall A → FuncCall A × Reply R)
    → Option (FuncCall A)
    → Attempt (FuncCall A × Reply R)
one_call is_row first call none = if not is_row then failed not_a_row else done (call first)
one_call is_row first call (some ctx) = done (call ctx)

-- The columns of `pg_circuit_events`.
pub record EventRow : Type 0 where
  pub timestamp : ℤ
  pub backend_pid : ℤ
  pub database_name : Option CString
  pub user_name : Option CString
  pub operation : CString
  pub relation_name : Option CString
  pub risk_score : ℤ
  pub risk_level : CString
  pub runtime_mode : CString
  pub decision : CString
  pub rule_ids : Option CString
  pub event_id : ℤ
  pub decision_id : ℤ
  pub fingerprint : Option CString
  pub base_decision : CString

unfoldable pub event_row : SharedEvent → EventRow
unfolding query_kind_name score_to_level risk_level_name safety_mode_name decision_name
event_row ev = record {
  timestamp = ev.timestamp;
  backend_pid = ev.backend_pid;
  database_name = text_or_null ev.database_name;
  user_name = text_or_null ev.user_name;
  operation = query_kind_name ev.operation;
  relation_name = text_or_null ev.relation_name;
  risk_score = ev.risk_score;
  risk_level = risk_level_name (score_to_level ev.risk_score);
  runtime_mode = safety_mode_name ev.runtime_mode;
  decision = decision_name ev.decision;
  rule_ids = text_or_null ev.rule_ids;
  event_id = ev.event_id;
  decision_id = ev.decision_id;
  fingerprint = text_or_null ev.fingerprint;
  base_decision = decision_name ev.base_decision;
}

-- `cap`, the number of elements of the snapshot's array
unfoldable pub snapshot_size : Config → ℕ
snapshot_size c =
    pos_part (if ltb_ℤ c.event_history_size (pos 1) then pos 1 else c.event_history_size)

module _ {D : Type 0} (c : Config) where
  -- The first call's snapshot of the ring.
  unfoldable pub events_first : Option (SharedState D) → FuncCall SharedEvent
  unfolding snapshot_size
  events_first shared =
      let snapshot = event_snapshot shared (snapshot_size c) in
      record { user_fctx = snapshot; max_calls = length snapshot; call_cntr = 0 }

  -- `pg_circuit_events`: one call, with the ring as it is at the time of the call.
  unfoldable pub events :
      Bool
      → Option (SharedState D)
      → Option (FuncCall SharedEvent)
      → Attempt (FuncCall SharedEvent × Reply EventRow)
  unfolding one_call per_call events_first event_row
  events is_row shared =
      one_call is_row (events_first shared) (per_call zero_event event_row (λ ctx. ctx.max_calls))

-- The columns of `pg_circuit_blockers`.
pub record BlockerRow (D : Type 0) : Type 0 where
  pub blocked_pid : ℕ
  pub blocking_pid : ℕ
  pub blocked_for_seconds : D
  pub blocking_transaction_age_seconds : D
  pub database_name : Option CString
  pub relation_name : Option CString
  pub lock_mode : CString

module _ (F : Float) where
  open F use {Double}

  -- The row of an edge; the function is `get_database_name`.
  unfoldable pub blocker_row : (ℕ → Option CString) → Edge Double → BlockerRow Double
  blocker_row get_database_name edge = record {
    blocked_pid = edge.blocked_pid;
    blocking_pid = edge.blocking_pid;
    blocked_for_seconds = edge.blocked_for_seconds;
    blocking_transaction_age_seconds = edge.blocking_transaction_age_seconds;
    database_name =
        if edge.database_oid == 0 then none else elim (get_database_name edge.database_oid) [
          | some name ↦ some (fit 64 name)
          | none ↦ none
        ];
    relation_name = text_or_null edge.relation_name;
    lock_mode = if is_empty edge.lock_mode then edge.lock_type else edge.lock_mode;
  }

  -- An edge as `palloc0` leaves it.
  abbrev pub zero_edge : Edge Double
  zero_edge = record {
    blocked_pid = 0;
    blocking_pid = 0;
    blocked_for_seconds = F.decimal 0 1;
    blocking_transaction_age_seconds = F.decimal 0 1;
    database_oid = 0;
    relation_oid = 0;
    relation_name = [];
    lock_type = [];
    lock_mode = [];
  }

  module _ (C : Catalog Double) where
    -- The first call's graph.
    unfoldable pub blockers_first : Server → FuncCall (Edge Double)
    blockers_first srv =
        let g =
          build_blocker_graph F C srv.manager srv.locks_now srv.backends srv.my_pid
            srv.lock_table in
        record { user_fctx = g.edges; max_calls = length g.edges; call_cntr = 0 }

    -- `pg_circuit_blockers`: one call, with the server as it is at the time of the call.
    unfoldable pub blockers :
        (ℕ → Option CString)
        → Bool
        → Server
        → Option (FuncCall (Edge Double))
        → Attempt (FuncCall (Edge Double) × Reply (BlockerRow Double))
    unfolding one_call per_call blockers_first blocker_row
    blockers get_database_name is_row srv =
        one_call is_row (blockers_first srv)
          (per_call zero_edge (blocker_row get_database_name) (λ ctx. length ctx.user_fctx))
