-- ===== src/Event.antt =====
-- include/event.h and src/event.c: risk events and their texts.
use pg_circuit.Prelude.{
  ℕ, ◌+◌, ℤ, ltb, leb, ◌&&◌, not, if◌then◌else◌, List, [], ◌∷◌, ◌++◌, length, CString, codes,
  is_empty, fit, Option, none, some,
}
use pg_circuit.Types.{Decision, SafetyMode, QueryKind}
use pg_circuit.Runtime.{RuntimeState}
use pg_circuit.Risk.{Finding, Assessment, QueryInfo}
use pg_circuit.Policy.{PolicyResult}

-- `PgCircuitRiskEvent`
pub record RiskEvent : Type 0 where
  pub timestamp : ℤ
  pub backend_pid : ℤ
  pub database_oid : ℕ
  pub user_oid : ℕ
  pub primary_rule : CString
  pub risk_score : ℤ
  pub decision : Decision
  pub base_decision : Decision
  pub runtime_mode : SafetyMode
  pub relation_oid : ℕ
  pub operation : QueryKind

-- What `GetCurrentTimestamp`, `MyProcPid`, `MyDatabaseId` and `GetUserId` answer.
pub record Session : Type 0 where
  pub now : ℤ
  pub my_pid : ℤ
  pub my_database : ℕ
  pub user_id : ℕ

-- `pg_circuit_query_kind_name`
unfoldable pub query_kind_name : QueryKind → CString
query_kind_name QueryKind.delete_no_where = codes "delete_no_where"
query_kind_name QueryKind.update_no_where = codes "update_no_where"
query_kind_name QueryKind.truncate = codes "truncate"
query_kind_name QueryKind.drop_table = codes "drop_table"
query_kind_name QueryKind.drop_database = codes "drop_database"
query_kind_name QueryKind.alter_table = codes "alter_table"
query_kind_name QueryKind.create_index = codes "create_index"
query_kind_name QueryKind.create_index_concurrently = codes "create_index_concurrently"
query_kind_name QueryKind.reindex = codes "reindex"
query_kind_name QueryKind.vacuum_full = codes "vacuum_full"
query_kind_name QueryKind.cluster = codes "cluster"
query_kind_name QueryKind.other = codes "other"

module _ {D : Type 0} where
  -- `pg_circuit_fill_risk_event`
  unfoldable pub fill_risk_event :
      Session → QueryInfo D → RuntimeState D → Assessment D → Option PolicyResult → RiskEvent
  fill_risk_event s q runtime a policy = record {
    timestamp = s.now;
    backend_pid = s.my_pid;
    database_oid = s.my_database;
    user_oid = s.user_id;
    primary_rule = fit 16 a.primary_rule;
    risk_score = a.score;
    decision = a.decision;
    base_decision = elim policy [ some p ↦ p.base_decision | none ↦ a.decision ];
    runtime_mode = runtime.mode;
    relation_oid = q.relation_oid;
    operation = q.kind;
  }

  -- The loop of `build_rule_ids`: `used` is the length of what is in the buffer.
  unfoldable pub join_rule_ids : ℕ → List (Finding D) → CString → CString
  join_rule_ids buflen [] buf = buf
  join_rule_ids buflen (f ∷ fs) buf =
      let used = length buf in
      let need = length f.rule_id + (if ltb 0 used then 1 else 0) in
      let skipped = join_rule_ids buflen fs buf in
      let joined =
        join_rule_ids buflen fs ((if ltb 0 used then buf ++ codes "," else buf) ++ f.rule_id) in
      if is_empty f.rule_id then skipped else if leb buflen (used + need + 1) then buf else joined

  -- `build_rule_ids`
  unfoldable pub build_rule_ids : ℕ → Assessment D → CString
  unfolding join_rule_ids
  build_rule_ids buflen a =
      let buf = join_rule_ids buflen a.findings [] in
      if is_empty buf && not (is_empty a.primary_rule) then fit buflen a.primary_rule else buf
