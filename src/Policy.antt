-- ===== src/Policy.antt =====
-- include/policy.h and src/policy_stub.c: the policy engine of the Community edition, a stub.
use pg_circuit.Prelude.{ℤ, pos, Bool, false, [], CString, codes, Option}
use pg_circuit.Types.{Decision}
use pg_circuit.Runtime.{RuntimeState}
use pg_circuit.Platform.{Postgres}
use pg_circuit.Risk.{Assessment, QueryInfo}

pub data PolicyAction : Type 0 where
  none allow warn block audit : PolicyAction

pub record PolicyResult : Type 0 where
  pub matched : Bool
  pub exception_applied : Bool
  pub audit_only : Bool
  pub outside_maintenance_window : Bool
  pub policy_id : ℤ
  pub policy_rule_id : ℤ
  pub exception_id : ℤ
  pub priority : ℤ
  pub base_decision : Decision
  pub final_decision : Decision
  pub action : PolicyAction
  pub policy_name : CString
  pub matched_rule : CString
  pub reason : CString

-- `pg_circuit_policy_evaluate`: no policy matches, and the decision stands.
unfoldable pub policy_evaluate :
    {D : Type 0} → QueryInfo D → RuntimeState D → Assessment D → PolicyResult
policy_evaluate q runtime a = record {
  matched = false;
  exception_applied = false;
  audit_only = false;
  outside_maintenance_window = false;
  policy_id = pos 0;
  policy_rule_id = pos 0;
  exception_id = pos 0;
  priority = pos 0;
  base_decision = a.decision;
  final_decision = a.decision;
  action = PolicyAction.none;
  policy_name = [];
  matched_rule = [];
  reason = [];
}

-- `pg_circuit_policy_action_name`
unfoldable pub policy_action_name : PolicyAction → CString
policy_action_name PolicyAction.allow = codes "allow"
policy_action_name PolicyAction.warn = codes "warn"
policy_action_name PolicyAction.block = codes "block"
policy_action_name PolicyAction.audit = codes "audit"
policy_action_name PolicyAction.none = codes "none"

-- `pg_circuit_parse_policy_action`: the result, and what `*action` is set to. `none` is a null
-- argument, which leaves `*action` alone.
unfoldable pub parse_policy_action : Postgres → Option CString → Bool × Option PolicyAction
parse_policy_action p Option.none = (false, Option.none)
parse_policy_action p (Option.some name) =
    (p.same_ignoring_case name (codes "none"), Option.some PolicyAction.none)

-- `PgCircuitIdentity`
pub record Identity : Type 0 where
  pub database_name : CString
  pub current_user : CString
  pub session_user : CString
  pub application_name : CString
  pub schema_name : CString
  pub relation_name : CString

-- `pg_circuit_collect_identity`
unfoldable pub collect_identity : {D : Type 0} → QueryInfo D → Identity
collect_identity q = record {
  database_name = [];
  current_user = [];
  session_user = [];
  application_name = [];
  schema_name = [];
  relation_name = [];
}

-- `pg_circuit_reload_policies_internal`
abbrev pub reload_policies_internal : ℤ
reload_policies_internal = pos 0

-- `pg_circuit_maintenance_window_active`
unfoldable pub maintenance_window_active : ℤ → ℤ → ℤ → ℤ → Bool
maintenance_window_active dow start_min end_min now = false
