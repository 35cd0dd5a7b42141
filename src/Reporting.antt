-- ===== src/Reporting.antt =====
-- src/reporting.c: risk levels and the names of the enumerations.
use pg_circuit.Prelude.{ℤ, pos, leb_ℤ, CString, codes, if◌then◌else◌}
use pg_circuit.Types.{Mode, SafetyMode, RuntimeModeConfig, Decision, RiskLevel, WorkloadClass}

-- `pg_circuit_score_to_level`
unfoldable pub score_to_level : ℤ → RiskLevel
score_to_level score =
    if leb_ℤ (pos 80) score
    then RiskLevel.critical
    else if leb_ℤ (pos 60) score
    then RiskLevel.high
    else if leb_ℤ (pos 40) score
    then RiskLevel.medium
    else if leb_ℤ (pos 20) score
    then RiskLevel.low
    else RiskLevel.info

-- `pg_circuit_mode_name`; the `default` cases of these switches are out of reach.
unfoldable pub mode_name : Mode → CString
mode_name Mode.observe = codes "observe"
mode_name Mode.warn = codes "warn"
mode_name Mode.enforce = codes "enforce"

-- `pg_circuit_safety_mode_name`
unfoldable pub safety_mode_name : SafetyMode → CString
safety_mode_name SafetyMode.normal = codes "NORMAL"
safety_mode_name SafetyMode.protect = codes "PROTECT"
safety_mode_name SafetyMode.emergency = codes "EMERGENCY"

-- `pg_circuit_runtime_cfg_name`
unfoldable pub runtime_cfg_name : RuntimeModeConfig → CString
runtime_cfg_name RuntimeModeConfig.normal = codes "normal"
runtime_cfg_name RuntimeModeConfig.protect = codes "protect"
runtime_cfg_name RuntimeModeConfig.emergency = codes "emergency"
runtime_cfg_name RuntimeModeConfig.auto = codes "auto"

-- `pg_circuit_decision_name`
unfoldable pub decision_name : Decision → CString
decision_name Decision.allow = codes "ALLOW"
decision_name Decision.warn = codes "WARN"
decision_name Decision.block = codes "BLOCK"

-- `pg_circuit_risk_level_name`
unfoldable pub risk_level_name : RiskLevel → CString
risk_level_name RiskLevel.info = codes "INFO"
risk_level_name RiskLevel.low = codes "LOW"
risk_level_name RiskLevel.medium = codes "MEDIUM"
risk_level_name RiskLevel.high = codes "HIGH"
risk_level_name RiskLevel.critical = codes "CRITICAL"

-- `pg_circuit_workload_class_name`
unfoldable pub workload_class_name : WorkloadClass → CString
workload_class_name WorkloadClass.read = codes "read"
workload_class_name WorkloadClass.oltp_small = codes "oltp_small"
workload_class_name WorkloadClass.bulk_write = codes "bulk_write"
workload_class_name WorkloadClass.ddl = codes "ddl"
workload_class_name WorkloadClass.maintenance = codes "maintenance"
