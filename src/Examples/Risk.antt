-- ===== src/Examples/Risk.antt =====
-- Inputs for src/risk_engine.c.
use pg_circuit.Prelude.{ℕ, ◌≤◌, ◌≡◌, ◌↔◌, ℤ, pos, true, arith}
use pg_circuit.Types.{Mode, Decision, QueryKind, decision_rank, level_rank}
use pg_circuit.Prelude.{[], ◌∷◌}
use pg_circuit.Types.{RuntimeModeConfig}
use pg_circuit.Reporting.{mode_name, runtime_cfg_name}
use pg_circuit.Config.{IsRegistered, mode_options, runtime_mode_options}
use pg_circuit.Config.Options.{values_of, mode_options-mode_name}
use pg_circuit.Config.{defaults}
use pg_circuit.Risk.{Assessment, init_assessment, finalize_assessment}
use pg_circuit.Risk.Assess.{assess_query}
use pg_circuit.Risk.Decide.{IsDecided, finalize_assessment-IsDecided, finalize_assessment_stricter}
use pg_circuit.Risk.Score.{
  Explains, enforcing, is_destructive, assess_query-Explains, assess_query_defaults,
}
use pg_circuit.Examples.Values.{whole, calm, statement}

abbrev scored : ℕ → Assessment ℤ
scored n = record (init_assessment {D = ℤ}) { score = pos n }

finalize_assessment-IsDecided_example :
    IsDecided enforcing (pos 130) (finalize_assessment enforcing (scored 130))
finalize_assessment-IsDecided_example = finalize_assessment-IsDecided enforcing (scored 130)

finalize_assessment_stricter_example :
    let x = finalize_assessment (record defaults { mode = Mode.observe }) (scored 60) in
    let y = finalize_assessment (record defaults { mode = Mode.enforce }) (scored 90) in
    (decision_rank x.decision ≤ decision_rank y.decision)
    × (level_rank x.level ≤ level_rank y.level)
    × (decision_rank x.decision ≤ 0)
finalize_assessment_stricter_example =
    finalize_assessment_stricter defaults Mode.observe Mode.enforce (scored 60) (scored 90)
      (omega arith) (omega arith)

assess_query-Explains_example :
    Explains whole
      (statement QueryKind.truncate)
      (assess_query whole enforcing (statement QueryKind.truncate) calm)
assess_query-Explains_example =
    assess_query-Explains whole enforcing (statement QueryKind.truncate) calm

assess_query_defaults_example :
    ((assess_query whole enforcing (statement QueryKind.drop_table) calm).decision ≡ Decision.block)
    ↔ (is_destructive QueryKind.drop_table ≡ true)
assess_query_defaults_example = assess_query_defaults whole (statement QueryKind.drop_table) calm

mode_options-mode_name_example :
    (values_of (mode_name Mode.enforce) mode_options ≡ Mode.enforce ∷ [])
    × (values_of (runtime_cfg_name RuntimeModeConfig.auto) runtime_mode_options
        ≡ RuntimeModeConfig.auto ∷ [])
    × IsRegistered defaults
mode_options-mode_name_example = mode_options-mode_name Mode.enforce RuntimeModeConfig.auto
