-- ===== src/Replication/Health.antt =====
-- The replication health of src/replication.c against the pressure score of src/runtime_state.c.
use pg_circuit.Prelude.{◌≡◌, ℤ, pos, ltb_ℤ, true, false}
use pg_circuit.Platform.{Float}
use pg_circuit.Config.{Config}
use pg_circuit.Runtime.{ReplicationHealth}

-- The points for a state of health.
abbrev pub health_points : ReplicationHealth → ℤ
health_points ReplicationHealth.severe = pos 35
health_points ReplicationHealth.lagging = pos 18
health_points ReplicationHealth.healthy = pos 0
health_points ReplicationHealth.none = pos 0

-- A number that is at least a positive integer is not at most 0.
abbrev pub OrdersPositives : Float → Type 0
OrdersPositives F =
    (a : ℤ) (x : F.Double)
    → ltb_ℤ (pos 0) a ≡ true
    → F.le (F.of_int a) x ≡ true
    → F.le x (F.of_int (pos 0)) ≡ false
