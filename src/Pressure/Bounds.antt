-- ===== src/Pressure/Bounds.antt =====
-- The ranges of the pressure scores of src/runtime_state.c.
use pg_circuit.Prelude.{
  ℕ, ◌*◌, ◌+◌, ◌≤◌, ◌^◌, ◌-◌, ◌≡◌, refl, ℤ, pos, pos_part, ◌≤ℤ◌, add_int, mul_int, arith, min, Bool,
  true, false, ltb_ℤ, if◌then◌else◌, ◌<◌,
}
use pg_circuit.Types.{SafetyMode}
use pg_circuit.Platform.{Float}
use pg_circuit.Config.{Config}
use pg_circuit.Runtime.{RuntimeState}
use pg_circuit.Pressure.{
  add_if, min_int, session_points, chain_points, pressure_score_transactions_ex,
  pressure_score_locks_ex, pressure_score_replication, pressure_score_connections,
  pressure_score_wal, pressure_score_combine5, compute_pressure_and_mode, resolve_safety_mode,
}

-- A score from 0 to `n`.
pub record UpTo (n : ℕ) (s : ℤ) : Type 0 where
  pub low : pos 0 ≤ℤ s
  pub high : s ≤ℤ pos n

session_points-UpTo : (a b : ℤ) → UpTo 68 (session_points a b)
unfolding session_points mul_int add_int
session_points-UpTo a b = record { low = ground (arith); high = ground (arith) }

chain_points-UpTo : (d n s : ℤ) → UpTo 68 s → UpTo 105 (chain_points d n s)
unfolding chain_points add_int
chain_points-UpTo d n s h = record {
  low = ground (arith, h.low, h.high);
  high = ground (arith, h.low, h.high);
}

-- The most backends that PostgreSQL can have.
abbrev pub max_backends : ℕ
max_backends = 2 ^ 18 - 1

if-UpTo : (n : ℕ) (t : Bool) (x y : ℤ) → UpTo n x → UpTo n y → UpTo n (if t then x else y)
if-UpTo n true x y hx hy = hx
if-UpTo n false x y hx hy = hy

zero-UpTo : UpTo 46 (pos 0)
zero-UpTo = record { low = omega arith; high = omega arith }

add-UpTo : (n k : ℕ) (s : ℤ) → n + k < 2 ^ 31 → UpTo n s → UpTo (n + k) (add_int s (pos k))
unfolding add_int
add-UpTo n k s small h = record {
  low = ground (arith, h.low, h.high);
  high = ground (arith, h.low, h.high);
}

raise-UpTo : (n k : ℕ) (s : ℤ) → n ≤ k → UpTo n s → UpTo k s
raise-UpTo n k s less h = record { low = h.low; high = omega (arith, h.high) }

-- The points for long transactions and for idle ones, before the age counts.
count_points-UpTo :
    (a b : ℤ)
    → a ≤ℤ pos max_backends
    → b ≤ℤ pos max_backends
    → UpTo (18 * max_backends) (
        add_if
          (ltb_ℤ (pos 0) b)
          (mul_int b (pos 6))
          (add_if (ltb_ℤ (pos 0) a) (mul_int a (pos 12)) (pos 0)))
unfolding add_if mul_int add_int
count_points-UpTo a b ha hb = record { low = ground (arith); high = ground (arith) }

-- The points for idle transactions and for active queries, on top of those for the ratio.
idle_points-UpTo :
    (busy : Bool) (idle s : ℤ)
    → UpTo 25 s
    → UpTo 46 (
        add_if busy
          (pos 5)
          (add_if (ltb_ℤ (pos 0) idle) (mul_int (min_int idle (pos 8)) (pos 2)) s))
unfolding add_if mul_int add_int min_int
idle_points-UpTo busy idle s h = record {
  low = ground (arith, h.low, h.high);
  high = ground (arith, h.low, h.high);
}

module _ (F : Float) where
  open F use {Double}

  transactions-UpTo :
      (a b : ℤ) (oldest : Double) (limit : ℤ)
      → a ≤ℤ pos max_backends
      → b ≤ℤ pos max_backends
      → UpTo (18 * max_backends + 15) (pressure_score_transactions_ex F a b oldest limit)
  unfolding pressure_score_transactions_ex
  transactions-UpTo a b oldest limit ha hb =
      let base = count_points-UpTo a b ha hb in
      let n = 18 * max_backends in
      if-UpTo (n + 15) _ _ _ (add-UpTo n 15 _ (omega arith) base) (
        if-UpTo (n + 15) _ _ _
          (raise-UpTo (n + 5) (n + 15) _ (omega arith) (add-UpTo n 5 _ (omega arith) base))
          (raise-UpTo n (n + 15) _ (omega arith) base))

  locks-UpTo : (a b d n : ℤ) (wait : Double) → UpTo 113 (pressure_score_locks_ex F a b d n wait)
  unfolding pressure_score_locks_ex
  locks-UpTo a b d n wait =
      let base = chain_points-UpTo d n (session_points a b) (session_points-UpTo a b) in
      if-UpTo 113 _ _ _ (add-UpTo 105 8 _ (omega arith) base) (
        if-UpTo 113 _ _ _ (raise-UpTo 109 113 _ (omega arith) (add-UpTo 105 4 _ (omega arith) base))
          (raise-UpTo 105 113 _ (omega arith) base))

  replication-UpTo :
      (lag : Double) (warn critical : ℤ) → UpTo 35 (pressure_score_replication F lag warn critical)
  unfolding pressure_score_replication
  replication-UpTo lag warn critical = record { low = ground (arith); high = ground (arith) }

  ratio_points-UpTo :
      (x y z : Bool)
      → UpTo 25 (
          if x
          then add_int (pos 0) (pos 25)
          else if y
          then add_int (pos 0) (pos 15)
          else if z
          then add_int (pos 0) (pos 8)
          else pos 0)
  unfolding add_int
  ratio_points-UpTo x y z = record { low = ground (arith); high = ground (arith) }

  connections-UpTo :
      (used maximum reserved idle active : ℤ)
      → UpTo 46 (pressure_score_connections F used maximum reserved idle active)
  unfolding pressure_score_connections
  connections-UpTo used maximum reserved idle active =
      if-UpTo 46 _ (pos 0) _ zero-UpTo (idle_points-UpTo _ idle _ (ratio_points-UpTo _ _ _))

  wal-UpTo : (c : Config) (bytes_per_sec : Double) → UpTo 30 (pressure_score_wal F c bytes_per_sec)
  unfolding pressure_score_wal
  wal-UpTo c bytes_per_sec = record { low = ground (arith); high = ground (arith) }

-- The sum of five scores, cut at 100.
combine5_lem :
    (a b c d e : ℤ)
    → UpTo (18 * max_backends + 15) a
    → UpTo 113 b
    → UpTo 35 c
    → UpTo 30 d
    → UpTo 46 e
    → pressure_score_combine5 a b c d e
      ≡ pos (min (pos_part a + pos_part b + pos_part c + pos_part d + pos_part e) 100)
unfolding pressure_score_combine5 add_int
combine5_lem a b c d e ha hb hc hd he =
    ground
      (arith, ha.low, ha.high, hb.low, hb.high, hc.low, hc.high, hd.low, hd.high, he.low, he.high)

module _ (F : Float) where
  open F use {Double}

  -- With counts of backends as large as PostgreSQL allows no sum of the pressure wraps: the pressure
  -- is the sum of the five parts, cut at 100, each part lies in its range, and the mode stays NORMAL.
  pub compute_pressure_and_mode_lem :
      (c : Config) (state : RuntimeState Double)
      → state.long_transactions ≤ℤ pos max_backends
      → state.idle_in_transaction ≤ℤ pos max_backends
      → let r = compute_pressure_and_mode F c state in
        (r.pressure_score
          ≡ pos (
              min
                (pos_part r.pressure_tx
                  + pos_part r.pressure_locks
                  + pos_part r.pressure_replication
                  + pos_part r.pressure_wal
                  + pos_part r.pressure_connections)
                100))
        × UpTo (18 * max_backends + 15) r.pressure_tx
        × UpTo 113 r.pressure_locks
        × UpTo 35 r.pressure_replication
        × UpTo 30 r.pressure_wal
        × UpTo 46 r.pressure_connections
        × (r.mode ≡ SafetyMode.normal)
  unfolding compute_pressure_and_mode resolve_safety_mode
  compute_pressure_and_mode_lem c state long idle =
      let tx = transactions-UpTo F _ _ _ _ long idle in
      let locks = locks-UpTo F _ _ _ _ _ in
      let repl = replication-UpTo F _ _ _ in
      let wal = wal-UpTo F c _ in
      let conn = connections-UpTo F _ _ _ _ _ in
      (combine5_lem _ _ _ _ _ tx locks repl wal conn, tx, locks, repl, wal, conn, refl)
