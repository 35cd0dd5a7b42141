-- ===== src/Replication.antt =====
-- src/replication.c: the scan of the WAL senders for replication lag.
pub mod Health
use pg_circuit.Prelude.{
  ℕ, zero, ◌==◌, ℤ, pos, negsuc, ltb_ℤ, add_int, sub_int64, Bool, true, false, not, ◌&&◌, ◌||◌,
  if◌then◌else◌, List, [], ◌∷◌, Option, none, some, codes,
}
use pg_circuit.Platform.{Float}
use pg_circuit.Config.{Config}
use pg_circuit.Runtime.{RuntimeState, ReplicationHealth}
use pg_circuit.Breaker.{internal_error, Report}
use pg_circuit.Hooks.{Attempt, done, failed}
use pg_circuit.Pressure.{effective_lag_warn_seconds, effective_lag_critical_seconds}

-- `WalSnd`: the fields that the scan reads under the spin lock of the slot. A free slot has pid 0.
pub record WalSender : Type 0 where
  pub pid : ℕ
  pub reply_time : ℤ
  pub write_lag : ℤ
  pub flush_lag : ℤ
  pub apply_lag : ℤ

-- The local variables of the scan.
pub record LagScan (D : Type 0) : Type 0 where
  pub max_write : D
  pub max_flush : D
  pub max_replay : D
  pub max_reply : D
  pub replicas : ℤ

-- `elog(ERROR, "injected replication-stat failure")`
abbrev pub injected_replication_failure : Report
injected_replication_failure = record {
  sqlstate = internal_error;
  message = codes "injected replication-stat failure";
  detail = [];
  hint = [];
}

module _ (F : Float) where
  open F use {Double, of_int, decimal, div, lt, le}

  abbrev zero_seconds : Double
  zero_seconds = decimal 0 1

  -- `lag_offset_to_seconds`
  unfoldable pub lag_offset_to_seconds : ℤ → Double
  lag_offset_to_seconds lag =
      if ltb_ℤ lag (pos 0) then of_int (negsuc 0) else div (of_int lag) (decimal 1000000 1)

  -- `bump_max`: the new value of `*dst`.
  unfoldable pub bump_max : Double → Double → Double
  bump_max dst v =
      if lt v zero_seconds then dst else if lt dst zero_seconds || lt dst v then v else dst

  -- The age of the last reply, which is 0 where there is none.
  unfoldable pub reply_seconds : ℤ → ℤ → Double
  reply_seconds now reply =
      let seconds = div (of_int (sub_int64 now reply)) (decimal 1000000 1) in
      if ltb_ℤ (pos 0) reply
      then (if lt seconds zero_seconds then zero_seconds else seconds)
      else zero_seconds

  -- One round of the loop.
  unfoldable pub scan_sender : ℤ → WalSender → LagScan Double → LagScan Double
  unfolding lag_offset_to_seconds bump_max reply_seconds
  scan_sender now w s =
      let reply = reply_seconds now w.reply_time in
      if w.pid == 0 then s else record {
        max_write = bump_max s.max_write (lag_offset_to_seconds w.write_lag);
        max_flush = bump_max s.max_flush (lag_offset_to_seconds w.flush_lag);
        max_replay = bump_max s.max_replay (lag_offset_to_seconds w.apply_lag);
        max_reply =
            if ltb_ℤ (pos 0) w.reply_time && lt s.max_reply reply then reply else s.max_reply;
        replicas = add_int s.replicas (pos 1);
      }

  unfoldable pub scan_senders : ℤ → List WalSender → LagScan Double → LagScan Double
  unfolding scan_sender
  scan_senders now [] s = s
  scan_senders now (w ∷ ws) s = scan_senders now ws (scan_sender now w s)

  -- `effective`
  unfoldable pub effective_lag : LagScan Double → Double
  unfolding bump_max
  effective_lag s =
      let known =
        bump_max (bump_max (bump_max (of_int (negsuc 0)) s.max_write) s.max_flush) s.max_replay in
      let lag =
        if lt known zero_seconds
        then s.max_reply
        else if lt known s.max_reply
        then s.max_reply
        else known in
      if lt lag zero_seconds then zero_seconds else lag

  -- `replication_health` at the end.
  unfoldable pub health_of : Config → ℤ → Double → ReplicationHealth
  unfolding effective_lag_warn_seconds effective_lag_critical_seconds
  health_of c replicas lag =
      let warn = effective_lag_warn_seconds c in
      let critical = effective_lag_critical_seconds c in
      if not (ltb_ℤ (pos 0) replicas)
      then ReplicationHealth.none
      else if ltb_ℤ (pos 0) critical && le (of_int critical) lag
      then ReplicationHealth.severe
      else if ltb_ℤ (pos 0) warn && le (of_int warn) lag
      then ReplicationHealth.lagging
      else ReplicationHealth.healthy

  -- `pg_circuit_collect_replication_signals`. The flag is `pg_circuit_fault_is("replication")`; the
  -- slots are `none` where the server has no WAL senders.
  unfoldable pub collect_replication_signals :
      Config
      → Bool
      → ℤ
      → Option (List WalSender)
      → RuntimeState Double
      → Attempt (RuntimeState Double)
  unfolding scan_senders effective_lag health_of
  collect_replication_signals c fault now slots st =
      let unknown = of_int (negsuc 0) in
      let reset : RuntimeState Double = record st {
        replica_count = pos 0;
        max_replication_lag_seconds = zero_seconds;
        max_write_lag_seconds = unknown;
        max_flush_lag_seconds = unknown;
        max_replay_lag_seconds = unknown;
        max_reply_lag_seconds = of_int (pos 0);
        replication_health = ReplicationHealth.none;
      } in
      if fault then failed injected_replication_failure else elim slots [
        | none ↦ done reset
        | some ws ↦
            let s = scan_senders now ws (record {
              max_write = unknown;
              max_flush = unknown;
              max_replay = unknown;
              max_reply = zero_seconds;
              replicas = pos 0;
            }) in
            done (record reset {
              replica_count = s.replicas;
              max_write_lag_seconds = s.max_write;
              max_flush_lag_seconds = s.max_flush;
              max_replay_lag_seconds = s.max_replay;
              max_reply_lag_seconds = s.max_reply;
              max_replication_lag_seconds = effective_lag s;
              replication_health = health_of c s.replicas (effective_lag s);
            })
      ]
