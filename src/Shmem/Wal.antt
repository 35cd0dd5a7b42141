-- ===== src/Shmem/Wal.antt =====
-- src/shmem.c: the WAL sample in shared memory.
use pg_circuit.Prelude.{
  ℕ, ◌-◌, ◌≡◌, refl, leb, ℤ, pos, leb_ℤ, sub_int64, true, ◌&&◌, if◌then◌else◌, Option, none, some,
  Bool-cases, inl, inr, arith,
}
use pg_circuit.Platform.{Float}
use pg_circuit.Config.{Config}
use pg_circuit.Shmem.{WalCache, SharedState}
use pg_circuit.Shmem.Ring.Inv.{IsValid}
use pg_circuit.Shmem.Ring.Refine.{contents, contents-wal}
use pg_circuit.Pressure.{pressure_score_wal}

-- The points that src/wal.c gives for a level.
abbrev pub points_of : ℤ → ℤ
points_of level =
    if leb_ℤ (pos 3) level then pos 30 else if leb_ℤ (pos 2) level then pos 15 else pos 0

module _ (F : Float) where
  open F use {Double, of_int, decimal, div, lt, le}

  -- The rate since the sample `prev` bytes, `usec` microseconds ago.
  unfoldable pub wal_rate : ℕ → ℕ → ℤ → Double
  wal_rate wal_bytes prev usec =
      let secs = div (of_int usec) (decimal 1000000 1) in
      if leb prev wal_bytes && lt (decimal 0 1) secs
      then div (of_int (pos (wal_bytes - prev))) secs
      else decimal 0 1

  -- The tier of a rate.
  unfoldable pub wal_level : Config → Double → ℤ
  wal_level c bps =
      if le (of_int c.wal_pressure_high_bps) bps
      then pos 3
      else if le (of_int c.wal_pressure_elevated_bps) bps
      then pos 2
      else if lt (decimal 0 1) bps
      then pos 1
      else pos 0

  -- The part of `pg_circuit_wal_sample_update` under the lock: the cache, the rate and the level.
  unfoldable pub sample_cache : Config → ℕ → ℤ → WalCache Double → WalCache Double × Double × ℤ
  unfolding wal_rate wal_level
  sample_cache c wal_bytes now w =
      let usec = sub_int64 now w.sample_time in
      let bps = wal_rate wal_bytes w.wal_bytes usec in
      let level = wal_level c bps in
      if w.valid
      then (if leb_ℤ (pos 1000000) usec
          then (
            record {
              valid = true;
              wal_bytes = wal_bytes;
              sample_time = now;
              bytes_per_sec = bps;
              pressure_level = level;
            },
            bps,
            level,
          )
          else (w, w.bytes_per_sec, w.pressure_level))
      else (
        record {
          valid = true;
          wal_bytes = wal_bytes;
          sample_time = now;
          bytes_per_sec = decimal 0 1;
          pressure_level = pos 0;
        },
        decimal 0 1,
        pos 0,
      )

  -- `pg_circuit_wal_sample_update`, with both results asked for.
  unfoldable pub wal_sample_update :
      Config → ℕ → ℤ → Option (SharedState Double) → Option (SharedState Double) × Double × ℤ
  unfolding sample_cache
  wal_sample_update c wal_bytes now none = (none, decimal 0 1, pos 0)
  wal_sample_update c wal_bytes now (some s) =
      let (w, bps, level) = sample_cache c wal_bytes now s.wal in
      (some (record s { wal = w }), bps, level)

  -- `pg_circuit_wal_cache_read`, with both results asked for.
  unfoldable pub wal_cache_read : Option (SharedState Double) → Double × ℤ
  wal_cache_read none = (decimal 0 1, pos 0)
  wal_cache_read (some s) =
      if s.wal.valid then (s.wal.bytes_per_sec, s.wal.pressure_level) else (decimal 0 1, pos 0)

  -- What a sample leaves in the cache is what it returns.
  abbrev Agrees : WalCache Double × Double × ℤ → Type 0
  Agrees (w, bps, level) = (w.valid ≡ true) × (w.bytes_per_sec ≡ bps) × (w.pressure_level ≡ level)

  sample_cache-Agrees :
      (c : Config) (wal_bytes : ℕ) (now : ℤ) (w : WalCache Double)
      → Agrees (sample_cache c wal_bytes now w)
  unfolding sample_cache
  sample_cache-Agrees c wal_bytes now w = elim (Bool-cases w.valid) [
    | inr first ↦ rw first (refl, refl, refl)
    | inl valid ↦ elim (Bool-cases (leb_ℤ (pos 1000000) (sub_int64 now w.sample_time))) [
      | inl elapsed ↦ rw (valid, elapsed) (refl, refl, refl)
      | inr recent ↦ rw (valid, recent) (refl, refl, refl)
    ]
  ]

  -- Reading the cache right after an update gives what the update returned, the ring keeps its
  -- events and stays valid, and a rate gets the points of its level.
  pub wal_cache_read-wal_sample_update :
      (c : Config) (wal_bytes : ℕ) (now : ℤ) (s : SharedState Double) (bps : Double)
      → IsValid s
      → let r = wal_sample_update c wal_bytes now (some s) in
        (t : SharedState Double) × (r.0 ≡ some t)
        × (wal_cache_read r.0 ≡ (r.1, r.2))
        × IsValid t
        × (t.events ≡ s.events)
        × (contents t ≡ contents s)
        × (pressure_score_wal F c bps ≡ points_of (wal_level c bps))
  unfolding wal_sample_update wal_cache_read pressure_score_wal wal_level
  wal_cache_read-wal_sample_update c wal_bytes now s bps v =
      let (w, rate, level) = sample_cache c wal_bytes now s.wal in
      let (valid, same_rate, same_level) = sample_cache-Agrees c wal_bytes now s.wal in
      (
        record s { wal = w },
        refl,
        rw (valid, same_rate, same_level) refl,
        record {
          room = v.room;
          small = v.small;
          slots = v.slots;
          head_in = v.head_in;
          count_in = v.count_in;
        },
        refl,
        contents-wal s w,
        ground arith,
      )
