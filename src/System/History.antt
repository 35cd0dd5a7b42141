-- ===== src/System/History.antt =====
-- What the segment of src/shmem.c holds after any steps of any backends.
use pg_circuit.Prelude.{
  ℕ, ◌≡◌, refl, sym, ap, ◌∙◌, subst, pos, true, List, [], ◌∷◌, ◌++◌, ℤ, Option, none, some,
}
use pg_circuit.Platform.{Float, Postgres}
use pg_circuit.Config.{Config}
use pg_circuit.Runtime.{RuntimeState}
use pg_circuit.Shmem.{SharedState, WalCache, shmem_magic, shmem_version}
use pg_circuit.Shmem.Wal.{wal_sample_update}
use pg_circuit.Shmem.Ring.Refine.{contents-wal}
use pg_circuit.Shmem.Ring.Calls.{
  Call, Log, empty_log, log_call, log_calls, record_call, Represents, record_call-Represents,
}
use pg_circuit.Relations.{Catalog}
use pg_circuit.Hooks.{Attempt, done, failed}
use mathlib.Core.List.{append-nil}
use pg_circuit.Collect.{collect_wal_signals, collect_rest, collect_runtime_state, collect_sessions}
use pg_circuit.System.{Agent}

log_calls-append :
    (p : Postgres) (cs : List Call) (c : Call) (l : Log)
    → log_calls p (cs ++ c ∷ []) l ≡ log_call p c (log_calls p cs l)
unfolding log_calls
log_calls-append p [] c l = refl
log_calls-append p (x ∷ cs) c l = log_calls-append p cs c (log_call p x l)

module _ (F : Float) (C : Catalog F.Double) (p : Postgres) where
  open F use {Double}

  -- The segment `s` is whole, and holds the newest part of the log of the recordings `calls`.
  pub record IsHistory (cfg : Config) (calls : List Call) (s : SharedState Double) : Type 0 where
    pub represents : Represents p s (log_calls p calls empty_log)
    pub size : pos s.capacity ≡ cfg.event_history_size
    pub magic : s.magic ≡ shmem_magic
    pub version : s.version ≡ shmem_version
    pub lock : s.lock ≡ true

  abbrev pub Holds : Config → List Call → Option (SharedState Double) → Type 0
  Holds cfg calls m = (s : SharedState Double) × (m ≡ some s) × IsHistory cfg calls s

  module _ (cfg : Config) where
    pub Holds-more :
        (calls : List Call) (m : Option (SharedState Double))
        → Holds cfg calls m
        → Holds cfg (calls ++ []) m
    Holds-more calls m h = subst (λ cs. Holds cfg cs m) (sym (append-nil calls)) h

    pub same :
        (calls : List Call) (s : SharedState Double)
        → IsHistory cfg calls s
        → Holds cfg (calls ++ []) (some s)
    same calls s h = Holds-more calls (some s) (s, refl, h)

    IsHistory-wal :
        (calls : List Call) (s : SharedState Double) (w : WalCache Double)
        → IsHistory cfg calls s
        → IsHistory cfg calls (record s { wal = w })
    IsHistory-wal calls s w h = record {
      represents = record {
        valid = record {
          room = h.represents.valid.room;
          small = h.represents.valid.small;
          slots = h.represents.valid.slots;
          head_in = h.represents.valid.head_in;
          count_in = h.represents.valid.count_in;
        };
        newest = contents-wal s w ∙ h.represents.newest;
        event_ids = h.represents.event_ids;
        decision_ids = h.represents.decision_ids;
      };
      size = h.size;
      magic = h.magic;
      version = h.version;
      lock = h.lock;
    }

    pub record_call-Holds :
        (calls : List Call) (c : Call) (s : SharedState Double)
        → IsHistory cfg calls s
        → Holds cfg (calls ++ c ∷ []) (record_call p c (some s))
    record_call-Holds calls c s h =
        let (t, e, seg, r) =
          record_call-Represents p c s (log_calls p calls empty_log) h.represents in
        (
          t,
          e,
          record {
            represents =
                subst (λ l. Represents p t l) (sym (log_calls-append p calls c empty_log)) r;
            size = ap pos seg.capacity ∙ h.size;
            magic = seg.magic ∙ h.magic;
            version = seg.version ∙ h.version;
            lock = seg.lock ∙ h.lock;
          },
        )

    collect_wal_signals-Holds :
        (calls : List Call) (c : Config) (bytes : Option ℕ) (now : ℤ) (s : SharedState Double)
        (st : RuntimeState Double)
        → IsHistory cfg calls s
        → Holds cfg calls (collect_wal_signals F c bytes now (some s) st).0
    unfolding collect_wal_signals wal_sample_update
    collect_wal_signals-Holds calls c none now s st h = (s, refl, h)
    collect_wal_signals-Holds calls c (some bytes) now s st h = (_, refl, IsHistory-wal calls s _ h)

    collect_rest-Holds :
        (calls : List Call) (a : Agent) (s : SharedState Double) (r : Attempt (RuntimeState Double))
        → IsHistory cfg calls s
        → Holds cfg calls (collect_rest F C p a.config a.server (some s) r).0
    unfolding collect_rest
    collect_rest-Holds calls a s (failed e) h = (s, refl, h)
    collect_rest-Holds calls a s (done st) h =
        collect_wal_signals-Holds calls a.config a.server.wal_bytes a.server.wal_now s st h

    pub collect-Holds :
        (calls : List Call) (a : Agent) (s : SharedState Double)
        → IsHistory cfg calls s
        → Holds cfg calls (collect_runtime_state F C p a.config a.server (some s)).0
    unfolding collect_runtime_state
    collect-Holds calls a s h =
        collect_rest-Holds calls a s (collect_sessions F C p a.config a.server) h
