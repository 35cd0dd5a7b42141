-- ===== src/System/Refine.antt =====
-- The extension against an unbounded log of the recordings for checks.
use pg_circuit.Prelude.{
  ℕ, ◌^◌, ◌<◌, ◌≡◌, sym, ap, ◌∙◌, pos_part, List, [], length, take, min, Option, none, some,
  take-take,
}
use mathlib.Core.Option.{some-injective}
use pg_circuit.Platform.{Float, Postgres}
use pg_circuit.Config.{Config, IsRegistered}
use pg_circuit.Shmem.{SharedState, fresh_state, ring_capacity, shmem_startup}
use pg_circuit.Shmem.Ring.{event_snapshot}
use pg_circuit.Shmem.Ring.Inv.{IsValid, shmem_startup-IsValid}
use pg_circuit.Shmem.Ring.Refine.{event_snapshot-contents, empty-contents}
use pg_circuit.Shmem.Ring.Calls.{Call, empty_log, log_calls}
use pg_circuit.Shmem.Ring.Log.{CountsDown, CountsDown-take, log_calls-Numbered}
use pg_circuit.Relations.{Catalog}
use pg_circuit.System.{Reaches, created, stepped}
use pg_circuit.System.History.{Holds}
use pg_circuit.System.Steps.{Step-Holds}

module _ (F : Float) (C : Catalog F.Double) (p : Postgres) where
  open F use {Double}

  created-Holds :
      (z : Double) (c : Config) → IsRegistered c → Holds F C p c [] (shmem_startup z c none)
  unfolding shmem_startup log_calls
  created-Holds z c registered =
      let (s, started, valid, none_yet, cap, ids, decisions) =
        shmem_startup-IsValid z c registered in
      let fresh : fresh_state z (ring_capacity c) ≡ s = some-injective _ _ started in
      (
        s,
        started,
        record {
          represents = record {
            valid = valid;
            newest = empty-contents s none_yet;
            event_ids = ids;
            decision_ids = decisions;
          };
          size = cap;
          magic = sym (ap (λ t. t.magic) fresh);
          version = sym (ap (λ t. t.version) fresh);
          lock = sym (ap (λ t. t.lock) fresh);
        },
      )

  Reaches-Holds :
      (z : Double) (c : Config) (calls : List Call) {m : Option (SharedState Double)}
      → IsRegistered c
      → Reaches F C p z c calls m
      → Holds F C p c calls m
  Reaches-Holds z c calls registered created = created-Holds z c registered
  Reaches-Holds z c calls registered (stepped {calls = before} r step) =
      Step-Holds F C p c before step (Reaches-Holds z c before registered r)

  -- The segment is there and valid, and a snapshot is the newest part of the log of the recordings
  -- `calls`.
  pub record IsLogged (c : Config) (calls : List Call) (m : Option (SharedState Double))
      : Type 0 where
    pub segment : SharedState Double
    pub attached : m ≡ some segment
    pub valid : IsValid segment
    pub shown :
        (max_out : ℕ)
        → event_snapshot m max_out
          ≡ take (min max_out (pos_part c.event_history_size)) (log_calls p calls empty_log).entries

  -- From the creation of the segment with registered settings on, after any steps of any backends
  -- in any order, with whatever settings, server states and failures they meet: the segment is
  -- attached and valid, and a snapshot is the newest part of an unbounded log of all the recordings
  -- that the steps made, cut to the request and to the history size at the creation. A check of a
  -- listed statement makes one recording, unless the collection or the names fail or a fault is
  -- injected; showing the status or the runtime state and attaching to the segment make none.
  pub Reaches-IsLogged :
      (z : Double) (c : Config) (calls : List Call) (m : Option (SharedState Double))
      → IsRegistered c
      → Reaches F C p z c calls m
      → IsLogged c calls m
  Reaches-IsLogged z c calls m registered r =
      let (s, e, h) = Reaches-Holds z c calls registered r in
      record {
        segment = s;
        attached = e;
        valid = h.represents.valid;
        shown = λ max_out.
            ap (λ o. event_snapshot o max_out) e
            ∙ event_snapshot-contents s max_out
            ∙ ap (take max_out) h.represents.newest
            ∙ take-take max_out s.capacity (log_calls p calls empty_log).entries
            ∙ ap (λ k. take (min max_out k) (log_calls p calls empty_log).entries)
                (ap pos_part h.size);
      }

  -- From the creation of the segment with registered settings on, in fewer than 2^63 recordings made
  -- by any steps of any backends, no event id and no decision id is skipped or used twice, also when a
  -- backend attaches in between: the ids of a snapshot count down, newest first, from the number of
  -- events that all the recordings since the creation have logged.
  pub Reaches-CountsDown :
      (z : Double) (c : Config) (calls : List Call) (m : Option (SharedState Double)) (max_out : ℕ)
      → IsRegistered c
      → length calls < 2 ^ 63
      → Reaches F C p z c calls m
      → CountsDown (length (log_calls p calls empty_log).entries) (event_snapshot m max_out)
  Reaches-CountsDown z c calls m max_out registered small r =
      let h = Reaches-IsLogged z c calls m registered r in
      let log = (log_calls p calls empty_log).entries in
      rw (h.shown max_out) (
        CountsDown-take p (min max_out (pos_part c.event_history_size)) log
          (log_calls-Numbered p calls small))
