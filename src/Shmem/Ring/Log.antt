-- ===== src/Shmem/Ring/Log.antt =====
-- The event ring of src/shmem.c over its whole life: sequences of calls against an unbounded log.
use pg_circuit.Prelude.{
  ℕ, zero, suc, ◌+◌, ◌-◌, ◌^◌, ◌≤◌, ◌<◌, ◌≡◌, refl, ap, subst, ◌∙◌, pos, pos_part, add_int64,
  add_int64-pos, ◌||◌, List, [], ◌∷◌, length, take, min, none, inl, inr, take-take, Bool-cases,
  arith,
}
use pg_circuit.Platform.{Postgres}
use pg_circuit.Config.{Config, IsRegistered}
use pg_circuit.Shmem.{SharedEvent, make_slot, shmem_startup}
use pg_circuit.Shmem.Ring.{is_dropped, event_snapshot}
use pg_circuit.Shmem.Ring.Inv.{shmem_startup-IsValid}
use pg_circuit.Shmem.Ring.Refine.{event_snapshot-contents, empty-contents}
use pg_circuit.Shmem.Ring.Calls.{
  Call, Log, empty_log, log_call, log_calls, record_calls, record_calls-Represents,
}

-- The ids of consecutive events, newest first, from `n` down.
abbrev pub CountsDown : ℕ → List SharedEvent → Type 0
CountsDown n [] = Unit {0}
CountsDown n (e ∷ es) = (e.event_id ≡ pos n) × (e.decision_id ≡ pos n) × CountsDown (n - 1) es

module _ (p : Postgres) where
  module _ {D : Type 0} where
    -- From start-up with a registered configuration, a snapshot after any calls is the newest part
    -- of the log of those calls: as many entries as asked for, as there are, and as the configured
    -- history size allows.
    pub event_snapshot_refines :
        (z : D) (cfg : Config) (cs : List Call) (max_out : ℕ)
        → IsRegistered cfg
        → event_snapshot (record_calls p cs (shmem_startup z cfg none)) max_out
          ≡ take (min max_out (pos_part cfg.event_history_size)) (log_calls p cs empty_log).entries
    event_snapshot_refines z cfg cs max_out registered =
        let (s, started, valid, none_yet, cap, ids, decisions) =
          shmem_startup-IsValid z cfg registered in
        let (t, ran, kept, r) = record_calls-Represents p cs s empty_log (record {
          valid = valid;
          newest = empty-contents s none_yet;
          event_ids = ids;
          decision_ids = decisions;
        }) in
        let size : t.capacity ≡ pos_part cfg.event_history_size = kept.capacity ∙ ap pos_part cap in
        ap (λ r. event_snapshot r max_out) (ap (record_calls p cs) started ∙ ran)
        ∙ event_snapshot-contents t max_out
        ∙ ap (take max_out) r.newest
        ∙ take-take max_out t.capacity (log_calls p cs empty_log).entries
        ∙ ap (λ n. take (min max_out n) (log_calls p cs empty_log).entries) size

  -- The ids of a log's entries, newest first, count down to 1.
  abbrev pub Numbered : List SharedEvent → Type 0
  Numbered [] = Unit {0}
  Numbered (e ∷ es) =
      (e.event_id ≡ pos (length es + 1)) × (e.decision_id ≡ pos (length es + 1)) × Numbered es

  record IsNumbered (l : Log) : Type 0 where
    ids : Numbered l.entries
    events_used : l.event_ids ≡ pos (length l.entries)
    decisions_used : l.decision_ids ≡ pos (length l.entries)

  log_call-IsNumbered :
      (c : Call) (l : Log)
      → length l.entries + 1 < 2 ^ 63
      → IsNumbered l
      → IsNumbered (log_call p c l) × (length (log_call p c l).entries ≤ length l.entries + 1)
  unfolding log_call make_slot
  log_call-IsNumbered c l h n = elim (Bool-cases (c.full || is_dropped c.event c.policy)) [
    | inl refused ↦ rw refused (n, omega arith)
    | inr taken ↦
        let used = length l.entries in
        let next : add_int64 (pos used) (pos 1) ≡ pos (used + 1) = add_int64-pos used 1 h in
        let size : pos (used + 1) ≡ pos (suc used) = ap pos (omega arith) in
        rw taken (
          record {
            ids = (rw n.events_used next, rw n.decisions_used next, n.ids);
            events_used = rw n.events_used (next ∙ size);
            decisions_used = rw n.decisions_used (next ∙ size);
          },
          omega arith,
        )
  ]

  log_calls-IsNumbered :
      (cs : List Call) (l : Log)
      → length l.entries + length cs < 2 ^ 63
      → IsNumbered l
      → IsNumbered (log_calls p cs l)
  unfolding log_calls
  log_calls-IsNumbered [] l h n = n
  log_calls-IsNumbered (c ∷ cs) l h n =
      let (n', more) = log_call-IsNumbered c l (omega arith) n in
      log_calls-IsNumbered cs (log_call p c l) (omega arith) n'

  pub CountsDown-take :
      (k : ℕ) (es : List SharedEvent) → Numbered es → CountsDown (length es) (take k es)
  CountsDown-take zero es h = tt
  CountsDown-take (suc k) [] h = tt
  CountsDown-take (suc k) (e ∷ es) h =
      let size : length es + 1 ≡ suc (length es) = omega arith in
      let less : length es ≡ suc (length es) - 1 = omega arith in
      (
        h.0 ∙ ap pos size,
        h.1 ∙ ap pos size,
        subst (λ n. CountsDown n (take k es)) less (CountsDown-take k es h.2),
      )

  pub log_calls-Numbered :
      (cs : List Call) → length cs < 2 ^ 63 → Numbered (log_calls p cs empty_log).entries
  log_calls-Numbered cs h =
      (log_calls-IsNumbered cs empty_log (omega arith)
        (record { ids = tt; events_used = refl; decisions_used = refl })).ids

  -- A snapshot after fewer than 2^63 calls from start-up has consecutive event ids and decision
  -- ids, newest first, from the number of accepted calls down: no id is skipped or used twice.
  pub event_snapshot-CountsDown :
      {D : Type 0} (z : D) (cfg : Config) (cs : List Call) (max_out : ℕ)
      → IsRegistered cfg
      → length cs < 2 ^ 63
      → CountsDown
          (length (log_calls p cs empty_log).entries)
          (event_snapshot (record_calls p cs (shmem_startup z cfg none)) max_out)
  event_snapshot-CountsDown z cfg cs max_out registered h =
      rw (event_snapshot_refines z cfg cs max_out registered) (
        CountsDown-take (min max_out (pos_part cfg.event_history_size))
          (log_calls p cs empty_log).entries (log_calls-Numbered cs h))
