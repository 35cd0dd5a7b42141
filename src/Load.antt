-- ===== src/Load.antt =====
-- src/pg_circuit.c: loading and unloading the module, with the hooks of src/shmem.c for shared memory.
use pg_circuit.Prelude.{
  ℕ, ◌+◌, ◌*◌, ◌≡◌, refl, sym, ap, ◌∙◌, map, Option, List, [], ◌∷◌, ◌++◌, length, length-replicate,
  none, some, CString, codes,
}
use pg_circuit.Config.{Config, IsRegistered}
use pg_circuit.Config.Register.{GucServer, Enforces, register_gucs, set_all}
use pg_circuit.Config.Ranges.{register_gucs-IsRegistered}
use pg_circuit.Shmem.{
  SharedState, zero_event, ring_capacity, shared_memsize, fresh_state, shmem_startup,
}
use pg_circuit.Hooks.Chain.{
  Hook, ours, Slot, Hooks, install_slot, uninstall_slot, install_hooks, uninstall_hooks,
  IsInstalled, Restores,
}

-- What loading changes: the hooks for statements, the two hooks for shared memory, and the variables of
-- the settings.
pub record Process : Type 0 where
  pub hooks : Hooks
  pub shmem_request : Slot
  pub shmem_startup : Slot
  pub config : Config

-- `pg_circuit_shmem_register`
unfoldable pub shmem_register : Process → Process
shmem_register t = record t {
  shmem_request = record { current = some ours; prev = t.shmem_request.current };
  shmem_startup = record { current = some ours; prev = t.shmem_startup.current };
}

-- `_PG_init`
unfoldable pub pg_init : GucServer → Process → Process
unfolding shmem_register
pg_init g t =
    let t' = shmem_register (record t { config = register_gucs g t.config }) in
    record t' { hooks = install_hooks t'.hooks }

-- `_PG_fini`
unfoldable pub pg_fini : Process → Process
pg_fini t = record t { hooks = uninstall_hooks t.hooks }

-- What `pg_circuit_shmem_request` does: the former hook, the space and the lock.
pub data Request : Type 0 where
  call_hook : Hook → Request
  addin_space : ℕ → Request
  lwlock_tranche : CString → ℕ → Request

-- `if (prev_hook) prev_hook();`
unfoldable pub call_former : Slot → List Hook
call_former s = elim s.prev [ some h ↦ h ∷ [] | none ↦ [] ]

-- `pg_circuit_shmem_request`, from the offset of `events` and the size of a slot.
unfoldable pub shmem_request : ℕ → ℕ → Config → Slot → List Request
shmem_request offset slot c s =
    map call_hook (call_former s)
    ++ addin_space (shared_memsize offset slot c) ∷ lwlock_tranche (codes "pg_circuit") 1 ∷ []

-- `pg_circuit_shmem_startup` with the hook that it calls first, from the former hook of its variable, the
-- double 0, the settings and the segment that is there, if any.
unfoldable pub shmem_startup_hook :
    {D : Type 0} → Slot → D → Config → Option (SharedState D) → List Hook × Option (SharedState D)
unfolding call_former
shmem_startup_hook s z c m = (call_former s, shmem_startup z c m)

-- What a variable held, as a list.
abbrev pub held : Option Hook → List Hook
held none = []
held (some h) = h ∷ []

-- The space for `n` bytes and the lock, requested behind the requests of the former hook.
abbrev pub requests_behind : Option Hook → ℕ → List Request
requests_behind none n = addin_space n ∷ lwlock_tranche (codes "pg_circuit") 1 ∷ []
requests_behind (some h) n =
    call_hook h ∷ addin_space n ∷ lwlock_tranche (codes "pg_circuit") 1 ∷ []

-- What holds after loading the module in a process, unloading included: the settings are in their
-- ranges; the hooks for statements are installed, and restored by unloading; the hooks for shared memory stay; the one
-- for requests calls the former hook, if there is any, and then requests the space of the segment `s` and
-- one lock, and nothing else; and the one for start-up, under the settings `later`, calls its former hook
-- and makes the segment `s`.
pub record IsLoaded {D : Type 0} (g : GucServer) (z : D) (offset slot : ℕ) (later : Config)
    (t : Process) (s : SharedState D) : Type 0 where
  pub settings : IsRegistered (pg_init g t).config
  pub installed : IsInstalled (pg_init g t).hooks
  pub restores : Restores t.hooks (pg_fini (pg_init g t)).hooks
  pub startup_stays : (pg_fini (pg_init g t)).shmem_startup.current ≡ some ours
  pub request_stays : (pg_fini (pg_init g t)).shmem_request.current ≡ some ours
  pub requested :
      shmem_request offset slot (pg_init g t).config (pg_init g t).shmem_request
      ≡ requests_behind t.shmem_request.current (offset + length s.events * slot)
  pub started :
      shmem_startup_hook (pg_init g t).shmem_startup z later none
      ≡ (held t.shmem_startup.current, some s)

-- The number of slots depends on the size of the history alone.
ring_capacity-size :
    (c d : Config) → c.event_history_size ≡ d.event_history_size → ring_capacity c ≡ ring_capacity d
unfolding ring_capacity
ring_capacity-size c d h = rw h refl

-- The former hook goes first, if there is any.
call_former-held : (s : Slot) → call_former s ≡ held s.prev
unfolding call_former
call_former-held s = by_former s.prev
  where
    by_former :
        (c : Option Hook) → (elim c as (λ x. List Hook) [ some h ↦ h ∷ [] | none ↦ [] ]) ≡ held c
    by_former none = refl
    by_former (some h) = refl

requests_behind-held :
    (c : Option Hook) (n : ℕ)
    → map call_hook (held c) ++ addin_space n ∷ lwlock_tranche (codes "pg_circuit") 1 ∷ []
      ≡ requests_behind c n
requests_behind-held none n = refl
requests_behind-held (some h) n = refl

shmem_request-requests_behind :
    (offset slot : ℕ) (c : Config) (s : Slot)
    → shmem_request offset slot c s ≡ requests_behind s.prev (shared_memsize offset slot c)
unfolding shmem_request
shmem_request-requests_behind offset slot c s =
    rw (call_former-held s) (requests_behind-held s.prev (shared_memsize offset slot c))

-- Where PostgreSQL enforces what it is told about the settings: loading the module leaves every
-- setting in its range and takes over the hooks for statements, which unloading restores. Its hook for
-- requests, which stays, calls the former hook, if there is any, and then requests exactly the space of
-- the segment that a first start-up makes, and one lock; and its hook for start-up, which stays, calls
-- the former one, if there is any, and makes that segment, also when settings change in between.
pub pg_init-IsLoaded :
    {D : Type 0} (g : GucServer) (z : D) (offset slot : ℕ) (changes : List (ℕ × CString))
    (t : Process)
    → Enforces g
    → (s : SharedState D) × IsLoaded g z offset slot (set_all g changes (pg_init g t).config) t s
unfolding pg_init pg_fini shmem_startup shmem_startup_hook fresh_state shared_memsize install_hooks
    uninstall_hooks install_slot uninstall_slot
pg_init-IsLoaded {D} g z offset slot changes t e =
    let c = register_gucs g t.config in
    let later = set_all g changes c in
    let segment : SharedState D = fresh_state z (ring_capacity later) in
    let (ranges, later_ranges, size, boots) = register_gucs-IsRegistered g t.config changes e in
    (
      segment,
      record {
        settings = ranges;
        installed = record {
          planner = refl;
          process_utility = refl;
          executor_start = refl;
          executor_end = refl;
        };
        restores = record {
          planner = refl;
          process_utility = refl;
          executor_start = refl;
          executor_end = refl;
        };
        startup_stays = refl;
        request_stays = refl;
        requested =
            shmem_request-requests_behind offset slot c (pg_init g t).shmem_request
            ∙ ap (λ n. requests_behind t.shmem_request.current (offset + n * slot))
                (sym (
                  length-replicate (ring_capacity later) zero_event
                  ∙ ring_capacity-size later c size));
        started = ap (λ l. (l, some segment)) (call_former-held (pg_init g t).shmem_startup);
      },
    )
