-- ===== src/Transactions.antt =====
-- src/transactions.c: the scan of the backends for transaction signals.
pub mod Tests
pub mod Counts
use pg_circuit.Prelude.{
  ℕ, zero, ◌+◌, ◌*◌, ℤ, pos, leb_ℤ, ltb_ℤ, add_int, sub_int64, Bool, true, false, not, ◌&&◌, ◌||◌,
  if◌then◌else◌, List, [], ◌∷◌, Option, none, some, wrap, ◌*ℤ◌, ◌^◌,
}
use pg_circuit.Platform.{Float}
use pg_circuit.Config.{Config}
use pg_circuit.Runtime.{RuntimeState}

-- The states of a backend, as far as the scan tells them apart.
pub data BackendState : Type 0 where
  undefined idle running idle_in_transaction idle_in_transaction_aborted another : BackendState

-- `PgBackendStatus`; `is_client` is `st_backendType == B_BACKEND`.
pub record BackendStatus : Type 0 where
  pub procpid : ℤ
  pub is_client : Bool
  pub state : BackendState
  pub xact_start : ℤ

abbrev pub eq_ℤ : ℤ → ℤ → Bool
eq_ℤ a b = leb_ℤ a b && leb_ℤ b a

abbrev pub is_idle : BackendState → Bool
is_idle BackendState.idle = true
is_idle s = false

abbrev pub is_running : BackendState → Bool
is_running BackendState.running = true
is_running s = false

abbrev pub is_undefined : BackendState → Bool
is_undefined BackendState.undefined = true
is_undefined s = false

abbrev pub waits_in_transaction : BackendState → Bool
waits_in_transaction BackendState.idle_in_transaction = true
waits_in_transaction BackendState.idle_in_transaction_aborted = true
waits_in_transaction s = false

-- The entry is no process, the own process or no client.
abbrev pub is_skipped : ℤ → BackendStatus → Bool
is_skipped my_pid e = leb_ℤ e.procpid (pos 0) || eq_ℤ e.procpid my_pid || not e.is_client

abbrev pub is_closed : BackendStatus → Bool
is_closed e = is_undefined e.state || is_idle e.state

-- `age_us`
unfoldable pub age_us : ℤ → ℤ → ℤ
age_us now start = let age = sub_int64 now start in if ltb_ℤ age (pos 0) then pos 0 else age

-- `long_limit_us`
unfoldable pub long_limit_us : Config → ℤ
long_limit_us c = wrap (2 ^ 63) (c.long_transaction_seconds *ℤ pos 1000000)

module _ (F : Float) (now my_pid limit : ℤ) where
  open F use {Double, of_int, decimal, div, lt}

  -- The increments for a connection, before its transaction is looked at.
  unfoldable pub count_connection : BackendStatus → RuntimeState Double → RuntimeState Double
  count_connection e st = record st {
    active_connections = add_int st.active_connections (pos 1);
    idle_connections =
        if is_idle e.state then add_int st.idle_connections (pos 1) else st.idle_connections;
    active_query_backends =
        if not (is_idle e.state) && is_running e.state
        then add_int st.active_query_backends (pos 1)
        else st.active_query_backends;
  }

  -- The increments for an open transaction.
  unfoldable pub count_transaction : BackendStatus → RuntimeState Double → RuntimeState Double
  unfolding age_us
  count_transaction e st =
      let age = age_us now e.xact_start in
      let seconds = div (of_int age) (decimal 1000000 1) in
      let waits = waits_in_transaction e.state in
      record st {
        active_transactions = add_int st.active_transactions (pos 1);
        oldest_transaction_age_seconds =
            if lt st.oldest_transaction_age_seconds seconds
            then seconds
            else st.oldest_transaction_age_seconds;
        idle_in_transaction =
            if waits then add_int st.idle_in_transaction (pos 1) else st.idle_in_transaction;
        oldest_idle_in_transaction_age_seconds =
            if waits && lt st.oldest_idle_in_transaction_age_seconds seconds
            then seconds
            else st.oldest_idle_in_transaction_age_seconds;
        long_transactions =
            if leb_ℤ limit age then add_int st.long_transactions (pos 1) else st.long_transactions;
      }

  -- The `continue`s of a round, by their tests.
  unfoldable pub count_tested :
      Bool → Bool → Bool → BackendStatus → RuntimeState Double → RuntimeState Double
  unfolding count_connection count_transaction
  count_tested skipped closed unset e st =
      let st' = count_connection e st in
      if skipped then st else if closed then st' else if unset then st' else count_transaction e st'

  -- One round of the loop; `none` is a null entry.
  unfoldable pub count_backend : Option BackendStatus → RuntimeState Double → RuntimeState Double
  unfolding count_tested
  count_backend none st = st
  count_backend (some e) st =
      count_tested (is_skipped my_pid e) (is_closed e) (eq_ℤ e.xact_start (pos 0)) e st

  unfoldable pub count_backends :
      List (Option BackendStatus) → RuntimeState Double → RuntimeState Double
  unfolding count_backend
  count_backends [] st = st
  count_backends (e ∷ es) st = count_backends es (count_backend e st)

-- `pg_circuit_collect_transaction_signals`: the two settings of the server are `MaxConnections` and
-- `SuperuserReservedConnections`.
unfoldable pub collect_transaction_signals :
    (F : Float)
    → Config
    → ℤ
    → ℤ
    → ℤ
    → ℤ
    → List (Option BackendStatus)
    → RuntimeState F.Double
    → RuntimeState F.Double
unfolding count_backends long_limit_us
collect_transaction_signals F c now my_pid maximum reserved entries st =
    count_backends F now my_pid (long_limit_us c) entries (record st {
      active_connections = pos 0;
      idle_connections = pos 0;
      active_query_backends = pos 0;
      active_transactions = pos 0;
      long_transactions = pos 0;
      idle_in_transaction = pos 0;
      oldest_transaction_age_seconds = F.decimal 0 1;
      oldest_idle_in_transaction_age_seconds = F.decimal 0 1;
      max_connections = maximum;
      reserved_connections = reserved;
    })
