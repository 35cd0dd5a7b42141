-- ===== src/Transactions/Tests.antt =====
-- What an entry must be for a counter of src/transactions.c, written apart from the scan.
use pg_circuit.Prelude.{
  ◌≡◌, refl, ℤ, pos, leb_ℤ, ltb_ℤ, sub_int64, ◌||◌, Bool, true, false, not, ◌&&◌, if◌then◌else◌,
  arith,
}
use pg_circuit.Transactions.{
  BackendState, BackendStatus, eq_ℤ, is_skipped, is_idle, is_undefined, is_closed,
  waits_in_transaction, age_us,
}

-- A client backend other than the own one.
abbrev pub is_other_client : ℤ → BackendStatus → Bool
is_other_client my_pid e = e.is_client && (ltb_ℤ (pos 0) e.procpid && not (eq_ℤ e.procpid my_pid))

-- The states in which a backend may have a transaction open.
abbrev pub in_transaction : BackendState → Bool
in_transaction BackendState.undefined = false
in_transaction BackendState.idle = false
in_transaction BackendState.running = true
in_transaction BackendState.idle_in_transaction = true
in_transaction BackendState.idle_in_transaction_aborted = true
in_transaction BackendState.another = true

-- Such a backend with a transaction open.
abbrev pub is_open : ℤ → BackendStatus → Bool
is_open my_pid e =
    is_other_client my_pid e && (in_transaction e.state && not (eq_ℤ e.xact_start (pos 0)))

-- The states in which an open transaction waits for its client.
abbrev pub waits_for_client : BackendState → Bool
waits_for_client BackendState.undefined = false
waits_for_client BackendState.idle = false
waits_for_client BackendState.running = false
waits_for_client BackendState.idle_in_transaction = true
waits_for_client BackendState.idle_in_transaction_aborted = true
waits_for_client BackendState.another = false

-- Such a backend whose transaction waits for its client.
abbrev pub is_waiting : ℤ → BackendStatus → Bool
is_waiting my_pid e = is_open my_pid e && waits_for_client e.state

-- Such a backend whose transaction has the age `limit`, where no age is below 0.
abbrev pub is_long : ℤ → ℤ → ℤ → BackendStatus → Bool
is_long now my_pid limit e =
    is_open my_pid e && (leb_ℤ limit (sub_int64 now e.xact_start) || leb_ℤ limit (pos 0))

-- The tests of the scan are these.
pub kept_lem :
    (my_pid : ℤ) (e : BackendStatus) → not (is_skipped my_pid e) ≡ is_other_client my_pid e
kept_lem my_pid e = by_tests _ _ (eq_ℤ e.procpid my_pid) e.is_client (positive e.procpid)
  where
    positive : (a : ℤ) → not (leb_ℤ a (pos 0)) ≡ ltb_ℤ (pos 0) a
    positive a = ground arith

    by_tests :
        (low high own client : Bool)
        → not low ≡ high
        → not (low || own || not client) ≡ (client && (high && not own))
    by_tests low high own client h = ground (arith, h)

open_state_lem : (e : BackendStatus) → not (is_closed e) ≡ in_transaction e.state
open_state_lem e = by_state e.state
  where
    by_state : (s : BackendState) → not (is_undefined s || is_idle s) ≡ in_transaction s
    by_state BackendState.undefined = refl
    by_state BackendState.idle = refl
    by_state BackendState.running = refl
    by_state BackendState.idle_in_transaction = refl
    by_state BackendState.idle_in_transaction_aborted = refl
    by_state BackendState.another = refl

pub waits_lem : (s : BackendState) → waits_in_transaction s ≡ waits_for_client s
waits_lem BackendState.undefined = refl
waits_lem BackendState.idle = refl
waits_lem BackendState.running = refl
waits_lem BackendState.idle_in_transaction = refl
waits_lem BackendState.idle_in_transaction_aborted = refl
waits_lem BackendState.another = refl

pub age_us_lem :
    (now start limit : ℤ)
    → leb_ℤ limit (age_us now start) ≡ (leb_ℤ limit (sub_int64 now start) || leb_ℤ limit (pos 0))
unfolding age_us
age_us_lem now start limit = by_age (sub_int64 now start)
  where
    by_age :
        (age : ℤ)
        → leb_ℤ limit (if ltb_ℤ age (pos 0) then pos 0 else age)
          ≡ (leb_ℤ limit age || leb_ℤ limit (pos 0))
    by_age age = ground arith

pub and_lem : {a a' b b' : Bool} → a ≡ a' → b ≡ b' → (a && b) ≡ (a' && b')
and_lem h k = cc

pub open_lem :
    (my_pid : ℤ) (e : BackendStatus)
    → (not (is_skipped my_pid e) && (not (is_closed e) && not (eq_ℤ e.xact_start (pos 0))))
      ≡ is_open my_pid e
open_lem my_pid e = and_lem (kept_lem my_pid e) (and_lem (open_state_lem e) refl)
