-- ===== src/Examples/Transactions.antt =====
-- Inputs for src/transactions.c.
use pg_circuit.Prelude.{ℤ, pos, true, false, List, [], ◌∷◌, Option, none, some, sub_int64, arith}
use pg_circuit.Config.{defaults}
use pg_circuit.Transactions.{
  BackendState, BackendStatus, long_limit_us, age_us, collect_transaction_signals,
}
use pg_circuit.Transactions.Counts.{Tallies, collect_transaction_signals_lem}
use pg_circuit.Examples.Values.{whole, calm}

abbrev client : ℤ → BackendState → ℤ → Option BackendStatus
client pid state start =
    some (record { procpid = pid; is_client = true; state = state; xact_start = start })

-- The own process, a background worker, an idle client, a running one, one that waits in an old transaction, and a gap.
abbrev entries : List (Option BackendStatus)
entries =
    client (pos 42) BackendState.running (pos 1)
    ∷ some (record {
      procpid = pos 41;
      is_client = false;
      state = BackendState.running;
      xact_start = pos 1000000;
    })
    ∷ client (pos 43) BackendState.idle (pos 0)
    ∷ client (pos 44) BackendState.running (pos 399000000)
    ∷ none
    ∷ client (pos 45) BackendState.idle_in_transaction (pos 1000000)
    ∷ []

collect_transaction_signals_lem_example :
    Tallies
      (collect_transaction_signals whole defaults
        (pos 400000000)
        (pos 42)
        (pos 100)
        (pos 3)
        entries
        calm)
      3
      2
      1
      1
unfolding age_us long_limit_us sub_int64
collect_transaction_signals_lem_example =
    collect_transaction_signals_lem whole defaults (pos 400000000) (pos 42) (pos 100) (pos 3)
      entries calm (omega arith)
