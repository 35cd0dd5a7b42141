-- ===== src/Examples/Replication.antt =====
-- Inputs for src/replication.c.
use pg_circuit.Prelude.{pos, negsuc, List, [], ◌∷◌}
use pg_circuit.Replication.{WalSender}

-- A free slot, and a replica that replays 12 seconds late.
abbrev senders : List WalSender
senders =
    record { pid = 0; reply_time = pos 0; write_lag = pos 0; flush_lag = pos 0; apply_lag = pos 0 }
    ∷ record {
      pid = 77;
      reply_time = pos 99000000;
      write_lag = pos 2000000;
      flush_lag = negsuc 0;
      apply_lag = pos 12000000;
    }
    ∷ []
