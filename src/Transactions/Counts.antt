-- ===== src/Transactions/Counts.antt =====
-- What the counters of src/transactions.c count.
use pg_circuit.Prelude.{
  ℕ, ◌+◌, ◌≤◌, ◌<◌, ◌^◌, ◌≡◌, refl, ℤ, pos, leb_ℤ, ap, ◌∙◌, add_int, add_int-pos, Bool, true, false,
  not, ◌&&◌, if◌then◌else◌, List, [], ◌∷◌, length, Option, none, some, arith,
}
use pg_circuit.Platform.{Float}
use pg_circuit.Config.{Config}
use pg_circuit.Runtime.{RuntimeState}
use pg_circuit.Transactions.Tests.{
  is_other_client, is_open, is_waiting, is_long, kept_lem, waits_lem, age_us_lem, and_lem, open_lem,
}
use pg_circuit.Transactions.{
  BackendStatus, eq_ℤ, is_skipped, is_closed, count_tested, waits_in_transaction, age_us,
  long_limit_us, count_backend, count_backends, collect_transaction_signals,
}

abbrev pub bump : Bool → ℕ → ℕ
bump true n = n + 1
bump false n = n

-- `n` and how many entries pass a test.
abbrev pub count_from : ℕ → (BackendStatus → Bool) → List (Option BackendStatus) → ℕ
count_from n test [] = n
count_from n test (none ∷ es) = count_from n test es
count_from n test (some e ∷ es) = count_from (bump (test e) n) test es

bump_lem :
    (b : Bool) (x : ℤ) (n : ℕ)
    → n + 1 < 2 ^ 31
    → x ≡ pos n
    → (if b then add_int x (pos 1) else x) ≡ pos (bump b n)
bump_lem true x n small h = rw h (add_int-pos n 1 small)
bump_lem false x n small h = h

bump-bounds : (b : Bool) (n k : ℕ) → n ≤ k → bump b n ≤ k + 1
bump-bounds true n k h = omega arith
bump-bounds false n k h = omega arith

-- The counters of a state.
pub record Tallies {D : Type 0} (st : RuntimeState D) (c t w l : ℕ) : Type 0 where
  pub clients : st.active_connections ≡ pos c
  pub transactions : st.active_transactions ≡ pos t
  pub waiting : st.idle_in_transaction ≡ pos w
  pub long : st.long_transactions ≡ pos l

Tallies-cast :
    {D : Type 0} (st : RuntimeState D) {c c' t t' w w' l l' : ℕ}
    → c ≡ c'
    → t ≡ t'
    → w ≡ w'
    → l ≡ l'
    → Tallies st c t w l
    → Tallies st c' t' w' l'
Tallies-cast st ce te we le h = record {
  clients = h.clients ∙ ap pos ce;
  transactions = h.transactions ∙ ap pos te;
  waiting = h.waiting ∙ ap pos we;
  long = h.long ∙ ap pos le;
}

module _ (F : Float) (now my_pid limit : ℤ) where
  open F use {Double}

  -- The counters lie below `k`.
  abbrev Few : ℕ → ℕ → ℕ → ℕ → ℕ → Type 0
  Few k c t w l = (c ≤ k) × (t ≤ k) × (w ≤ k) × (l ≤ k)

  count_tested-Tallies :
      (s d u : Bool) (e : BackendStatus) (st : RuntimeState Double) (k c t w l : ℕ)
      → k + 1 < 2 ^ 31
      → Few k c t w l
      → Tallies st c t w l
      → let open_now = not s && (not d && not u) in
        Tallies
          (count_tested F now my_pid limit s d u e st)
          (bump (not s) c)
          (bump open_now t)
          (bump (open_now && waits_in_transaction e.state) w)
          (bump (open_now && leb_ℤ limit (age_us now e.xact_start)) l)
  unfolding count_tested
  count_tested-Tallies true d u e st k c t w l small few h = h
  count_tested-Tallies false true u e st k c t w l small few h = record {
    clients = bump_lem true st.active_connections c (omega (arith, few.0)) h.clients;
    transactions = h.transactions;
    waiting = h.waiting;
    long = h.long;
  }
  count_tested-Tallies false false true e st k c t w l small few h = record {
    clients = bump_lem true st.active_connections c (omega (arith, few.0)) h.clients;
    transactions = h.transactions;
    waiting = h.waiting;
    long = h.long;
  }
  count_tested-Tallies false false false e st k c t w l small few h = record {
    clients = bump_lem true st.active_connections c (omega (arith, few.0)) h.clients;
    transactions = bump_lem true st.active_transactions t (omega (arith, few.1)) h.transactions;
    waiting =
        bump_lem (waits_in_transaction e.state) st.idle_in_transaction w (omega (arith, few.2))
          h.waiting;
    long =
        bump_lem (leb_ℤ limit (age_us now e.xact_start)) st.long_transactions l
          (omega (arith, few.3)) h.long;
  }

  count_backends-Tallies :
      (es : List (Option BackendStatus)) (st : RuntimeState Double) (k c t w l : ℕ)
      → k + length es < 2 ^ 31
      → Few k c t w l
      → Tallies st c t w l
      → Tallies
          (count_backends F now my_pid limit es st)
          (count_from c (is_other_client my_pid) es)
          (count_from t (is_open my_pid) es)
          (count_from w (is_waiting my_pid) es)
          (count_from l (is_long now my_pid limit) es)
  unfolding count_backends count_backend
  count_backends-Tallies [] st k c t w l small few h = h
  count_backends-Tallies (none ∷ es) st k c t w l small few h =
      count_backends-Tallies es st k c t w l (omega arith) few h
  count_backends-Tallies (some e ∷ es) st k c t w l small few h =
      count_backends-Tallies es _ (k + 1) _ _ _ _ (omega arith)
        (
          bump-bounds (is_other_client my_pid e) c k few.0,
          bump-bounds (is_open my_pid e) t k few.1,
          bump-bounds (is_waiting my_pid e) w k few.2,
          bump-bounds (is_long now my_pid limit e) l k few.3,
        )
        (Tallies-cast _ (ap (λ b. bump b c) (kept_lem my_pid e))
          (ap (λ b. bump b t) (open_lem my_pid e))
          (ap (λ b. bump b w) (and_lem (open_lem my_pid e) (waits_lem e.state)))
          (ap (λ b. bump b l) (and_lem (open_lem my_pid e) (age_us_lem now e.xact_start limit)))
          (count_tested-Tallies (is_skipped my_pid e) (is_closed e) (eq_ℤ e.xact_start (pos 0)) e st
            k c t w l (omega arith) few h))

-- With fewer than 2^31 backends each counter holds how many entries are client backends other than
-- the own one, have a transaction open besides, wait for their client inside it, or have had it open for
-- the limit.
pub collect_transaction_signals_lem :
    (F : Float) (c : Config) (now my_pid maximum reserved : ℤ) (es : List (Option BackendStatus))
    (st : RuntimeState F.Double)
    → length es < 2 ^ 31
    → Tallies
        (collect_transaction_signals F c now my_pid maximum reserved es st)
        (count_from 0 (is_other_client my_pid) es)
        (count_from 0 (is_open my_pid) es)
        (count_from 0 (is_waiting my_pid) es)
        (count_from 0 (is_long now my_pid (long_limit_us c)) es)
unfolding collect_transaction_signals
collect_transaction_signals_lem F c now my_pid maximum reserved es st small =
    count_backends-Tallies F now my_pid (long_limit_us c) es _ 0 0 0 0 0 (omega arith) (omega arith)
      (record { clients = refl; transactions = refl; waiting = refl; long = refl })
