-- ===== src/Sql/Sets/Drain.antt =====
-- What a query gets from the set-returning functions of src/pg_circuit.c.
use pg_circuit.Prelude.{
  ℕ, zero, suc, ◌+◌, ◌<◌, ◌≡◌, refl, sym, ap, ◌∙◌, subst, ltb, false, List, [], ◌∷◌, length, map,
  get_or, Option, none, some, arith, lt→ltb,
}
use pg_circuit.Hooks.{Attempt, done}
use pg_circuit.Sql.Sets.{FuncCall, Reply, next, finished, per_call}

-- The calls of a query, from number `n` on and with the context `fctx`, where the call with number `k`
-- is `call k`: each returns a row, until one returns that there are no more. The rows are `rows`.
pub data Run {A R : Type 0} (call : ℕ → Option (FuncCall A) → Attempt (FuncCall A × Reply R))
    : ℕ → Option (FuncCall A) → List R → Type 0 where
  stop :
      {n : ℕ} {fctx : Option (FuncCall A)} {ctx : FuncCall A}
      → call n fctx ≡ done (ctx, finished)
      → Run call n fctx []
  step :
      {n : ℕ} {fctx : Option (FuncCall A)} {ctx : FuncCall A} {r : R} {rows : List R}
      → call n fctx ≡ done (ctx, next r)
      → Run call (suc n) (some ctx) rows
      → Run call n fctx (r ∷ rows)

drop_rows {ℓ} : {A : Type ℓ} → ℕ → List A → List A
drop_rows zero xs = xs
drop_rows (suc n) [] = []
drop_rows (suc n) (x ∷ xs) = drop_rows n xs

drop_rows-step :
    {A : Type 0} (missing : A) (k : ℕ) (xs : List A)
    → k < length xs
    → drop_rows k xs ≡ get_or xs k missing ∷ drop_rows (suc k) xs
unfolding drop_rows
drop_rows-step missing k [] h = absurd (omega arith)
drop_rows-step missing zero (x ∷ xs) h = refl
drop_rows-step missing (suc k) (x ∷ xs) h = drop_rows-step missing k xs (omega arith)

drop_rows_end : {A : Type 0} (xs : List A) → drop_rows (length xs) xs ≡ []
unfolding drop_rows
drop_rows_end [] = refl
drop_rows_end (x ∷ xs) = drop_rows_end xs

module _ {A R : Type 0} (missing : A) (row : A → R) (limit : FuncCall A → ℕ) where
  -- The context after `j` calls on the list `xs`.
  abbrev pub at : List A → ℕ → FuncCall A
  at xs j = record { user_fctx = xs; max_calls = length xs; call_cntr = j }

  per_call_next :
      (xs : List A) (j : ℕ)
      → limit (at xs j) ≡ length xs
      → j < length xs
      → per_call missing row limit (at xs j) ≡ (at xs (j + 1), next (row (get_or xs j missing)))
  unfolding per_call
  per_call_next xs j bound h = rw (bound, lt→ltb j (length xs) h) refl

  per_call_end :
      (xs : List A)
      → limit (at xs (length xs)) ≡ length xs
      → per_call missing row limit (at xs (length xs)) ≡ (at xs (length xs), finished)
  unfolding per_call
  per_call_end xs bound =
      let h : ltb (length xs) (length xs) ≡ false = ground arith in rw (bound, h) refl

  module _ (call : ℕ → Option (FuncCall A) → Attempt (FuncCall A × Reply R)) where
    Run-from :
        (xs : List A)
        → ((j : ℕ) → limit (at xs j) ≡ length xs)
        → ((n : ℕ) (ctx : FuncCall A) → call n (some ctx) ≡ done (per_call missing row limit ctx))
        → (left j n : ℕ) (fctx : Option (FuncCall A)) → j + left ≡ length xs
        → call n fctx ≡ done (per_call missing row limit (at xs j))
        → Run call n fctx (map row (drop_rows j xs))
    Run-from xs bound later zero j n fctx count e =
        let here : j ≡ length xs = omega arith in
        let e' = subst (λ k. call n fctx ≡ done (per_call missing row limit (at xs k))) here e in
        subst (λ k. Run call n fctx (map row (drop_rows k xs))) (sym here)
          (rw (drop_rows_end xs)
            (stop (e' ∙ ap (λ t. done t) (per_call_end xs (bound (length xs))))))
    Run-from xs bound later (suc left) j n fctx count e =
        let rest =
          Run-from xs bound later left (j + 1) (suc n) (some (at xs (j + 1))) (omega arith)
            (later (suc n) (at xs (j + 1))) in
        let same : j + 1 ≡ suc j = omega arith in
        rw (drop_rows-step missing j xs (omega arith)) (
          step (e ∙ ap (λ t. done t) (per_call_next xs j (bound j) (omega arith))) (
            subst (λ k. Run call (suc n) (some (at xs (j + 1))) (map row (drop_rows k xs))) same
              rest))

    -- The calls from the first on return a row for each element.
    pub Run-whole :
        (xs : List A)
        → ((j : ℕ) → limit (at xs j) ≡ length xs)
        → ((n : ℕ) (ctx : FuncCall A) → call n (some ctx) ≡ done (per_call missing row limit ctx))
        → call 0 none ≡ done (per_call missing row limit (at xs 0))
        → Run call 0 none (map row xs)
    unfolding drop_rows
    Run-whole xs bound later first =
        Run-from xs bound later (length xs) 0 0 none (omega arith) first
