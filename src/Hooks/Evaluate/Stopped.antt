-- ===== src/Hooks/Evaluate/Stopped.antt =====
-- The two hooks of src/hooks.c in enforce mode with fail_closed.
use Prim.Native.String.{String}
use pg_circuit.Prelude.{
  ◌≡◌, ◌⊎◌, inl, inr, refl, ◌∙◌, Bool, true, false, ◌&&◌, if◌then◌else◌, List, [], ◌∷◌, Option,
  none, some, CString, codes, arith, subst, ◌==◌, ap, sym,
}
use pg_circuit.Types.{QueryKind, LockClass}
use pg_circuit.Platform.{Float}
use pg_circuit.Risk.{QueryInfo}
use pg_circuit.Risk.Score.{is_destructive}
use pg_circuit.Shmem.{SharedState}
use pg_circuit.Relations.{Catalog}
use pg_circuit.Utility.{ObjectType, Node, mark_write, init_qinfo}
use pg_circuit.Utility.Fill.{fill-kind, fill-relation_oid}
use pg_circuit.Utility.Analyze.{analyze_utility, analyze_truncate, analyze_drop, analyze_dropdb}
use pg_circuit.QueryAnalysis.{CmdType, PlannedStmt, analyze_plannedstmt}
use pg_circuit.QueryAnalysis.Kinds.{IsUnfiltered, analyze_plannedstmt_lem}
use pg_circuit.Hooks.{Backend, Checked, should_skip_check, utility_may_be_risky}
use pg_circuit.Hooks.Evaluate.{process_utility, executor_start}
use pg_circuit.Hooks.Evaluate.Closed.{Raises, IsStrict, evaluate_and_apply-Raises}

module _ (F : Float) (C : Catalog F.Double) where
  open F use {Double}

  -- TRUNCATE, DROP DATABASE, and DROP TABLE without IF EXISTS or with a first table that exists.
  abbrev pub Destroys : Node C.RangeVar → Type 0
  Destroys (Node.truncate_stmt relations) = Unit {0}
  Destroys (Node.dropdb_stmt dbname) = Unit {0}
  Destroys (Node.drop_stmt ObjectType.table objects false) = Unit {0}
  Destroys (Node.drop_stmt ObjectType.table (name ∷ names) true) =
      (C.get_relid (C.from_names name) == 0) ≡ false
  Destroys node = ⊥

  abbrev marked : QueryKind → String → QueryInfo Double
  marked k text = mark_write F C k LockClass.high (codes text) (init_qinfo F C)

  drop_table-kind :
      (name : List CString) (names : List (List CString))
      → (C.get_relid (C.from_names name) == 0) ≡ false
      → (analyze_drop F C ObjectType.table (name ∷ names) true).kind ≡ QueryKind.drop_table
  unfolding analyze_drop
  drop_table-kind name names found =
      if-kind _ _ _
        (subst (λ n. (n == 0) ≡ false) (sym (fill-relation_oid F C (C.from_names name) _)) found)
      ∙ fill-kind F C (some (C.from_names name)) _
    where
      if-kind :
          (t : Bool) (x y : QueryInfo Double)
          → t ≡ false
          → (if◌then◌else◌ {A = QueryInfo Double} t x y).kind ≡ y.kind
      if-kind true x y h = cc
      if-kind false x y h = refl

  -- The analysis of such a statement returns a destructive kind.
  analyze_utility-Destroys :
      (node : Node C.RangeVar)
      → Destroys node
      → (q : QueryInfo Double) × (analyze_utility F C false (some node) ≡ some q)
        × (is_destructive q.kind ≡ true)
  unfolding analyze_utility analyze_truncate analyze_dropdb analyze_drop
  analyze_utility-Destroys (Node.truncate_stmt []) h = (_, refl, refl)
  analyze_utility-Destroys (Node.truncate_stmt (rv ∷ rvs)) h =
      (_, refl, ap is_destructive (fill-kind F C (some rv) (marked QueryKind.truncate "TRUNCATE")))
  analyze_utility-Destroys (Node.dropdb_stmt none) h = (_, refl, refl)
  analyze_utility-Destroys (Node.dropdb_stmt (some name)) h = (_, refl, refl)
  analyze_utility-Destroys (Node.drop_stmt ObjectType.table [] missing_ok) h = (_, refl, refl)
  analyze_utility-Destroys (Node.drop_stmt ObjectType.table (name ∷ names) false) h = (
    _,
    refl,
    ap is_destructive
        (fill-kind F C (some (C.from_names name)) (marked QueryKind.drop_table "DROP TABLE")),
  )
  analyze_utility-Destroys (Node.drop_stmt ObjectType.table (name ∷ names) true) h =
      (_, refl, ap is_destructive (drop_table-kind name names h))
  analyze_utility-Destroys node h = absurd h

  Destroys-risky :
      (node : Node C.RangeVar) → Destroys node → utility_may_be_risky (some node) ≡ true
  unfolding utility_may_be_risky
  Destroys-risky (Node.truncate_stmt relations) h = refl
  Destroys-risky (Node.dropdb_stmt dbname) h = refl
  Destroys-risky (Node.drop_stmt ObjectType.table objects missing_ok) h = refl
  Destroys-risky node h = absurd h

  IsStrict-checks : (b : Backend Double) → IsStrict b → should_skip_check b ≡ false
  unfolding should_skip_check
  IsStrict-checks b s = rw (s.enabled, s.leader, should_skip_check) refl

  unfiltered-kind :
      (stmt : PlannedStmt Double)
      → (stmt.command ≡ CmdType.cmd_delete) ⊎ (stmt.command ≡ CmdType.cmd_update)
      → IsUnfiltered stmt.plan_tree
      → is_destructive (analyze_plannedstmt F C (some stmt)).kind ≡ true
  unfiltered-kind stmt write scan =
      let (delete, update, _) = analyze_plannedstmt_lem F C stmt in
      elim write [
        | inl d ↦ ap is_destructive (delete.1 (d, scan))
        | inr u ↦ ap is_destructive (update.1 (u, scan))
      ]

  writes-Raises :
      (c : CmdType) (x y : Checked Double)
      → (c ≡ CmdType.cmd_delete) ⊎ (c ≡ CmdType.cmd_update)
      → Raises x.verdict
      → Raises
          (if◌then◌else◌ {A = Checked Double}
            ((elim c as (λ k. Bool) [ CmdType.other_command ↦ false | _ ↦ true ]) && true)
            x
            y).verdict
  writes-Raises CmdType.cmd_delete x y w h = h
  writes-Raises CmdType.cmd_update x y w h = h
  writes-Raises CmdType.other_command x y (inl e) h = absurd (ground arith)
  writes-Raises CmdType.other_command x y (inr e) h = absurd (ground arith)

  -- With checks on, in enforce mode with fail_closed and a block threshold of at most 90: whatever
  -- the steps of the check return or fail with, and whatever the ring holds, the utility hook raises an
  -- error for a TRUNCATE, for a DROP DATABASE, and for a DROP TABLE without IF EXISTS or with a first
  -- table that exists, and the executor hook for a DELETE or UPDATE over a sequential scan without a
  -- condition.
  pub process_utility-Raises :
      (b : Backend Double) (node : Node C.RangeVar) (stmt : PlannedStmt Double)
      (shared : Option (SharedState Double))
      → IsStrict b
      → Destroys node
      → (stmt.command ≡ CmdType.cmd_delete) ⊎ (stmt.command ≡ CmdType.cmd_update)
      → IsUnfiltered stmt.plan_tree
      → Raises (process_utility F C b (some node) shared).verdict
        × Raises (executor_start F C b (some (some stmt)) false shared).verdict
  unfolding process_utility executor_start
  process_utility-Raises b node stmt shared s h write scan =
      let (q, analysed, d) = analyze_utility-Destroys node h in
      let checks = IsStrict-checks b s in
      (
        rw (process_utility, checks, Destroys-risky node h, s.no_autovacuum, analysed)
            (evaluate_and_apply-Raises F b q shared s d),
        rw (executor_start, checks)
            (writes-Raises stmt.command _ _ write (
              evaluate_and_apply-Raises F b (analyze_plannedstmt F C (some stmt)) shared s
                (unfiltered-kind stmt write scan))),
      )
