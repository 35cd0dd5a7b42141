-- ===== src/Utility/Alter.antt =====
-- classify_alter_table of src/utility_analysis.c: the subcommands together.
use pg_circuit.Prelude.{
  ◌≤◌, ◌≡◌, refl, ◌∙◌, Option, All, ◌⊎◌, inl, inr, Bool, true, false, ◌||◌, List, [], ◌∷◌, codes,
  arith,
}
use pg_circuit.Types.{LockClass, QueryKind, lock_rank}
use pg_circuit.Platform.{Float}
use pg_circuit.Risk.{QueryInfo}
use pg_circuit.Relations.{Catalog}
use pg_circuit.Utility.Fill.{fill-kind}
use pg_circuit.Utility.{
  classify_alter_table, AlterTableType, AlterScan, scan_command, scan_commands,
}

-- The lock class that a subcommand asks for by itself.
abbrev pub class_of : AlterTableType → LockClass
class_of AlterTableType.add_column = LockClass.medium
class_of AlterTableType.drop_not_null = LockClass.medium
class_of AlterTableType.other_command = LockClass.low
class_of cmd = LockClass.high

-- Whether a subcommand commonly rewrites the table.
abbrev pub rewrites : AlterTableType → Bool
rewrites AlterTableType.drop_column = true
rewrites AlterTableType.alter_column_type = true
rewrites AlterTableType.set_table_space = true
rewrites AlterTableType.set_logged = true
rewrites AlterTableType.set_unlogged = true
rewrites cmd = false

abbrev pub Any : (AlterTableType → Type 0) → List AlterTableType → Type 0
Any P [] = ⊥
Any P (cmd ∷ cmds) = P cmd ⊎ Any P cmds

abbrev pub any_rewrites : List AlterTableType → Bool
any_rewrites [] = false
any_rewrites (cmd ∷ cmds) = rewrites cmd || any_rewrites cmds

scan_command_lem :
    (cmd : AlterTableType) (s : AlterScan)
    → (lock_rank s.worst ≤ lock_rank (scan_command cmd s).worst)
      × (lock_rank (class_of cmd) ≤ lock_rank (scan_command cmd s).worst)
      × (((scan_command cmd s).worst ≡ s.worst) ⊎ ((scan_command cmd s).worst ≡ class_of cmd))
      × ((scan_command cmd s).rewrite ≡ (rewrites cmd || s.rewrite))
unfolding scan_command
scan_command_lem AlterTableType.add_column s = ground arith
scan_command_lem cmd s = ground arith

scan_commands_lem :
    (cmds : List AlterTableType) (s : AlterScan)
    → let t = scan_commands cmds s in
      (lock_rank s.worst ≤ lock_rank t.worst)
      × All (λ cmd. lock_rank (class_of cmd) ≤ lock_rank t.worst) cmds
      × ((t.worst ≡ s.worst) ⊎ Any (λ cmd. t.worst ≡ class_of cmd) cmds)
      × (t.rewrite ≡ (any_rewrites cmds || s.rewrite))
unfolding scan_commands
scan_commands_lem [] s = (omega arith, tt, inl refl, refl)
scan_commands_lem (cmd ∷ cmds) s =
    let s' = scan_command cmd s in
    let (rises, reached, chosen, rewrite) = scan_command_lem cmd s in
    let (higher, all, attained, some_rewrite) = scan_commands_lem cmds s' in
    (
      omega arith,
      (omega arith, all),
      elim attained [
        | inl same ↦ elim chosen [ inl kept ↦ inl (same ∙ kept) | inr own ↦ inr (inl (same ∙ own)) ]
        | inr later ↦ inr (inr later)
      ],
      some_rewrite ∙ ground (arith, rewrite),
    )

or_false : (b : Bool) → (b || false) ≡ b
or_false true = refl
or_false false = refl

-- ALTER TABLE gets the highest lock class that one of its subcommands asks for, LOW without any,
-- and is said to rewrite exactly if one of them does.
pub classify_alter_table_lem :
    (F : Float) (C : Catalog F.Double) (relation : Option C.RangeVar) (cmds : List AlterTableType)
    (q : QueryInfo F.Double)
    → let r = classify_alter_table F C relation cmds q in
      (r.kind ≡ QueryKind.alter_table)
      × (lock_rank LockClass.low ≤ lock_rank r.lock_class)
      × All (λ cmd. lock_rank (class_of cmd) ≤ lock_rank r.lock_class) cmds
      × ((r.lock_class ≡ LockClass.low) ⊎ Any (λ cmd. r.lock_class ≡ class_of cmd) cmds)
      × (r.rewrite_likely ≡ any_rewrites cmds)
unfolding classify_alter_table
classify_alter_table_lem F C relation cmds q =
    let start : AlterScan = record {
      worst = LockClass.low;
      rewrite = false;
      detail = codes "ALTER TABLE";
    } in
    let (low, all, attained, rewrite) = scan_commands_lem cmds start in
    let base = record q { is_write = true; kind = QueryKind.alter_table } in
    (fill-kind F C relation base, low, all, attained, rewrite ∙ or_false (any_rewrites cmds))
