-- ===== src/Sql.antt =====
-- src/pg_circuit.c: the functions that SQL can call.
pub mod Explain
pub mod Rows
pub mod Sets
use pg_circuit.Prelude.{
  Bool, true, false, ◌++◌, [], Option, none, some, CString, codes, is_empty, if◌then◌else◌,
}
use pg_circuit.Breaker.{internal_error, other_state, Report}

-- `elog(ERROR, "return type must be a row type")`
abbrev pub not_a_row : Report
not_a_row = record {
  sqlstate = internal_error;
  message = codes "return type must be a row type";
  detail = [];
  hint = [];
}

-- `ereport(ERROR, (errcode(ERRCODE_INVALID_PARAMETER_VALUE), ...))` for a name that is not known
abbrev pub unknown_name : CString → CString → Report
unknown_name what name = record {
  sqlstate = other_state;
  message = codes "unknown pg_circuit " ++ what ++ codes " \"" ++ name ++ codes "\"";
  detail = [];
  hint = [];
}

-- A column of text that is null for an empty string.
abbrev pub text_or_null : CString → Option CString
text_or_null s = if is_empty s then none else some s
