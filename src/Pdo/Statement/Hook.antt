-- ===== src/Pdo/Statement/Hook.antt =====
-- php_pdo/pdo_nuodb/nuodb_statement.c: `nuodb_stmt_param_hook`, which PDO calls at each event of a
-- bound parameter or column.
use nuodb_drivers.Prelude.{
  ℕ, ◌-◌, ◌%◌, Bool, true, false, Option, none, some, List, Bytes, length, get_elem?, set,
  replicate, map, codes, leb, ◌==◌, ◌++◌, [], ◌∷◌, if◌then◌else◌,
}
use nuodb_drivers.Prelude.Outcome.{ℤ, ◌>>=◌, ◌>>◌, pure, crash, deref}
use nuodb_drivers.Zend.{HashTable}
use nuodb_drivers.Client.{Client}
use nuodb_drivers.Session.{Param, Act, on_machine, current, set_current}
use nuodb_drivers.Sql.Kind.{to_upper}
use nuodb_drivers.Cpp.Statement.{hy000}
use nuodb_drivers.Cpp.Statement.Columns.{
  sqltype_integer, sqltype_string, sqltype_array, sqltype_blob, sqltype_clob,
}
use nuodb_drivers.Cpp.Jump
use nuodb_drivers.Cpp.Jump.Columns
use nuodb_drivers.Pdo.Statement.{set_error_code}
use nuodb_drivers.Pdo.Statement.Columns.{
  ParamType, int_param, str_param, lob_param, zval_param, Cell, text, long, object, stmt_get_col,
}

-- `enum pdo_param_event`
pub data Event : Type 0 where
  alloc free exec_pre exec_post fetch_pre fetch_post normalize : Event

-- A `zval`; `reinterpreted` is memory that is read as a `long`.
pub data Zval : Type 0 where
  null : Zval
  integer : ℤ → Zval
  string : Bytes → Zval
  reinterpreted : Cell → Zval

-- `struct pdo_bound_param_data`; a `paramno` of -1 is `none`.
pub record BoundParam : Type 0 where
  pub is_param : Bool
  pub paramno : Option ℕ
  pub name : Option Bytes
  pub param_type : ParamType
  pub parameter : Zval

-- `Z_LVAL_P` and `Z_STRVAL_P` read a union: only its own member is defined.
abbrev lval : Zval → Option ℤ
lval (integer v) = some v
lval _ = none

abbrev strval : Zval → Option Bytes
strval (string s) = some s
strval _ = none

-- `paramno >= num_params`
abbrev beyond : Option ℕ → Option (List Param) → Bool
beyond none params = false
beyond (some n) none = false
beyond (some n) (some params) = leb (length params) n

-- The type that a parameter of PDO is bound with; the others leave it as it was.
abbrev bound_type : ParamType → ℕ → ℕ
bound_type int_param t = sqltype_integer
bound_type str_param t = sqltype_string
bound_type lob_param t = sqltype_blob
bound_type _ t = t

-- `*(long *)value`
abbrev as_long : Cell → Zval
as_long (long v) = integer v
as_long c = reinterpreted c

-- The text of a column; a `long` is taken for its bytes.
abbrev as_string : Cell → Zval
as_string (text s) = string s
as_string (object s) = string s
as_string c = reinterpreted c

-- `*s = toupper(*s)` over the name of a bound column
abbrev upper_name : BoundParam → BoundParam
upper_name b = record b { name = elim b.name [ none ↦ none | some s ↦ some (map to_upper s) ] }

assign_as : ParamType → BoundParam → Option Cell → BoundParam
unfolding to_upper
assign_as int_param b none = upper_name b
assign_as str_param b none = upper_name b
assign_as lob_param b none = upper_name b
assign_as int_param b (some c) = record b { parameter = as_long c }
assign_as str_param b (some c) = record b { parameter = as_string c }
assign_as lob_param b (some c) = record b { parameter = as_string c; param_type = str_param }
assign_as zval_param b c = upper_name b
assign_as _ b c = record b { parameter = null }

-- What `FETCH_POST` does to a bound column. With a NULL value the cases fall through to the one
-- that turns the name into capitals, and the variable is left alone.
unfoldable pub assign : BoundParam → Option Cell → BoundParam
unfolding assign_as
assign b c = assign_as b.param_type b c

module _ (client : Client) (zend : HashTable) where
  abbrev pub Answer : Type 0
  Answer = Act client zend (Bool × BoundParam)

  unfoldable pub refuse : BoundParam → Bytes → Bytes → Answer
  unfolding Jump.set_last_app_error
  refuse b code msg = do
    set_error_code client zend code
    on_machine client zend (Jump.set_last_app_error client msg)
    pure (false, b)

  -- `nuodb_params->params[paramno]`, which must be inside of the allocated array
  param_at : Option (List Param) → Option ℕ → Act client zend Param
  param_at none n = crash
  param_at (some ps) none = crash
  param_at (some ps) (some n) = deref (get_elem? ps n)

  set_param : ℕ → Param → Act client zend (Unit {0})
  set_param n v = do
    s ← current client zend
    elim s.in_params [
      | none ↦ crash
      | some ps ↦ set_current client zend (record s { in_params = some (set ps n v) })
    ]

  -- `PDO_PARAM_EVT_ALLOC`
  allocate : BoundParam → ℕ → Answer
  unfolding param_at set_param
  allocate b n = do
    s ← current client zend
    v ← param_at s.in_params (some n)
    set_param n (record v { bytes = some (replicate v.len 0) })
    pure (true, b)

  -- `PDO_PARAM_EVT_NORMALIZE`
  normalize_param : BoundParam → ℕ → Answer
  unfolding param_at set_param
  normalize_param b n = do
    s ← current client zend
    v ← param_at s.in_params (some n)
    set_param n (record v { sqltype = bound_type b.param_type v.sqltype })
    pure (true, b)

  -- The `switch` over the type: the value is handed to the client library.
  send : BoundParam → ℕ → ℕ → Answer
  unfolding refuse
  send b n t =
      if t == sqltype_integer
      then (do v ← deref (lval b.parameter); Columns.set_integer client zend n v; pure (true, b))
      else if t == sqltype_string
      then (do v ← deref (strval b.parameter); Columns.set_string client zend n v; pure (true, b))
      else if t == sqltype_blob
      then (do
        v ← deref (strval b.parameter)
        Columns.set_blob client zend n (some v)
        pure (true, b))
      else if t == sqltype_clob
      then (do
        v ← deref (strval b.parameter)
        Columns.set_clob client zend n (some v)
        pure (true, b))
      else refuse b hy000 (codes "Cannot bind unsupported type!")

  -- `PDO_PARAM_EVT_EXEC_PRE`; `sqltype & ~1` clears the lowest bit.
  bind_param : BoundParam → ℕ → Answer
  unfolding param_at send refuse
  bind_param b n = do
    s ← current client zend
    v ← param_at s.in_params (some n)
    elim (v.sqltype - v.sqltype % 2 == sqltype_array) [
      | true ↦ refuse b hy000 (codes "Cannot bind to array field")
      | false ↦ send b n v.sqltype
    ]

  -- The events of an input parameter, once its number is known
  on_input : BoundParam → ℕ → Event → Answer
  unfolding allocate normalize_param bind_param
  on_input b n alloc = allocate b n
  on_input b n normalize = normalize_param b n
  on_input b n exec_pre = bind_param b n
  on_input b n _ = pure (true, b)

  fetched : BoundParam → Bool × Option Cell → Answer
  unfolding assign
  fetched b (false, c) = pure (false, b)
  fetched b (true, c) = pure (true, assign b c)

  -- The events of a bound column
  on_column : BoundParam → Option ℕ → Event → Answer
  unfolding stmt_get_col fetched
  on_column b none fetch_post = pure (false, b)
  on_column b (some n) fetch_post = do col ← stmt_get_col client zend n; fetched b col
  on_column b n _ = pure (true, b)

  -- The number of a parameter that is bound by name
  find_index : BoundParam → Bytes → Act client zend (Option ℕ)
  find_index b name = do s ← current client zend; pure (zend.find (name ++ 0 ∷ []) s.named_params)

  named_input : BoundParam → Event → Answer
  unfolding find_index on_input refuse
  named_input b event = do
    name ← deref b.name
    index ← find_index b name
    elim index [
      | none ↦ refuse b hy000 (codes "Unable to determine the parameter index")
      | some n ↦ on_input (record b { paramno = some n }) n event
    ]

  dispatch : BoundParam → Event → Answer
  unfolding named_input on_input on_column
  dispatch b event = elim b.is_param [
    | true ↦ elim b.paramno [ none ↦ named_input b event | some n ↦ on_input b n event ]
    | false ↦ on_column b b.paramno event
  ]

  checked : BoundParam → Event → Answer
  unfolding dispatch refuse
  checked b event = do
    s ← current client zend
    elim (beyond b.paramno (if b.is_param then s.in_params else s.out_params)) [
      | true ↦ refuse b (codes "HY093") (codes "Invalid parameter index")
      | false ↦ dispatch b event
    ]

  -- `nuodb_stmt_param_hook`: the result, and the parameter as it leaves it
  unfoldable pub stmt_param_hook : BoundParam → Event → Answer
  unfolding checked
  stmt_param_hook b free = do current client zend; pure (true, b)
  stmt_param_hook b event = checked b event
