-- ===== src/Pdo/Statement/Columns.antt =====
-- php_pdo/pdo_nuodb/nuodb_statement.c: how a column is described and read.
use nuodb_drivers.Prelude.{
  ℕ, Bool, true, false, Option, none, some, Bytes, length, terminated, ◌==◌, if◌then◌else◌,
}
use nuodb_drivers.Prelude.Outcome.{ℤ, ◌>>=◌, pure}
use nuodb_drivers.Zend.{HashTable}
use nuodb_drivers.Client.{Client}
use nuodb_drivers.Session.{Act}
use nuodb_drivers.Cpp.Statement.Columns.{
  sqltype_boolean, sqltype_integer, sqltype_bigint, sqltype_double, sqltype_string, sqltype_date,
  sqltype_time, sqltype_timestamp, sqltype_blob, sqltype_clob,
}
use nuodb_drivers.Cpp.Jump.Columns

-- `enum pdo_param_type`
pub data ParamType : Type 0 where
  null_param int_param str_param lob_param stmt_param bool_param zval_param : ParamType

-- `struct pdo_column_data`
pub record Column : Type 0 where
  pub name : Bytes
  pub namelen : ℕ
  pub maxlen : ℕ
  pub param_type : ParamType

-- The `switch` of `nuodb_stmt_describe`: `maxlen` and `param_type`.
unfoldable pub described : ℕ → Option (ℕ × ParamType)
described t =
    if t == sqltype_boolean
    then some (0, bool_param)
    else if t == sqltype_integer
    then some (24, str_param)
    else if t == sqltype_bigint
    then some (24, str_param)
    else if t == sqltype_double
    then some (0, str_param)
    else if t == sqltype_string
    then some (0, str_param)
    else if t == sqltype_date
    then some (0, int_param)
    else if t == sqltype_time
    then some (0, int_param)
    else if t == sqltype_timestamp
    then some (0, int_param)
    else if t == sqltype_blob
    then some (0, str_param)
    else if t == sqltype_clob
    then some (0, str_param)
    else none

-- What the pointer of `nuodb_stmt_get_col` points to: the digits that `slprintf` prints with "%d",
-- a copied text, a `long`, or the bytes of a large object.
pub data Cell : Type 0 where
  digits : ℤ → Cell
  text : Bytes → Cell
  long : ℤ → Cell
  object : Bytes → Cell

module _ (client : Client) (zend : HashTable) where
  column_of : Bytes → Option (ℕ × ParamType) → Option Column
  column_of name none = none
  column_of name (some (maxlen, t)) =
      some (record { name = name; namelen = length name; maxlen = maxlen; param_type = t })

  describe_named : ℕ → Option Bytes → Act client zend (Option Column)
  unfolding described column_of
  describe_named colno none = pure none
  describe_named colno (some name) = do
    t ← Columns.get_sql_type client zend colno
    pure (column_of (terminated name) (described t))

  -- `nuodb_stmt_describe`; `none` is the result 0.
  unfoldable pub stmt_describe : ℕ → Act client zend (Option Column)
  unfolding describe_named
  stmt_describe colno = do
    name ← Columns.get_column_name client zend colno
    describe_named colno name

  abbrev text_cell : Option Bytes → Option Cell
  text_cell none = none
  text_cell (some str) = some (text (terminated str))

  abbrev object_cell : Option Bytes → Option Cell
  object_cell none = none
  object_cell (some b) = some (object b)

  -- The `switch` of `nuodb_stmt_get_col`: the result, and the pointer, which may be NULL
  unfoldable pub read_col : ℕ → ℕ → Act client zend (Bool × Option Cell)
  read_col colno t =
      if t == sqltype_boolean
      then pure (true, none)
      else if t == sqltype_integer
      then (Columns.get_integer client zend colno >>= λ v. pure (true, some (digits v)))
      else if t == sqltype_bigint
      then (Columns.get_long client zend colno >>= λ v. pure (true, some (digits v)))
      else if t == sqltype_double
      then pure (true, none)
      else if t == sqltype_string
      then (Columns.get_string client zend colno >>= λ v. pure (true, text_cell v))
      else if t == sqltype_date
      then (Columns.get_date client zend colno >>= λ v. pure (true, some (long v)))
      else if t == sqltype_time
      then (Columns.get_time client zend colno >>= λ v. pure (true, some (long v)))
      else if t == sqltype_timestamp
      then (Columns.get_timestamp client zend colno >>= λ v. pure (true, some (long v)))
      else if t == sqltype_blob
      then (Columns.get_blob client zend colno >>= λ v. pure (true, object_cell v))
      else if t == sqltype_clob
      then (Columns.get_clob client zend colno >>= λ v. pure (true, object_cell v))
      else pure (false, none)

  -- `nuodb_stmt_get_col`
  unfoldable pub stmt_get_col : ℕ → Act client zend (Bool × Option Cell)
  unfolding read_col
  stmt_get_col colno = do t ← Columns.get_sql_type client zend colno; read_col colno t
