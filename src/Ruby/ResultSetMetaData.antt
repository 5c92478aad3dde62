-- ===== src/Ruby/ResultSetMetaData.antt =====
-- ruby/nuodb/ext/nuodb/nuodb.cpp: the methods of `WrapResultSetMetaData`.
use nuodb_drivers.Prelude.{Bytes, codes, ◌++◌, Option, none, some}
use nuodb_drivers.Prelude.Outcome.{ℤ, pos, negsuc}
use nuodb_drivers.Ruby.Library.{
  Library, SqlType, Value, symbol, columns_get_column_count, columns_get_column_name,
  columns_get_scale, columns_get_precision, columns_is_nullable, columns_get_column_type_name,
  columns_get_column_type,
}
use nuodb_drivers.Client.{Attempt, returns, throws}
use nuodb_drivers.Ruby.Calls.{
  Run, Reply, value, escapes, guarded, raised, with_uint, text_value, truth_value, uint_value,
}

-- The symbol of a type
unfoldable pub symbol_of : SqlType → Option Bytes
symbol_of SqlType.null = some (codes "SQL_NULL")
symbol_of SqlType.bit = some (codes "SQL_BIT")
symbol_of SqlType.tinyint = some (codes "SQL_TINYINT")
symbol_of SqlType.smallint = some (codes "SQL_SMALLINT")
symbol_of SqlType.integer = some (codes "SQL_INTEGER")
symbol_of SqlType.bigint = some (codes "SQL_BIGINT")
symbol_of SqlType.float = some (codes "SQL_FLOAT")
symbol_of SqlType.double = some (codes "SQL_DOUBLE")
symbol_of SqlType.char = some (codes "SQL_CHAR")
symbol_of SqlType.varchar = some (codes "SQL_STRING")
symbol_of SqlType.longvarchar = some (codes "SQL_LONGVARCHAR")
symbol_of SqlType.date = some (codes "SQL_DATE")
symbol_of SqlType.time = some (codes "SQL_TIME")
symbol_of SqlType.timestamp = some (codes "SQL_TIMESTAMP")
symbol_of SqlType.blob = some (codes "SQL_BLOB")
symbol_of SqlType.clob = some (codes "SQL_CLOB")
symbol_of SqlType.numeric = some (codes "SQL_NUMERIC")
symbol_of SqlType.decimal = some (codes "SQL_DECIMAL")
symbol_of SqlType.boolean = some (codes "SQL_BOOLEAN")
symbol_of SqlType.binary = some (codes "SQL_BINARY")
symbol_of SqlType.longvarbinary = some (codes "SQL_LONGVARBINARY")
symbol_of (SqlType.other t) = none

module _ (lib : Library) where
  unfoldable pub get_column_count : lib.handles.ResultSetMetaData → Run lib
  get_column_count md =
      guarded lib (columns_get_column_count md)
        (codes "Failed to get column count from the result set metadata: ") (uint_value lib)

  unfoldable pub get_column_name : lib.handles.ResultSetMetaData → Value lib.handles → Run lib
  get_column_name md column_value = with_uint lib column_value (λ column.
      guarded lib (columns_get_column_name md column)
        (codes "Failed to get column name from the result set metadata: ") (text_value lib))

  unfoldable pub get_scale : lib.handles.ResultSetMetaData → Value lib.handles → Run lib
  get_scale md column_value = with_uint lib column_value (λ column.
      guarded lib (columns_get_scale md column)
        (codes "Failed to get scale from the result set metadata: ") (uint_value lib))

  unfoldable pub get_precision : lib.handles.ResultSetMetaData → Value lib.handles → Run lib
  get_precision md column_value = with_uint lib column_value (λ column.
      guarded lib (columns_get_precision md column)
        (codes "Failed to get precision from the result set metadata: ") (uint_value lib))

  unfoldable pub is_nullable : lib.handles.ResultSetMetaData → Value lib.handles → Run lib
  is_nullable md column_value = with_uint lib column_value (λ column.
      guarded lib (columns_is_nullable md column)
        (codes "Failed to determine nullability from the result set metadata: ") (truth_value lib))

  unfoldable pub get_column_type_name : lib.handles.ResultSetMetaData → Value lib.handles → Run lib
  get_column_type_name md column_value = with_uint lib column_value (λ column.
      guarded lib (columns_get_column_type_name md column)
        (codes
            "Failed to get column type name from the result set metadata for the designated column ("
          ++ (lib.decimal column ++ codes "): "))
        (text_value lib))

  code_of : SqlType → ℤ
  code_of (SqlType.other t) = t
  code_of _ = pos 0

  type_value : SqlType → Reply lib
  unfolding symbol_of code_of
  type_value t = elim (symbol_of t) [
    | some name ↦ value (symbol name)
    | none ↦ raised lib (negsuc 1) (codes "Invalid SQL type: ") (lib.decimal (code_of t))
  ]

  -- The client library is called outside of any `try`.
  typed : Attempt SqlType × lib.World → Reply lib × lib.World
  unfolding type_value
  typed (returns t, w) = (type_value t, w)
  typed (throws e, w) = (escapes, w)

  unfoldable pub get_type : lib.handles.ResultSetMetaData → Value lib.handles → Run lib
  unfolding typed
  get_type md column_value =
      with_uint lib column_value
        (λ column w. typed (lib.call (columns_get_column_type md column) w))
