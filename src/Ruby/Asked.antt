-- ===== src/Ruby/Asked.antt =====
-- ruby/nuodb/ext/nuodb/nuodb.cpp: the call of the client library that each method is there for, and
-- the words at the head of its errors.
use nuodb_drivers.Prelude.{Option, none, some, [], Bool, true, false, Bytes, codes, ◌≡◌}
use nuodb_drivers.Prelude.Outcome.{ℤ, pos}
use nuodb_drivers.Ruby.Library.{Library, Value, Op}
use nuodb_drivers.Ruby.Calls.{int32, milliseconds, ruby_truth, c_truth, bit}
use nuodb_drivers.Ruby.Requests.{
  Request, database_get_database_version, database_get_index_info, database_get_columns,
  database_get_tables, results_next, results_get_meta_data, results_get_boolean,
  results_get_integer, results_get_double, results_get_string, results_get_date, results_get_time,
  results_get_timestamp, results_get_char, columns_get_column_count, columns_get_column_name,
  columns_get_scale, columns_get_precision, columns_is_nullable, columns_get_column_type_name,
  statement_close, statement_execute, statement_execute_query, statement_execute_update,
  statement_get_result_set, statement_get_update_count, statement_get_generated_keys,
  prepared_close, prepared_set_time, prepared_set_boolean, prepared_set_integer,
  prepared_set_double, prepared_set_string, prepared_execute, prepared_execute_query,
  prepared_execute_update, prepared_get_result_set, prepared_get_update_count,
  prepared_get_generated_keys, connection_get_schema, connection_close, connection_ping,
  connection_create_statement, connection_create_prepared_statement, connection_set_auto_commit,
  connection_has_auto_commit, connection_commit, connection_rollback, connection_get_meta_data,
  connection_create_sql_connection,
}

module _ (lib : Library) where
  abbrev pub Target : Type 0
  Target = Option (Op lib.handles)

  abbrev pub then : {A : Type 0} → Option A → (A → Target) → Target
  then none g = none
  then (some a) g = g a

  unfoldable pub uint_then : Value lib.handles → (ℤ → Target) → Target
  uint_then v g = then (lib.num2uint v) (λ n. g (int32 n))

  unfoldable pub int_then : Value lib.handles → (ℤ → Target) → Target
  int_then v g = then (lib.num2int v) g

  unfoldable pub double_then : Value lib.handles → (lib.handles.Double → Target) → Target
  double_then v g = then (lib.num2dbl v) g

  unfoldable pub string_then : Value lib.handles → (Bytes → Target) → Target
  string_then v g = then (lib.string_value_ptr v) g

  unfoldable pub pointer_then : Value lib.handles → (Bytes → Target) → Target
  pointer_then v g = then (lib.rstring_ptr v) g

  unfoldable pub time_then : Value lib.handles → (ℤ → Target) → Target
  time_then v g = then (lib.time_timeval v) (λ tv. g (milliseconds tv.0 tv.1))

  -- The call of the client library that a method is there for, if its arguments can be converted
  unfoldable pub op_of : Request lib → Target
  op_of (database_get_database_version md) = some (Op.database_get_database_version md)
  op_of (database_get_index_info md schema table unique approx) = string_then schema (λ schema_arg.
      string_then table (λ table_arg. some (
        Op.database_get_index_info md schema_arg table_arg (ruby_truth lib.handles unique)
          (ruby_truth lib.handles approx))))
  op_of (database_get_columns md schema table) = string_then schema (λ schema_arg.
      string_then table (λ table_arg. some (Op.database_get_columns md schema_arg table_arg)))
  op_of (database_get_tables md schema table) = string_then schema (λ schema_arg.
      string_then table (λ table_arg. some (Op.database_get_tables md schema_arg table_arg)))
  op_of (results_next rs) = some (Op.results_next rs)
  op_of (results_get_meta_data rs) = some (Op.results_get_meta_data rs)
  op_of (results_get_boolean rs column) =
      uint_then column (λ column_arg. some (Op.results_get_boolean rs column_arg))
  op_of (results_get_integer rs column) =
      uint_then column (λ column_arg. some (Op.results_get_integer rs column_arg))
  op_of (results_get_double rs column) =
      uint_then column (λ column_arg. some (Op.results_get_double rs column_arg))
  op_of (results_get_string rs column) =
      uint_then column (λ column_arg. some (Op.results_get_string rs column_arg))
  op_of (results_get_date rs column) =
      uint_then column (λ column_arg. some (Op.results_get_string rs column_arg))
  op_of (results_get_time rs column) =
      uint_then column (λ column_arg. some (Op.results_get_string rs column_arg))
  op_of (results_get_timestamp rs column) =
      uint_then column (λ column_arg. some (Op.results_get_string rs column_arg))
  op_of (results_get_char rs column) =
      uint_then column (λ column_arg. some (Op.results_get_string rs column_arg))
  op_of (columns_get_column_count md) = some (Op.columns_get_column_count md)
  op_of (columns_get_column_name md column) =
      uint_then column (λ column_arg. some (Op.columns_get_column_name md column_arg))
  op_of (columns_get_scale md column) =
      uint_then column (λ column_arg. some (Op.columns_get_scale md column_arg))
  op_of (columns_get_precision md column) =
      uint_then column (λ column_arg. some (Op.columns_get_precision md column_arg))
  op_of (columns_is_nullable md column) =
      uint_then column (λ column_arg. some (Op.columns_is_nullable md column_arg))
  op_of (columns_get_column_type_name md column) =
      uint_then column (λ column_arg. some (Op.columns_get_column_type_name md column_arg))
  op_of (statement_close st) = some (Op.statement_close st)
  op_of (statement_execute st query) =
      string_then query (λ query_arg. some (Op.statement_execute st query_arg))
  op_of (statement_execute_query st query) =
      string_then query (λ query_arg. some (Op.statement_execute_query st query_arg))
  op_of (statement_execute_update st query) =
      string_then query (λ query_arg. some (Op.statement_execute_update st query_arg))
  op_of (statement_get_result_set st) = some (Op.statement_get_result_set st)
  op_of (statement_get_update_count st) = some (Op.statement_get_update_count st)
  op_of (statement_get_generated_keys st) = some (Op.statement_get_generated_keys st)
  op_of (prepared_close st) = some (Op.prepared_close st)
  op_of (prepared_set_time st index time) =
      uint_then index (λ index_arg.
        time_then time (λ time_arg. some (Op.prepared_set_time st index_arg time_arg)))
  op_of (prepared_set_boolean st index v) =
      uint_then index
        (λ index_arg. some (Op.prepared_set_int st index_arg (pos (bit (c_truth lib.handles v)))))
  op_of (prepared_set_integer st index v) =
      uint_then index
        (λ index_arg. int_then v (λ value_arg. some (Op.prepared_set_int st index_arg value_arg)))
  op_of (prepared_set_double st index v) = uint_then index (λ index_arg.
      double_then v (λ value_arg. some (Op.prepared_set_double st index_arg value_arg)))
  op_of (prepared_set_string st index v) = uint_then index (λ index_arg.
      pointer_then v (λ value_arg. some (Op.prepared_set_string st index_arg value_arg)))
  op_of (prepared_execute st) = some (Op.prepared_execute st)
  op_of (prepared_execute_query st) = some (Op.prepared_execute_query st)
  op_of (prepared_execute_update st) = some (Op.prepared_execute_update st)
  op_of (prepared_get_result_set st) = some (Op.prepared_get_result_set st)
  op_of (prepared_get_update_count st) = some (Op.prepared_get_update_count st)
  op_of (prepared_get_generated_keys st) = some (Op.prepared_get_generated_keys st)
  op_of (connection_get_schema c) = some (Op.connection_get_schema c)
  op_of (connection_close c) = some (Op.connection_close c)
  op_of (connection_ping c) = some (Op.connection_ping c)
  op_of (connection_create_statement c) = some (Op.connection_create_statement c)
  op_of (connection_create_prepared_statement c query) =
      string_then query (λ query_arg. some (Op.connection_create_prepared_statement c query_arg))
  op_of (connection_set_auto_commit c auto_commit) =
      some (Op.connection_set_auto_commit c (ruby_truth lib.handles auto_commit))
  op_of (connection_has_auto_commit c) = some (Op.connection_has_auto_commit c)
  op_of (connection_commit c) = some (Op.connection_commit c)
  op_of (connection_rollback c) = some (Op.connection_rollback c)
  op_of (connection_get_meta_data c) = some (Op.connection_get_meta_data c)
  op_of (connection_create_sql_connection db schema username password) =
      string_then db (λ database_arg. string_then schema (λ schema_arg.
        string_then username (λ username_arg. string_then password (λ password_arg.
          some (Op.get_database_connection database_arg username_arg password_arg schema_arg)))))

  -- The words at the head of the message of its errors
  unfoldable pub heading : Request lib → Bytes
  heading (database_get_database_version _) =
      codes "Get database metadata database version failed: "
  heading (database_get_index_info _ _ _ _ _) = codes "Get database metadata index info failed: "
  heading (database_get_columns _ _ _) = codes "Get columns failed: "
  heading (database_get_tables _ _ _) = codes "Get tables failed: "
  heading (results_next _) = codes "Failed to move the cursor forward one row: "
  heading (results_get_meta_data _) =
      codes "Failed to retrieve number, types, and properties of the result set: "
  heading (results_get_boolean _ _) =
      codes "Failed to get boolean value for the designated column ("
  heading (results_get_integer _ _) =
      codes "Failed to get integer value for the designated column ("
  heading (results_get_double _ _) = codes "Failed to get double value for the designated column ("
  heading (results_get_string _ _) = codes "Failed to get string value for the designated column ("
  heading (results_get_date _ _) = codes "Failed to get date value for the designated column ("
  heading (results_get_time _ _) = codes "Failed to get time value for the designated column ("
  heading (results_get_timestamp _ _) =
      codes "Failed to get timestamp value for the designated column ("
  heading (results_get_char _ _) = codes "Failed to get char value for the designated column ("
  heading (columns_get_column_count _) =
      codes "Failed to get column count from the result set metadata: "
  heading (columns_get_column_name _ _) =
      codes "Failed to get column name from the result set metadata: "
  heading (columns_get_scale _ _) = codes "Failed to get scale from the result set metadata: "
  heading (columns_get_precision _ _) =
      codes "Failed to get precision from the result set metadata: "
  heading (columns_is_nullable _ _) =
      codes "Failed to determine nullability from the result set metadata: "
  heading (columns_get_column_type_name _ _) =
      codes
        "Failed to get column type name from the result set metadata for the designated column ("
  heading (statement_close _) = codes "Failed to successfully close statement: "
  heading (statement_execute _ _) = codes "Failed to execute SQL statement (\""
  heading (statement_execute_query _ _) = codes "Failed to execute SQL query statement (\""
  heading (statement_execute_update _ _) = codes "Failed to execute SQL update statement (\""
  heading (statement_get_result_set _) = codes "Failed to get statement result set: "
  heading (statement_get_update_count _) = codes "Failed to get update count for statement: "
  heading (statement_get_generated_keys _) = codes "Failed to get generated keys for statement: "
  heading (prepared_close _) = codes "Failed to successfully close prepared statement: "
  heading (prepared_set_time _ _ _) = codes "Failed to set prepared statement setTime("
  heading (prepared_set_boolean _ _ _) = codes "Failed to set prepared statement boolean value ("
  heading (prepared_set_integer _ _ _) = codes "Failed to set prepared statement integer value ("
  heading (prepared_set_double _ _ _) = codes "Failed to set prepared statement double value ("
  heading (prepared_set_string _ _ _) = codes "Failed to set prepared statement string value ("
  heading (prepared_execute _) = codes "Failed to execute SQL prepared statement: "
  heading (prepared_execute_query _) = codes "Failed to execute SQL query prepared statement: "
  heading (prepared_execute_update _) = codes "Failed to execute SQL update prepared statement: "
  heading (prepared_get_result_set _) =
      codes "Failed to get the result set for the prepared statement: "
  heading (prepared_get_update_count _) =
      codes "Failed to get the update count for the prepared statement: "
  heading (prepared_get_generated_keys _) =
      codes "Failed to get the generated keys for the prepared statement: "
  heading (connection_get_schema _) = codes "Failed to get schema for connection: "
  heading (connection_close _) = codes "Failed to successfully disconnect connection: "
  heading (connection_ping _) = []
  heading (connection_create_statement _) = codes "Failed to create statement: "
  heading (connection_create_prepared_statement _ _) = codes "Failed to create prepared statement ("
  heading (connection_set_auto_commit _ _) = codes "Failed to set auto-commit ("
  heading (connection_has_auto_commit _) =
      codes "Failed to determine auto-commit state for connection: "
  heading (connection_commit _) = codes "Failed to commit transaction: "
  heading (connection_rollback _) = codes "Failed to rollback transaction: "
  heading (connection_get_meta_data _) = codes "Failed to get database metadata: "
  heading (connection_create_sql_connection _ _ _ _) =
      codes "Failed to create database connection (\""

  -- `ping` answers an SQL exception with `false`.
  abbrev pub quiet : Request lib → Bool
  quiet (connection_ping c) = true
  quiet _ = false

  -- The one argument that is used without a conversion is no string.
  abbrev pub Unbound : Request lib → Type 0
  Unbound (prepared_set_string st index v) = lib.rstring_ptr v ≡ none
  Unbound _ = ⊥
