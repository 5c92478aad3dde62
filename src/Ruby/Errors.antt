-- ===== src/Ruby/Errors.antt =====
-- What a script learns of the exceptions of the client library (ruby/nuodb/ext/nuodb/nuodb.cpp).
use nuodb_drivers.Prelude.{[]}
use nuodb_drivers.Ruby.Library.{Library}
use nuodb_drivers.Ruby.Requests.{
  Request, perform, database_get_database_version, database_get_index_info, database_get_columns,
  database_get_tables, results_next, results_get_meta_data, results_get_boolean,
  results_get_integer, results_get_double, results_get_string, results_get_date, results_get_time,
  results_get_timestamp, results_get_char, columns_get_column_count, columns_get_column_name,
  columns_get_scale, columns_get_precision, columns_is_nullable, columns_get_column_type_name,
  statement_close, statement_execute, statement_execute_query, statement_execute_update,
  statement_get_result_set, statement_get_update_count, statement_get_generated_keys,
  prepared_close, prepared_set_time, prepared_set_boolean, prepared_set_integer,
  prepared_set_double, prepared_set_string, prepared_execute, prepared_execute_query,
  prepared_execute_update, prepared_get_result_set, prepared_get_update_count,
  prepared_get_generated_keys, connection_get_schema, connection_close, connection_ping,
  connection_create_statement, connection_create_prepared_statement, connection_set_auto_commit,
  connection_has_auto_commit, connection_commit, connection_rollback, connection_get_meta_data,
  connection_create_sql_connection,
}
use nuodb_drivers.Ruby.Asked.{op_of, quiet, heading, Unbound}
use nuodb_drivers.Ruby.Explained.{
  Explained, Fine, guarded-Fine, answered-Fine, text_value-Plain, wrapped-Plain, with_uint-Fine,
  with_int-Fine, with_double-Fine, with_string-Fine, with_time-Fine, with_pointer-Fine,
}

module _ (lib : Library) where
  perform-Fine :
      (r : Request lib)
      → Fine lib (op_of lib r) (quiet lib r) (heading lib r) (Unbound lib r) (perform lib r)
  unfolding perform op_of heading
  perform-Fine (database_get_database_version md) =
      guarded-Fine lib _ _ _ [] _ (text_value-Plain lib)
  perform-Fine (database_get_index_info md schema table unique approx) =
      with_string-Fine lib _ _ _ schema _ _ (λ schema_arg.
        with_string-Fine lib _ _ _ table _ _
          (λ table_arg. guarded-Fine lib _ _ _ [] _ (wrapped-Plain lib _)))
  perform-Fine (database_get_columns md schema table) =
      with_string-Fine lib _ _ _ schema _ _ (λ schema_arg.
        with_string-Fine lib _ _ _ table _ _
          (λ table_arg. guarded-Fine lib _ _ _ [] _ (wrapped-Plain lib _)))
  perform-Fine (database_get_tables md schema table) =
      with_string-Fine lib _ _ _ schema _ _ (λ schema_arg.
        with_string-Fine lib _ _ _ table _ _
          (λ table_arg. guarded-Fine lib _ _ _ [] _ (wrapped-Plain lib _)))
  perform-Fine (results_next rs) = guarded-Fine lib _ _ _ [] _ (λ a. tt)
  perform-Fine (results_get_meta_data rs) = guarded-Fine lib _ _ _ [] _ (wrapped-Plain lib _)
  perform-Fine (results_get_boolean rs column) =
      with_uint-Fine lib _ _ _ column _ _ (λ column_arg. guarded-Fine lib _ _ _ _ _ (λ a. tt))
  perform-Fine (results_get_integer rs column) =
      with_uint-Fine lib _ _ _ column _ _ (λ column_arg. guarded-Fine lib _ _ _ _ _ (λ a. tt))
  perform-Fine (results_get_double rs column) =
      with_uint-Fine lib _ _ _ column _ _ (λ column_arg. guarded-Fine lib _ _ _ _ _ (λ a. tt))
  perform-Fine (results_get_string rs column) =
      with_uint-Fine lib _ _ _ column _ _
        (λ column_arg. guarded-Fine lib _ _ _ _ _ (text_value-Plain lib))
  perform-Fine (results_get_date rs column) =
      with_uint-Fine lib _ _ _ column _ _
        (λ column_arg. guarded-Fine lib _ _ _ _ _ (text_value-Plain lib))
  perform-Fine (results_get_time rs column) =
      with_uint-Fine lib _ _ _ column _ _
        (λ column_arg. guarded-Fine lib _ _ _ _ _ (text_value-Plain lib))
  perform-Fine (results_get_timestamp rs column) =
      with_uint-Fine lib _ _ _ column _ _
        (λ column_arg. guarded-Fine lib _ _ _ _ _ (text_value-Plain lib))
  perform-Fine (results_get_char rs column) =
      with_uint-Fine lib _ _ _ column _ _
        (λ column_arg. guarded-Fine lib _ _ _ _ _ (text_value-Plain lib))
  perform-Fine (columns_get_column_count md) = guarded-Fine lib _ _ _ [] _ (λ a. tt)
  perform-Fine (columns_get_column_name md column) =
      with_uint-Fine lib _ _ _ column _ _
        (λ column_arg. guarded-Fine lib _ _ _ [] _ (text_value-Plain lib))
  perform-Fine (columns_get_scale md column) =
      with_uint-Fine lib _ _ _ column _ _ (λ column_arg. guarded-Fine lib _ _ _ [] _ (λ a. tt))
  perform-Fine (columns_get_precision md column) =
      with_uint-Fine lib _ _ _ column _ _ (λ column_arg. guarded-Fine lib _ _ _ [] _ (λ a. tt))
  perform-Fine (columns_is_nullable md column) =
      with_uint-Fine lib _ _ _ column _ _ (λ column_arg. guarded-Fine lib _ _ _ [] _ (λ a. tt))
  perform-Fine (columns_get_column_type_name md column) =
      with_uint-Fine lib _ _ _ column _ _
        (λ column_arg. guarded-Fine lib _ _ _ _ _ (text_value-Plain lib))
  perform-Fine (statement_close st) = guarded-Fine lib _ _ _ [] _ (λ a. tt)
  perform-Fine (statement_execute st query) =
      with_string-Fine lib _ _ _ query _ _ (λ query_arg. guarded-Fine lib _ _ _ _ _ (λ a. tt))
  perform-Fine (statement_execute_query st query) =
      with_string-Fine lib _ _ _ query _ _
        (λ query_arg. guarded-Fine lib _ _ _ _ _ (wrapped-Plain lib _))
  perform-Fine (statement_execute_update st query) =
      with_string-Fine lib _ _ _ query _ _ (λ query_arg. guarded-Fine lib _ _ _ _ _ (λ a. tt))
  perform-Fine (statement_get_result_set st) = guarded-Fine lib _ _ _ [] _ (wrapped-Plain lib _)
  perform-Fine (statement_get_update_count st) = guarded-Fine lib _ _ _ [] _ (λ a. tt)
  perform-Fine (statement_get_generated_keys st) = guarded-Fine lib _ _ _ [] _ (wrapped-Plain lib _)
  perform-Fine (prepared_close st) = guarded-Fine lib _ _ _ [] _ (λ a. tt)
  perform-Fine (prepared_set_time st index time) = with_uint-Fine lib _ _ _ index _ _ (λ index_arg.
      with_time-Fine lib _ _ _ time _ _ (λ time_arg. guarded-Fine lib _ _ _ _ _ (λ a. tt)))
  perform-Fine (prepared_set_boolean st index v) =
      with_uint-Fine lib _ _ _ index _ _ (λ index_arg. guarded-Fine lib _ _ _ _ _ (λ a. tt))
  perform-Fine (prepared_set_integer st index v) =
      with_uint-Fine lib _ _ _ index _ _
        (λ index_arg. with_int-Fine lib _ _ _ v _ _ (λ v_arg. guarded-Fine lib _ _ _ _ _ (λ a. tt)))
  perform-Fine (prepared_set_double st index v) = with_uint-Fine lib _ _ _ index _ _ (λ index_arg.
      with_double-Fine lib _ _ _ v _ _ (λ v_arg. guarded-Fine lib _ _ _ _ _ (λ a. tt)))
  perform-Fine (prepared_set_string st index v) =
      with_uint-Fine lib _ _ _ index _ _ (λ index_arg.
        with_pointer-Fine lib _ _ v _ _ (λ v_arg. guarded-Fine lib _ _ _ _ _ (λ a. tt)))
  perform-Fine (prepared_execute st) = guarded-Fine lib _ _ _ [] _ (λ a. tt)
  perform-Fine (prepared_execute_query st) = guarded-Fine lib _ _ _ [] _ (wrapped-Plain lib _)
  perform-Fine (prepared_execute_update st) = guarded-Fine lib _ _ _ [] _ (λ a. tt)
  perform-Fine (prepared_get_result_set st) = guarded-Fine lib _ _ _ [] _ (wrapped-Plain lib _)
  perform-Fine (prepared_get_update_count st) = guarded-Fine lib _ _ _ [] _ (λ a. tt)
  perform-Fine (prepared_get_generated_keys st) = guarded-Fine lib _ _ _ [] _ (wrapped-Plain lib _)
  perform-Fine (connection_get_schema c) = guarded-Fine lib _ _ _ [] _ (text_value-Plain lib)
  perform-Fine (connection_close c) = guarded-Fine lib _ _ _ [] _ (λ a. tt)
  perform-Fine (connection_ping c) = answered-Fine lib _ _ _
  perform-Fine (connection_create_statement c) = guarded-Fine lib _ _ _ [] _ (wrapped-Plain lib _)
  perform-Fine (connection_create_prepared_statement c query) =
      with_string-Fine lib _ _ _ query _ _
        (λ query_arg. guarded-Fine lib _ _ _ _ _ (wrapped-Plain lib _))
  perform-Fine (connection_set_auto_commit c auto_commit) = guarded-Fine lib _ _ _ _ _ (λ a. tt)
  perform-Fine (connection_has_auto_commit c) = guarded-Fine lib _ _ _ [] _ (λ a. tt)
  perform-Fine (connection_commit c) = guarded-Fine lib _ _ _ [] _ (λ a. tt)
  perform-Fine (connection_rollback c) = guarded-Fine lib _ _ _ [] _ (λ a. tt)
  perform-Fine (connection_get_meta_data c) = guarded-Fine lib _ _ _ [] _ (wrapped-Plain lib _)
  perform-Fine (connection_create_sql_connection db schema username password) =
      with_string-Fine lib _ _ _ db _ _ (λ d. with_string-Fine lib _ _ _ schema _ _ (λ s.
        with_string-Fine lib _ _ _ username _ _ (λ u.
          with_string-Fine lib _ _ _ password _ _
            (λ p. guarded-Fine lib _ _ _ _ _ (wrapped-Plain lib _)))))

  -- Every method but `getType` accounts for how it ends by the one call of the client library that it
  -- is there for, with its converted arguments. A value is returned only after this call has returned;
  -- only `ping` also answers `false` after an SQL exception. A `NuoDB::Error` reports the SQL exception
  -- that this call threw: its message begins with the words of the method and ends with the exception's
  -- text, as far as this fits into `BUFSIZ` bytes, and its code is the exception's as an unsigned number
  -- of 32 bits, so that a negative code is not the code of the error. An exception gets through to Ruby
  -- only if this call threw it and it is no SQL exception. An error of the interpreter means that an
  -- argument could not be converted, with no call at all, or that the call had returned. The behaviour
  -- is undefined only where a string is to be bound and the value is none, again with no call.
  pub perform-Explained :
      (r : Request lib) (w : lib.World)
      → Explained lib
          (op_of lib r)
          (quiet lib r)
          (heading lib r)
          (Unbound lib r)
          w
          (perform lib r w)
  unfolding Fine
  perform-Explained r = perform-Fine r
