-- ===== src/Ruby/Connection.antt =====
-- ruby/nuodb/ext/nuodb/nuodb.cpp: the methods of `WrapConnection`.
use nuodb_drivers.Prelude.{codes, ◌++◌}
use nuodb_drivers.Prelude.Outcome.{pos}
use nuodb_drivers.Ruby.Library.{
  Library, Value, connection_get_schema, connection_close, connection_ping,
  connection_create_statement, connection_create_prepared_statement, connection_set_auto_commit,
  connection_has_auto_commit, connection_commit, connection_rollback, connection_get_meta_data,
  get_database_connection,
}
use nuodb_drivers.Ruby.Calls.{
  Run, guarded, answered, with_string, ruby_truth, bit, text_value, statement_value, prepared_value,
  database_value, connection_value, truth_value, nil_value,
}

module _ (lib : Library) where
  unfoldable pub get_schema : lib.handles.Connection → Run lib
  get_schema c =
      guarded lib (connection_get_schema c) (codes "Failed to get schema for connection: ")
        (text_value lib)

  unfoldable pub close : lib.handles.Connection → Run lib
  close c =
      guarded lib (connection_close c) (codes "Failed to successfully disconnect connection: ")
        (nil_value lib)

  unfoldable pub ping : lib.handles.Connection → Run lib
  ping c = answered lib (connection_ping c)

  unfoldable pub create_statement : lib.handles.Connection → Run lib
  create_statement c =
      guarded lib (connection_create_statement c) (codes "Failed to create statement: ")
        (statement_value lib)

  unfoldable pub create_prepared_statement : lib.handles.Connection → Value lib.handles → Run lib
  create_prepared_statement c query_value = with_string lib query_value (λ query.
      guarded lib (connection_create_prepared_statement c query)
        (codes "Failed to create prepared statement (" ++ (query ++ codes "): "))
        (prepared_value lib))

  unfoldable pub set_auto_commit : lib.handles.Connection → Value lib.handles → Run lib
  set_auto_commit c auto_commit_value =
      guarded lib (connection_set_auto_commit c (ruby_truth lib.handles auto_commit_value))
        (codes "Failed to set auto-commit ("
          ++ (lib.decimal (pos (bit (ruby_truth lib.handles auto_commit_value)))
              ++ codes ") for connection: "))
        (nil_value lib)

  unfoldable pub has_auto_commit : lib.handles.Connection → Run lib
  has_auto_commit c =
      guarded lib (connection_has_auto_commit c)
        (codes "Failed to determine auto-commit state for connection: ") (truth_value lib)

  unfoldable pub commit : lib.handles.Connection → Run lib
  commit c =
      guarded lib (connection_commit c) (codes "Failed to commit transaction: ") (nil_value lib)

  unfoldable pub rollback : lib.handles.Connection → Run lib
  rollback c =
      guarded lib (connection_rollback c) (codes "Failed to rollback transaction: ") (nil_value lib)

  unfoldable pub get_meta_data : lib.handles.Connection → Run lib
  get_meta_data c =
      guarded lib (connection_get_meta_data c) (codes "Failed to get database metadata: ")
        (database_value lib)

  unfoldable pub create_sql_connection :
      Value lib.handles → Value lib.handles → Value lib.handles → Value lib.handles → Run lib
  create_sql_connection database_value schema_value username_value password_value =
      with_string lib database_value (λ database. with_string lib schema_value (λ schema.
        with_string lib username_value (λ username. with_string lib password_value (λ password.
          guarded lib (get_database_connection database username password schema)
            (codes "Failed to create database connection (\""
              ++ (database
                  ++ (codes "\", \""
                      ++ (username ++ (codes "\", ********, \"" ++ (schema ++ codes "\"): "))))))
            (connection_value lib)))))
