-- ===== src/Ruby/Statement.antt =====
-- ruby/nuodb/ext/nuodb/nuodb.cpp: the methods of `WrapStatement`.
use nuodb_drivers.Prelude.{codes, ◌++◌}
use nuodb_drivers.Ruby.Library.{
  Library, Value, statement_close, statement_execute, statement_execute_query,
  statement_execute_update, statement_get_result_set, statement_get_update_count,
  statement_get_generated_keys,
}
use nuodb_drivers.Ruby.Calls.{
  Run, guarded, with_string, results_value, truth_value, int_value, nil_value,
}

module _ (lib : Library) where
  unfoldable pub close : lib.handles.Statement → Run lib
  close st =
      guarded lib (statement_close st) (codes "Failed to successfully close statement: ")
        (nil_value lib)

  unfoldable pub execute : lib.handles.Statement → Value lib.handles → Run lib
  execute st query_value = with_string lib query_value (λ query.
      guarded lib (statement_execute st query)
        (codes "Failed to execute SQL statement (\"" ++ (query ++ codes "\"): ")) (truth_value lib))

  unfoldable pub execute_query : lib.handles.Statement → Value lib.handles → Run lib
  execute_query st query_value = with_string lib query_value (λ query.
      guarded lib (statement_execute_query st query)
        (codes "Failed to execute SQL query statement (\"" ++ (query ++ codes "\"): "))
        (results_value lib))

  unfoldable pub execute_update : lib.handles.Statement → Value lib.handles → Run lib
  execute_update st query_value = with_string lib query_value (λ query.
      guarded lib (statement_execute_update st query)
        (codes "Failed to execute SQL update statement (\"" ++ (query ++ codes "\"): "))
        (int_value lib))

  unfoldable pub get_result_set : lib.handles.Statement → Run lib
  get_result_set st =
      guarded lib (statement_get_result_set st) (codes "Failed to get statement result set: ")
        (results_value lib)

  unfoldable pub get_update_count : lib.handles.Statement → Run lib
  get_update_count st =
      guarded lib (statement_get_update_count st)
        (codes "Failed to get update count for statement: ") (int_value lib)

  unfoldable pub get_generated_keys : lib.handles.Statement → Run lib
  get_generated_keys st =
      guarded lib (statement_get_generated_keys st)
        (codes "Failed to get generated keys for statement: ") (results_value lib)
