-- ===== src/Ruby/ResultSet.antt =====
-- ruby/nuodb/ext/nuodb/nuodb.cpp: the methods of `WrapResultSet`.
use nuodb_drivers.Prelude.{codes, ◌++◌}
use nuodb_drivers.Ruby.Library.{
  Library, Value, results_next, results_get_meta_data, results_get_boolean, results_get_integer,
  results_get_double, results_get_string,
}
use nuodb_drivers.Ruby.Calls.{
  Run, guarded, with_uint, text_value, columns_value, truth_value, int_value, float_value,
}

module _ (lib : Library) where
  unfoldable pub next : lib.handles.ResultSet → Run lib
  next rs =
      guarded lib (results_next rs) (codes "Failed to move the cursor forward one row: ")
        (truth_value lib)

  unfoldable pub get_meta_data : lib.handles.ResultSet → Run lib
  get_meta_data rs =
      guarded lib (results_get_meta_data rs)
        (codes "Failed to retrieve number, types, and properties of the result set: ")
        (columns_value lib)

  unfoldable pub get_boolean : lib.handles.ResultSet → Value lib.handles → Run lib
  get_boolean rs column_value = with_uint lib column_value (λ column.
      guarded lib (results_get_boolean rs column)
        (codes "Failed to get boolean value for the designated column ("
          ++ (lib.decimal column ++ codes "): "))
        (truth_value lib))

  unfoldable pub get_integer : lib.handles.ResultSet → Value lib.handles → Run lib
  get_integer rs column_value = with_uint lib column_value (λ column.
      guarded lib (results_get_integer rs column)
        (codes "Failed to get integer value for the designated column ("
          ++ (lib.decimal column ++ codes "): "))
        (int_value lib))

  unfoldable pub get_double : lib.handles.ResultSet → Value lib.handles → Run lib
  get_double rs column_value = with_uint lib column_value (λ column.
      guarded lib (results_get_double rs column)
        (codes "Failed to get double value for the designated column ("
          ++ (lib.decimal column ++ codes "): "))
        (float_value lib))

  unfoldable pub get_string : lib.handles.ResultSet → Value lib.handles → Run lib
  get_string rs column_value = with_uint lib column_value (λ column.
      guarded lib (results_get_string rs column)
        (codes "Failed to get string value for the designated column ("
          ++ (lib.decimal column ++ codes "): "))
        (text_value lib))

  unfoldable pub get_date : lib.handles.ResultSet → Value lib.handles → Run lib
  get_date rs column_value = with_uint lib column_value (λ column.
      guarded lib (results_get_string rs column)
        (codes "Failed to get date value for the designated column ("
          ++ (lib.decimal column ++ codes "): "))
        (text_value lib))

  unfoldable pub get_time : lib.handles.ResultSet → Value lib.handles → Run lib
  get_time rs column_value = with_uint lib column_value (λ column.
      guarded lib (results_get_string rs column)
        (codes "Failed to get time value for the designated column ("
          ++ (lib.decimal column ++ codes "): "))
        (text_value lib))

  unfoldable pub get_timestamp : lib.handles.ResultSet → Value lib.handles → Run lib
  get_timestamp rs column_value = with_uint lib column_value (λ column.
      guarded lib (results_get_string rs column)
        (codes "Failed to get timestamp value for the designated column ("
          ++ (lib.decimal column ++ codes "): "))
        (text_value lib))

  unfoldable pub get_char : lib.handles.ResultSet → Value lib.handles → Run lib
  get_char rs column_value = with_uint lib column_value (λ column.
      guarded lib (results_get_string rs column)
        (codes "Failed to get char value for the designated column ("
          ++ (lib.decimal column ++ codes "): "))
        (text_value lib))
