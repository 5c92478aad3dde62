-- ===== src/Ruby/PreparedStatement.antt =====
-- ruby/nuodb/ext/nuodb/nuodb.cpp: the methods of `WrapPreparedStatement`.
use nuodb_drivers.Prelude.{codes, ◌++◌, if◌then◌else◌}
use nuodb_drivers.Prelude.Outcome.{pos}
use nuodb_drivers.Ruby.Library.{
  Library, Value, prepared_close, prepared_set_time, prepared_set_int, prepared_set_double,
  prepared_set_string, prepared_execute, prepared_execute_query, prepared_execute_update,
  prepared_get_result_set, prepared_get_update_count, prepared_get_generated_keys,
}
use nuodb_drivers.Ruby.Calls.{
  Run, guarded, with_uint, with_int, with_double, with_pointer, with_time, c_truth, bit,
  results_value, truth_value, int_value, nil_value,
}

module _ (lib : Library) where
  unfoldable pub close : lib.handles.PreparedStatement → Run lib
  close st =
      guarded lib (prepared_close st) (codes "Failed to successfully close prepared statement: ")
        (nil_value lib)

  unfoldable pub set_time :
      lib.handles.PreparedStatement → Value lib.handles → Value lib.handles → Run lib
  set_time st index_value time_value = with_uint lib index_value (λ index.
      with_time lib time_value (λ time.
        guarded lib (prepared_set_time st index time)
          (codes "Failed to set prepared statement setTime("
            ++ (lib.decimal index ++ (codes ", " ++ (lib.decimal time ++ codes ") failed: "))))
          (nil_value lib)))

  unfoldable pub set_boolean :
      lib.handles.PreparedStatement → Value lib.handles → Value lib.handles → Run lib
  set_boolean st index_value value_value = with_uint lib index_value (λ index.
      guarded lib (prepared_set_int st index (pos (bit (c_truth lib.handles value_value))))
        (codes "Failed to set prepared statement boolean value ("
          ++ (lib.decimal index
              ++ (codes ", "
                  ++ ((if c_truth lib.handles value_value then codes "true" else codes "false")
                      ++ codes "): "))))
        (nil_value lib))

  unfoldable pub set_integer :
      lib.handles.PreparedStatement → Value lib.handles → Value lib.handles → Run lib
  set_integer st index_value value_value = with_uint lib index_value (λ index.
      with_int lib value_value (λ value.
        guarded lib (prepared_set_int st index value)
          (codes "Failed to set prepared statement integer value ("
            ++ (lib.decimal index ++ (codes ", " ++ (lib.decimal value ++ codes "): "))))
          (nil_value lib)))

  unfoldable pub set_double :
      lib.handles.PreparedStatement → Value lib.handles → Value lib.handles → Run lib
  set_double st index_value value_value = with_uint lib index_value (λ index.
      with_double lib value_value (λ value.
        guarded lib (prepared_set_double st index value)
          (codes "Failed to set prepared statement double value ("
            ++ (lib.decimal index ++ (codes ", " ++ (lib.shortest value ++ codes "): "))))
          (nil_value lib)))

  unfoldable pub set_string :
      lib.handles.PreparedStatement → Value lib.handles → Value lib.handles → Run lib
  set_string st index_value value_value = with_uint lib index_value (λ index.
      with_pointer lib value_value (λ value.
        guarded lib (prepared_set_string st index value)
          (codes "Failed to set prepared statement string value ("
            ++ (lib.decimal index ++ (codes ", \"" ++ (value ++ codes "\"): "))))
          (nil_value lib)))

  unfoldable pub execute : lib.handles.PreparedStatement → Run lib
  execute st =
      guarded lib (prepared_execute st) (codes "Failed to execute SQL prepared statement: ")
        (truth_value lib)

  unfoldable pub execute_query : lib.handles.PreparedStatement → Run lib
  execute_query st =
      guarded lib (prepared_execute_query st)
        (codes "Failed to execute SQL query prepared statement: ") (results_value lib)

  unfoldable pub execute_update : lib.handles.PreparedStatement → Run lib
  execute_update st =
      guarded lib (prepared_execute_update st)
        (codes "Failed to execute SQL update prepared statement: ") (int_value lib)

  unfoldable pub get_result_set : lib.handles.PreparedStatement → Run lib
  get_result_set st =
      guarded lib (prepared_get_result_set st)
        (codes "Failed to get the result set for the prepared statement: ") (results_value lib)

  unfoldable pub get_update_count : lib.handles.PreparedStatement → Run lib
  get_update_count st =
      guarded lib (prepared_get_update_count st)
        (codes "Failed to get the update count for the prepared statement: ") (int_value lib)

  unfoldable pub get_generated_keys : lib.handles.PreparedStatement → Run lib
  get_generated_keys st =
      guarded lib (prepared_get_generated_keys st)
        (codes "Failed to get the generated keys for the prepared statement: ") (results_value lib)
