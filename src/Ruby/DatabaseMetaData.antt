-- ===== src/Ruby/DatabaseMetaData.antt =====
-- ruby/nuodb/ext/nuodb/nuodb.cpp: the methods of `WrapDatabaseMetaData`.
use nuodb_drivers.Prelude.{codes}
use nuodb_drivers.Ruby.Library.{
  Library, Value, database_get_database_version, database_get_index_info, database_get_columns,
  database_get_tables,
}
use nuodb_drivers.Ruby.Calls.{Run, guarded, with_string, ruby_truth, text_value, results_value}

module _ (lib : Library) where
  unfoldable pub get_database_version : lib.handles.DatabaseMetaData → Run lib
  get_database_version md =
      guarded lib (database_get_database_version md)
        (codes "Get database metadata database version failed: ") (text_value lib)

  unfoldable pub get_index_info :
      lib.handles.DatabaseMetaData
      → Value lib.handles
      → Value lib.handles
      → Value lib.handles
      → Value lib.handles
      → Run lib
  get_index_info md schema_value table_value unique_value approx_value =
      with_string lib schema_value (λ schema. with_string lib table_value (λ table.
        guarded lib
          (database_get_index_info md schema table (ruby_truth lib.handles unique_value)
            (ruby_truth lib.handles approx_value))
          (codes "Get database metadata index info failed: ") (results_value lib)))

  unfoldable pub get_columns :
      lib.handles.DatabaseMetaData → Value lib.handles → Value lib.handles → Run lib
  get_columns md schema_value table_value = with_string lib schema_value (λ schema.
      with_string lib table_value (λ table.
        guarded lib (database_get_columns md schema table) (codes "Get columns failed: ")
          (results_value lib)))

  unfoldable pub get_tables :
      lib.handles.DatabaseMetaData → Value lib.handles → Value lib.handles → Run lib
  get_tables md schema_value table_value = with_string lib schema_value (λ schema.
      with_string lib table_value (λ table.
        guarded lib (database_get_tables md schema table) (codes "Get tables failed: ")
          (results_value lib)))
