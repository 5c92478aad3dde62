-- ===== src/Ruby/Library.antt =====
-- What ruby/nuodb/ext/nuodb/nuodb.cpp calls of the NuoDB client library and of the Ruby interpreter.
-- They are not part of the repository, so they are parameters.
use nuodb_drivers.Prelude.{ℕ, Bool, Option, Bytes}
use nuodb_drivers.Prelude.Outcome.{ℤ}
use nuodb_drivers.Client.{Attempt}

-- The `NUOSQL_…` codes that the driver names, and any other code
pub data SqlType : Type 0 where
  null bit tinyint smallint integer bigint float double char varchar longvarchar : SqlType
  date time timestamp blob clob numeric decimal boolean binary longvarbinary : SqlType
  other : ℤ → SqlType

-- The objects of the client library, and the numbers of C
pub record Handles : Type 1 where
  pub DatabaseMetaData : Type 0
  pub ResultSet : Type 0
  pub ResultSetMetaData : Type 0
  pub Statement : Type 0
  pub PreparedStatement : Type 0
  pub Connection : Type 0
  pub Double : Type 0
  -- a value of Ruby that the driver never makes
  pub Object : Type 0

module _ (handles : Handles) where
  open handles use {
    DatabaseMetaData, ResultSet, ResultSetMetaData, Statement, PreparedStatement, Connection,
    Double,
  }

  -- A call of the client library, by the object and the method
  pub data Op : Type 0 where
    database_get_database_version : DatabaseMetaData → Op
    database_get_index_info : DatabaseMetaData → Bytes → Bytes → Bool → Bool → Op
    database_get_columns : DatabaseMetaData → Bytes → Bytes → Op
    database_get_tables : DatabaseMetaData → Bytes → Bytes → Op
    results_next : ResultSet → Op
    results_get_meta_data : ResultSet → Op
    results_get_boolean : ResultSet → ℤ → Op
    results_get_integer : ResultSet → ℤ → Op
    results_get_double : ResultSet → ℤ → Op
    results_get_string : ResultSet → ℤ → Op
    columns_get_column_count : ResultSetMetaData → Op
    columns_get_column_name : ResultSetMetaData → ℤ → Op
    columns_get_scale : ResultSetMetaData → ℤ → Op
    columns_get_precision : ResultSetMetaData → ℤ → Op
    columns_is_nullable : ResultSetMetaData → ℤ → Op
    columns_get_column_type_name : ResultSetMetaData → ℤ → Op
    statement_close : Statement → Op
    statement_execute : Statement → Bytes → Op
    statement_execute_query : Statement → Bytes → Op
    statement_execute_update : Statement → Bytes → Op
    statement_get_result_set : Statement → Op
    statement_get_update_count : Statement → Op
    statement_get_generated_keys : Statement → Op
    prepared_close : PreparedStatement → Op
    prepared_set_time : PreparedStatement → ℤ → ℤ → Op
    prepared_set_int : PreparedStatement → ℤ → ℤ → Op
    prepared_set_double : PreparedStatement → ℤ → Double → Op
    prepared_set_string : PreparedStatement → ℤ → Bytes → Op
    prepared_execute : PreparedStatement → Op
    prepared_execute_query : PreparedStatement → Op
    prepared_execute_update : PreparedStatement → Op
    prepared_get_result_set : PreparedStatement → Op
    prepared_get_update_count : PreparedStatement → Op
    prepared_get_generated_keys : PreparedStatement → Op
    connection_get_schema : Connection → Op
    connection_close : Connection → Op
    connection_ping : Connection → Op
    connection_create_statement : Connection → Op
    connection_create_prepared_statement : Connection → Bytes → Op
    connection_set_auto_commit : Connection → Bool → Op
    connection_has_auto_commit : Connection → Op
    connection_commit : Connection → Op
    connection_rollback : Connection → Op
    connection_get_meta_data : Connection → Op
    columns_get_column_type : ResultSetMetaData → ℤ → Op
    get_database_connection : Bytes → Bytes → Bytes → Bytes → Op

  -- What it returns
  abbrev pub Result : Op → Type 0
  Result (database_get_database_version _) = Option Bytes
  Result (database_get_index_info _ _ _ _ _) = Option ResultSet
  Result (database_get_columns _ _ _) = Option ResultSet
  Result (database_get_tables _ _ _) = Option ResultSet
  Result (results_next _) = Bool
  Result (results_get_meta_data _) = Option ResultSetMetaData
  Result (results_get_boolean _ _) = Bool
  Result (results_get_integer _ _) = ℤ
  Result (results_get_double _ _) = Double
  Result (results_get_string _ _) = Option Bytes
  Result (columns_get_column_count _) = ℤ
  Result (columns_get_column_name _ _) = Option Bytes
  Result (columns_get_scale _ _) = ℤ
  Result (columns_get_precision _ _) = ℤ
  Result (columns_is_nullable _ _) = Bool
  Result (columns_get_column_type_name _ _) = Option Bytes
  Result (statement_close _) = Unit {0}
  Result (statement_execute _ _) = Bool
  Result (statement_execute_query _ _) = Option ResultSet
  Result (statement_execute_update _ _) = ℤ
  Result (statement_get_result_set _) = Option ResultSet
  Result (statement_get_update_count _) = ℤ
  Result (statement_get_generated_keys _) = Option ResultSet
  Result (prepared_close _) = Unit {0}
  Result (prepared_set_time _ _ _) = Unit {0}
  Result (prepared_set_int _ _ _) = Unit {0}
  Result (prepared_set_double _ _ _) = Unit {0}
  Result (prepared_set_string _ _ _) = Unit {0}
  Result (prepared_execute _) = Bool
  Result (prepared_execute_query _) = Option ResultSet
  Result (prepared_execute_update _) = ℤ
  Result (prepared_get_result_set _) = Option ResultSet
  Result (prepared_get_update_count _) = ℤ
  Result (prepared_get_generated_keys _) = Option ResultSet
  Result (connection_get_schema _) = Option Bytes
  Result (connection_close _) = Unit {0}
  Result (connection_ping _) = Unit {0}
  Result (connection_create_statement _) = Option Statement
  Result (connection_create_prepared_statement _ _) = Option PreparedStatement
  Result (connection_set_auto_commit _ _) = Unit {0}
  Result (connection_has_auto_commit _) = Bool
  Result (connection_commit _) = Unit {0}
  Result (connection_rollback _) = Unit {0}
  Result (connection_get_meta_data _) = Option DatabaseMetaData
  Result (columns_get_column_type _ _) = SqlType
  Result (get_database_connection _ _ _ _) = Option Connection

  -- A `VALUE` of Ruby: the constants, what the driver makes, and any other object
  pub data Value : Type 0 where
    nil : Value
    truth : Bool → Value
    number : ℤ → Value
    real : Double → Value
    string : Bytes → Value
    symbol : Bytes → Value
    database : DatabaseMetaData → Value
    results : ResultSet → Value
    columns : ResultSetMetaData → Value
    statement : Statement → Value
    prepared : PreparedStatement → Value
    connection : Connection → Value
    object : handles.Object → Value

pub record Library : Type 1 where
  pub handles : Handles
  pub World : Type 0
  pub call : (op : Op handles) → World → Attempt (Result handles op) × World
  -- `NUM2UINT`, `NUM2INT`, `NUM2DBL` and `StringValuePtr`, which may raise an error of Ruby
  pub num2uint : Value handles → Option ℕ
  pub num2int : Value handles → Option ℤ
  pub num2dbl : Value handles → Option handles.Double
  pub string_value_ptr : Value handles → Option Bytes
  -- `rb_time_timeval`: seconds and microseconds
  pub time_timeval : Value handles → Option (ℤ × ℕ)
  -- `RSTRING_PTR`, which is undefined for another value than a string
  pub rstring_ptr : Value handles → Option Bytes
  -- `BUFSIZ`, and the formats `%d` and `%g`
  pub bufsiz : ℕ
  pub decimal : ℤ → Bytes
  pub shortest : handles.Double → Bytes
