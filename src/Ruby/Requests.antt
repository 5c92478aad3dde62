-- ===== src/Ruby/Requests.antt =====
-- ruby/nuodb/ext/nuodb/nuodb.cpp: what a script can call, but for `getType`.
use nuodb_drivers.Ruby.Library.{Library, Value}
use nuodb_drivers.Ruby.Calls.{Run}
use nuodb_drivers.Ruby.DatabaseMetaData
use nuodb_drivers.Ruby.ResultSet
use nuodb_drivers.Ruby.ResultSetMetaData
use nuodb_drivers.Ruby.Statement
use nuodb_drivers.Ruby.PreparedStatement
use nuodb_drivers.Ruby.Connection

module _ (lib : Library) where
  open lib use {handles}

  -- A method with its object and its arguments
  pub data Request : Type 0 where
    database_get_database_version : handles.DatabaseMetaData → Request
    database_get_index_info :
        handles.DatabaseMetaData
        → Value handles
        → Value handles
        → Value handles
        → Value handles
        → Request
    database_get_columns : handles.DatabaseMetaData → Value handles → Value handles → Request
    database_get_tables : handles.DatabaseMetaData → Value handles → Value handles → Request
    results_next : handles.ResultSet → Request
    results_get_meta_data : handles.ResultSet → Request
    results_get_boolean : handles.ResultSet → Value handles → Request
    results_get_integer : handles.ResultSet → Value handles → Request
    results_get_double : handles.ResultSet → Value handles → Request
    results_get_string : handles.ResultSet → Value handles → Request
    results_get_date : handles.ResultSet → Value handles → Request
    results_get_time : handles.ResultSet → Value handles → Request
    results_get_timestamp : handles.ResultSet → Value handles → Request
    results_get_char : handles.ResultSet → Value handles → Request
    columns_get_column_count : handles.ResultSetMetaData → Request
    columns_get_column_name : handles.ResultSetMetaData → Value handles → Request
    columns_get_scale : handles.ResultSetMetaData → Value handles → Request
    columns_get_precision : handles.ResultSetMetaData → Value handles → Request
    columns_is_nullable : handles.ResultSetMetaData → Value handles → Request
    columns_get_column_type_name : handles.ResultSetMetaData → Value handles → Request
    statement_close : handles.Statement → Request
    statement_execute : handles.Statement → Value handles → Request
    statement_execute_query : handles.Statement → Value handles → Request
    statement_execute_update : handles.Statement → Value handles → Request
    statement_get_result_set : handles.Statement → Request
    statement_get_update_count : handles.Statement → Request
    statement_get_generated_keys : handles.Statement → Request
    prepared_close : handles.PreparedStatement → Request
    prepared_set_time : handles.PreparedStatement → Value handles → Value handles → Request
    prepared_set_boolean : handles.PreparedStatement → Value handles → Value handles → Request
    prepared_set_integer : handles.PreparedStatement → Value handles → Value handles → Request
    prepared_set_double : handles.PreparedStatement → Value handles → Value handles → Request
    prepared_set_string : handles.PreparedStatement → Value handles → Value handles → Request
    prepared_execute : handles.PreparedStatement → Request
    prepared_execute_query : handles.PreparedStatement → Request
    prepared_execute_update : handles.PreparedStatement → Request
    prepared_get_result_set : handles.PreparedStatement → Request
    prepared_get_update_count : handles.PreparedStatement → Request
    prepared_get_generated_keys : handles.PreparedStatement → Request
    connection_get_schema : handles.Connection → Request
    connection_close : handles.Connection → Request
    connection_ping : handles.Connection → Request
    connection_create_statement : handles.Connection → Request
    connection_create_prepared_statement : handles.Connection → Value handles → Request
    connection_set_auto_commit : handles.Connection → Value handles → Request
    connection_has_auto_commit : handles.Connection → Request
    connection_commit : handles.Connection → Request
    connection_rollback : handles.Connection → Request
    connection_get_meta_data : handles.Connection → Request
    connection_create_sql_connection :
        Value handles → Value handles → Value handles → Value handles → Request

  unfoldable pub perform : Request → Run lib
  unfolding DatabaseMetaData.get_database_version DatabaseMetaData.get_index_info
      DatabaseMetaData.get_columns DatabaseMetaData.get_tables ResultSet.next
      ResultSet.get_meta_data ResultSet.get_boolean ResultSet.get_integer ResultSet.get_double
      ResultSet.get_string ResultSet.get_date ResultSet.get_time ResultSet.get_timestamp
      ResultSet.get_char ResultSetMetaData.get_column_count ResultSetMetaData.get_column_name
      ResultSetMetaData.get_scale ResultSetMetaData.get_precision ResultSetMetaData.is_nullable
      ResultSetMetaData.get_column_type_name Statement.close Statement.execute
      Statement.execute_query Statement.execute_update Statement.get_result_set
      Statement.get_update_count Statement.get_generated_keys PreparedStatement.close
      PreparedStatement.set_time PreparedStatement.set_boolean PreparedStatement.set_integer
      PreparedStatement.set_double PreparedStatement.set_string PreparedStatement.execute
      PreparedStatement.execute_query PreparedStatement.execute_update
      PreparedStatement.get_result_set PreparedStatement.get_update_count
      PreparedStatement.get_generated_keys Connection.get_schema Connection.close Connection.ping
      Connection.create_statement Connection.create_prepared_statement Connection.set_auto_commit
      Connection.has_auto_commit Connection.commit Connection.rollback Connection.get_meta_data
      Connection.create_sql_connection
  perform (database_get_database_version md) = DatabaseMetaData.get_database_version lib md
  perform (database_get_index_info md schema table unique approx) =
      DatabaseMetaData.get_index_info lib md schema table unique approx
  perform (database_get_columns md schema table) = DatabaseMetaData.get_columns lib md schema table
  perform (database_get_tables md schema table) = DatabaseMetaData.get_tables lib md schema table
  perform (results_next rs) = ResultSet.next lib rs
  perform (results_get_meta_data rs) = ResultSet.get_meta_data lib rs
  perform (results_get_boolean rs column) = ResultSet.get_boolean lib rs column
  perform (results_get_integer rs column) = ResultSet.get_integer lib rs column
  perform (results_get_double rs column) = ResultSet.get_double lib rs column
  perform (results_get_string rs column) = ResultSet.get_string lib rs column
  perform (results_get_date rs column) = ResultSet.get_date lib rs column
  perform (results_get_time rs column) = ResultSet.get_time lib rs column
  perform (results_get_timestamp rs column) = ResultSet.get_timestamp lib rs column
  perform (results_get_char rs column) = ResultSet.get_char lib rs column
  perform (columns_get_column_count md) = ResultSetMetaData.get_column_count lib md
  perform (columns_get_column_name md column) = ResultSetMetaData.get_column_name lib md column
  perform (columns_get_scale md column) = ResultSetMetaData.get_scale lib md column
  perform (columns_get_precision md column) = ResultSetMetaData.get_precision lib md column
  perform (columns_is_nullable md column) = ResultSetMetaData.is_nullable lib md column
  perform (columns_get_column_type_name md column) =
      ResultSetMetaData.get_column_type_name lib md column
  perform (statement_close st) = Statement.close lib st
  perform (statement_execute st query) = Statement.execute lib st query
  perform (statement_execute_query st query) = Statement.execute_query lib st query
  perform (statement_execute_update st query) = Statement.execute_update lib st query
  perform (statement_get_result_set st) = Statement.get_result_set lib st
  perform (statement_get_update_count st) = Statement.get_update_count lib st
  perform (statement_get_generated_keys st) = Statement.get_generated_keys lib st
  perform (prepared_close st) = PreparedStatement.close lib st
  perform (prepared_set_time st index time) = PreparedStatement.set_time lib st index time
  perform (prepared_set_boolean st index v) = PreparedStatement.set_boolean lib st index v
  perform (prepared_set_integer st index v) = PreparedStatement.set_integer lib st index v
  perform (prepared_set_double st index v) = PreparedStatement.set_double lib st index v
  perform (prepared_set_string st index v) = PreparedStatement.set_string lib st index v
  perform (prepared_execute st) = PreparedStatement.execute lib st
  perform (prepared_execute_query st) = PreparedStatement.execute_query lib st
  perform (prepared_execute_update st) = PreparedStatement.execute_update lib st
  perform (prepared_get_result_set st) = PreparedStatement.get_result_set lib st
  perform (prepared_get_update_count st) = PreparedStatement.get_update_count lib st
  perform (prepared_get_generated_keys st) = PreparedStatement.get_generated_keys lib st
  perform (connection_get_schema c) = Connection.get_schema lib c
  perform (connection_close c) = Connection.close lib c
  perform (connection_ping c) = Connection.ping lib c
  perform (connection_create_statement c) = Connection.create_statement lib c
  perform (connection_create_prepared_statement c query) =
      Connection.create_prepared_statement lib c query
  perform (connection_set_auto_commit c auto_commit) = Connection.set_auto_commit lib c auto_commit
  perform (connection_has_auto_commit c) = Connection.has_auto_commit lib c
  perform (connection_commit c) = Connection.commit lib c
  perform (connection_rollback c) = Connection.rollback lib c
  perform (connection_get_meta_data c) = Connection.get_meta_data lib c
  perform (connection_create_sql_connection db schema username password) =
      Connection.create_sql_connection lib db schema username password
