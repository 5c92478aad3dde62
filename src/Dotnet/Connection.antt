-- ===== src/Dotnet/Connection.antt =====
-- dotnet/nuodb/connection.cpp, connection.h and transaction.cpp: the methods of `NuoDbConnection` and
-- of `NuoDbTransaction`.
pub mod Parse
pub mod Requests
pub mod Rules
pub mod Phases
pub mod Keeping
pub mod Simulation
pub mod RoundTrip
pub mod Lost
use nuodb_drivers.Prelude.{Bool, true, false, not, Option, none, some, List, [], ◌∷◌, Bytes, codes}
use nuodb_drivers.Dotnet.Calls.{
  ◌>>=◌, ◌>>◌, pure, throw, throw_if, gets, Error, nuodb, argument_null, not_supported,
  null_reference, native_of, String, is_null_or_empty, is_some,
}
use nuodb_drivers.Dotnet.Library.{Library}
use nuodb_drivers.Dotnet.Objects.{
  IsolationLevel, read_committed, other, Transaction, Connection, State, Act, call, try_call,
  release, set_conn,
}
use nuodb_drivers.Dotnet.Connection.Parse.{parse_connection_string}

module _ (lib : Library) where
  -- A pointer, where a method has to have one
  abbrev pub require : Bytes → Option lib.Connection → Act lib lib.Connection
  require text none = throw (nuodb text)
  require text (some c) = pure c

  abbrev pub open_or : Bytes → Act lib lib.Connection
  open_or text s = require text s.conn.connection s

  -- The constructors
  abbrev pub closed : Connection lib
  closed = record {
    connection = none;
    in_transaction = false;
    connection_string = some [];
    database = [];
    schema = [];
    username = [];
    password = [];
    disposed = false;
  }

  unfoldable pub construct : Act lib (Unit {0})
  construct = set_conn (λ c. closed)

  unfoldable pub construct_with : String → Act lib (Unit {0})
  construct_with text = do
    set_conn (λ c. record closed { connection_string = none })
    throw_if (is_null_or_empty text) argument_null
    set_conn (λ c. record c { connection_string = text })
    parse_connection_string lib

  -- The setter of `ConnectionString`
  unfoldable pub set_connection_string : String → Act lib (Unit {0})
  set_connection_string text = do
    throw_if (is_null_or_empty text) argument_null
    set_conn (λ c. record c { connection_string = text })
    parse_connection_string lib

  abbrev pub finished : Bool → Act lib (Unit {0}) → Act lib (Unit {0})
  finished true m = m
  finished false m = pure tt

  -- The end of `CommitTransaction` and of `RollbackTransaction`
  abbrev pub ended : lib.Connection → Act lib (Unit {0})
  ended c = do
    set_conn (λ x. record x { in_transaction = false })
    call (lib.set_auto_commit c true)

  unfoldable pub commit_transaction : Act lib (Unit {0})
  commit_transaction = do
    c ← open_or (codes "The connection is not open.")
    underway ← gets (λ s. s.conn.in_transaction)
    finished underway (call (lib.commit c) >> ended c)

  unfoldable pub rollback_transaction : Act lib (Unit {0})
  rollback_transaction = do
    c ← open_or (codes "The connection is not open.")
    underway ← gets (λ s. s.conn.in_transaction)
    finished underway (call (lib.rollback c) >> ended c)

  -- The first test that is true throws.
  abbrev pub refuse : List (Bool × Error) → Act lib (Unit {0})
  refuse [] = pure tt
  refuse ((test, e) ∷ rest) = throw_if test e >> refuse rest

  abbrev pub tests : Connection lib → List (Bool × Error)
  tests c =
      (is_null_or_empty c.connection_string, argument_null)
      ∷ (is_null_or_empty (some c.database), argument_null)
      ∷ (is_null_or_empty (some c.schema), argument_null)
      ∷ (is_null_or_empty (some c.username), argument_null)
      ∷ (is_null_or_empty (some c.password), argument_null)
      ∷ []

  abbrev pub settings : Connection lib → List (Bool × Error)
  settings c = (is_some c.connection, nuodb (codes "The connection is already open.")) ∷ tests c

  abbrev pub connect : Connection lib → Act lib (Unit {0})
  connect x = do
    c ← try_call (lib.create_connection x.database x.schema x.username x.password)
    set_conn (λ y. record y { connection = some c })

  -- `OpenConnection` and `Open`
  unfoldable pub open_connection : Act lib (Unit {0})
  open_connection = do s ← gets (λ s. s); refuse (settings s.conn); connect s.conn

  abbrev pub delete_if : Option lib.Connection → Act lib (Unit {0})
  delete_if none = pure tt
  delete_if (some c) = release (lib.delete_connection c)

  -- The finalizer, and the end of `Close`
  abbrev pub delete_connection : Act lib (Unit {0})
  delete_connection = do
    c ← gets (λ s. s.conn.connection)
    delete_if c
    set_conn (λ x. record x { connection = none })

  unfoldable pub close : Act lib (Unit {0})
  close = rollback_transaction >> delete_connection

  -- The destructor
  unfoldable pub dispose : Act lib (Unit {0})
  dispose = do
    disposed ← gets (λ s. s.conn.disposed)
    finished (not disposed)
        (do rollback_transaction; delete_connection; set_conn (λ x. record x { disposed = true }))

  -- `BeginTransaction`, with the constructor of `NuoDbTransaction`, which does not keep the connection
  abbrev pub new_transaction : IsolationLevel → Transaction
  new_transaction level = record { connection = false; isolation_level = level }

  abbrev pub begin_idle : IsolationLevel → lib.Connection → Act lib Transaction
  begin_idle level c = do
    set_conn (λ x. record x { in_transaction = true })
    call (lib.set_auto_commit c false)
    pure (new_transaction level)

  unfoldable pub begin_transaction : Act lib Transaction
  begin_transaction = do
    c ← open_or (codes "The connection is closed.")
    underway ← gets (λ s. s.conn.in_transaction)
    throw_if underway (nuodb (codes "A transaction is already underway."))
    begin_idle read_committed c

  abbrev pub is_read_committed : IsolationLevel → Bool
  is_read_committed read_committed = true
  is_read_committed (other n) = false

  -- `BeginTransaction(IsolationLevel)` and `BeginDbTransaction`
  unfoldable pub begin_isolated : IsolationLevel → Act lib Transaction
  begin_isolated level = do
    c ← open_or (codes "The connection is closed.")
    underway ← gets (λ s. s.conn.in_transaction)
    throw_if underway (nuodb (codes "A transaction is already underway."))
    throw_if (not (is_read_committed level)) (nuodb (codes "The isolation level is unsupported."))
    begin_idle level c

  -- `NuoDbTransaction::Commit` and `Rollback`
  unfoldable pub commit : Transaction → Act lib (Unit {0})
  commit t = throw_if (not t.connection) null_reference >> commit_transaction

  unfoldable pub rollback : Transaction → Act lib (Unit {0})
  rollback t = throw_if (not t.connection) null_reference >> rollback_transaction

  unfoldable pub change_database : String → Act lib (Unit {0})
  change_database none = throw argument_null
  change_database (some []) = throw argument_null
  change_database (some (c ∷ cs)) = do
    close
    set_conn (λ x. record x { schema = c ∷ cs })
    open_connection

  unfoldable pub server_version : Act lib Bytes
  server_version = do
    c ← open_or (codes "The connection is closed.")
    try_call (lib.database_version c)

  -- `State`: whether the connection is open
  unfoldable pub is_open : Act lib Bool
  is_open = gets (λ s. is_some s.conn.connection)

  -- The getters; `Database` is the schema and `DataSource` the database.
  unfoldable pub get_connection_string : Act lib String
  get_connection_string = gets (λ s. s.conn.connection_string)

  unfoldable pub get_database : Act lib Bytes
  get_database = gets (λ s. s.conn.schema)

  unfoldable pub get_data_source : Act lib Bytes
  get_data_source = gets (λ s. s.conn.database)

  -- `EnlistDistributedTransaction` and `EnlistTransaction`
  unfoldable pub enlist_transaction : Act lib (Unit {0})
  enlist_transaction = throw not_supported
