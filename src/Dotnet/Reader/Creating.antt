-- ===== src/Dotnet/Reader/Creating.antt =====
-- dotnet/nuodb/datareader.cpp, command.cpp and stdafx.h: the constructor, `ExtractMetadata`, `Close`
-- and `ExecuteDataReader`.
use nuodb_drivers.Prelude.{
  ℕ, zero, suc, ◌%◌, ◌^◌, Bool, true, false, not, Option, none, some, [], ◌∷◌, ◌++◌, ◌&&◌, codes,
  ltb, if◌then◌else◌,
}
use nuodb_drivers.Dotnet.Calls.{
  ◌>>=◌, ◌>>◌, pure, throw, throw_if, gets, nuodb, argument_null, null_reference, is_some,
}
use nuodb_drivers.Dotnet.Library.{Library, SqlType}
use nuodb_drivers.Dotnet.Parameters.{NuodbType}
use nuodb_drivers.Dotnet.Objects.{Act, call, release, set_command, set_reader}
use nuodb_drivers.Dotnet.Connection
use nuodb_drivers.Dotnet.Reader.{results}
use nuodb_drivers.Dotnet.Command.{prepare, execute, text_of}

-- The constructor of `NuoDbColumnInfo`
unfoldable pub type_of : SqlType → NuodbType
type_of SqlType.boolean = NuodbType.boolean
type_of SqlType.integer = NuodbType.integer
type_of SqlType.bigint = NuodbType.big_int
type_of SqlType.double = NuodbType.double
type_of SqlType.date = NuodbType.date
type_of SqlType.time = NuodbType.time
type_of SqlType.datetime = NuodbType.date_time
type_of SqlType.string = NuodbType.string
type_of (SqlType.other n) = NuodbType.string

-- `i < (int)count`
abbrev pub below : ℕ → ℕ → Bool
below i count = ltb (count % 2 ^ 32) (2 ^ 31) && ltb i (count % 2 ^ 32)

module _ (lib : Library) where
  abbrev pub add_column : lib.Results → ℕ → Act lib (Unit {0})
  add_column r i = do
    c ← call (lib.column r i)
    set_reader (λ x. record x {
      columns = x.columns ++ (record { name = text_of c.0; type = type_of c.1 }) ∷ [];
    })

  -- The loop asks for the number of columns in each round; the fuel is the number of values of an `int`
  -- from `i` on.
  unfoldable pub extract : ℕ → ℕ → Act lib (Unit {0})
  extract zero i = pure tt
  extract (suc fuel) i = do
    r ← results
    count ← call (lib.column_count r)
    if below i count then add_column r i >> extract fuel (suc i) else pure tt

  -- `ExtractMetadata`
  abbrev pub extract_metadata : Act lib (Unit {0})
  extract_metadata = extract (2 ^ 31) 0

  -- The constructor. Where it throws, the object that it was to make is lost.
  unfoldable pub construct : Option lib.Results → Bool → Act lib (Unit {0})
  construct from close_connection = do
    set_reader (λ x. record {
      close_connection = close_connection;
      is_closed = false;
      results = from;
      disposed = false;
      columns = [];
    })
    throw_if (not (is_some from)) argument_null
    s ← gets (λ s. s)
    throw_if (not s.command.connection) (nuodb (codes "The command has no connection."))
    throw_if (not (is_some s.conn.connection)) (nuodb (codes "The connection is not open."))
    extract_metadata

  -- `ExecuteDataReader` of the command
  unfoldable pub execute_data_reader : Bool → Act lib (Unit {0})
  execute_data_reader close_connection = do
    prepare lib
    execute lib
    r ← gets (λ s. s.command.current_results)
    construct r close_connection
    set_command (λ c. record c { current_results = none })

  abbrev pub delete_if : Option lib.Results → Act lib (Unit {0})
  delete_if none = pure tt
  delete_if (some r) = release (lib.delete_results r)

  -- `m_command->Connection->Close()`
  abbrev pub close_attached : Bool → Act lib (Unit {0})
  close_attached true = Connection.close lib
  close_attached false = throw null_reference

  abbrev pub unless : Bool → Act lib (Unit {0}) → Act lib (Unit {0})
  unless true m = pure tt
  unless false m = m

  abbrev pub close_behind : Act lib (Unit {0})
  close_behind = do
    s ← gets (λ s. s)
    unless (not s.reader.close_connection) (close_attached s.command.connection)

  abbrev pub delete_results : Act lib (Unit {0})
  delete_results = do
    r ← gets (λ s. s.reader.results)
    delete_if r
    set_reader (λ x. record x { results = none })

  -- `Close`, which is also the finalizer
  unfoldable pub close : Act lib (Unit {0})
  close = do
    closed ← gets (λ s. s.reader.is_closed)
    unless closed (do delete_results; close_behind; set_reader (λ x. record x { is_closed = true }))

  -- The destructor
  unfoldable pub dispose : Act lib (Unit {0})
  dispose = do
    disposed ← gets (λ s. s.reader.disposed)
    unless disposed (close >> set_reader (λ x. record x { disposed = true }))
