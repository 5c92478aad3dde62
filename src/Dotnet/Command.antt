-- ===== src/Dotnet/Command.antt =====
-- dotnet/nuodb/command.cpp: the methods of `NuoDbCommand`, but for `ExecuteDataReader`.
pub mod Executing
use nuodb_drivers.Prelude.{
  ℕ, zero, suc, Bool, true, false, not, Option, none, some, List, map, [], ◌∷◌, Bytes, codes,
  length, ◌==◌,
}
use nuodb_drivers.Prelude.Outcome.{ℤ, pos}
use nuodb_drivers.Dotnet.Calls.{
  ◌>>=◌, ◌>>◌, pure, throw, throw_if, gets, nuodb, argument_null, not_supported, null_reference,
  native_of, String, is_null_or_empty, is_some,
}
use nuodb_drivers.Dotnet.Library.{Library, SqlType}
use nuodb_drivers.Dotnet.Parameters.{NuodbType, Parameter, Collection}
use nuodb_drivers.Dotnet.Objects.{
  CommandType, UpdateRowSource, Transaction, Command, State, Act, call, try_call, release,
  set_command, converted, scoped,
}

-- A value that a reader or a command returns
pub data Value (lib : Library) : Type 0 where
  boolean : Bool → Value lib
  integer big_int : ℤ → Value lib
  double : lib.Double → Value lib
  date_time : lib.DateTime → Value lib
  string : Bytes → Value lib

-- `gcnew String(const char*)`
abbrev pub text_of : Option Bytes → Bytes
text_of none = []
text_of (some b) = b

module _ (lib : Library) where
  -- The constructor
  abbrev pub fresh_command : Collection lib.Object → Command lib
  fresh_command parameters = record {
    command_text = [];
    command_timeout = pos 60;
    command_type = CommandType.text;
    design_time_visible = false;
    updated_row_source = UpdateRowSource.none;
    connection = false;
    parameters = parameters;
    transaction = none;
    current_results = none;
    disposed = false;
  }

  -- `Connection` and `DbConnection`; the argument is whether it is a connection.
  unfoldable pub set_connection : Bool → Act lib (Unit {0})
  set_connection value = do
    throw_if (not value) argument_null
    set_command (λ c. record c { connection = true })

  abbrev pub attach : Transaction → Act lib (Unit {0})
  attach t = set_command (λ c. record c { transaction = some t; connection = t.connection })

  -- `Transaction` and `DbTransaction`
  unfoldable pub set_transaction : Option Transaction → Act lib (Unit {0})
  set_transaction none = throw argument_null
  set_transaction (some t) = attach t

  unfoldable pub set_command_text : String → Act lib (Unit {0})
  set_command_text none = throw argument_null
  set_command_text (some []) = throw argument_null
  set_command_text (some (c ∷ cs)) = set_command (λ x. record x { command_text = c ∷ cs })

  unfoldable pub set_command_timeout : ℤ → Act lib (Unit {0})
  set_command_timeout value = set_command (λ c. record c { command_timeout = value })

  unfoldable pub set_command_type : CommandType → Act lib (Unit {0})
  set_command_type CommandType.text =
      set_command (λ c. record c { command_type = CommandType.text })
  set_command_type (CommandType.other n) = throw not_supported

  unfoldable pub set_design_time_visible : Bool → Act lib (Unit {0})
  set_design_time_visible value = set_command (λ c. record c { design_time_visible = value })

  unfoldable pub set_updated_row_source : UpdateRowSource → Act lib (Unit {0})
  set_updated_row_source value = set_command (λ c. record c { updated_row_source = value })

  -- `CreateCommand` of a connection
  unfoldable pub create_command : Collection lib.Object → Act lib (Unit {0})
  unfolding set_connection
  create_command parameters = do
    closed ← gets (λ s. not (is_some s.conn.connection))
    throw_if closed (nuodb (codes "The connection is not open."))
    set_command (λ c. fresh_command parameters)
    set_connection true

  -- `Cancel`
  unfoldable pub cancel : Act lib (Unit {0})
  cancel = throw not_supported

  abbrev pub delete_if : Option lib.Results → Act lib (Unit {0})
  delete_if none = pure tt
  delete_if (some r) = release (lib.delete_results r)

  -- The finalizer, and the deletion of the current results in the other methods
  abbrev pub delete_current : Act lib (Unit {0})
  delete_current = do
    r ← gets (λ s. s.command.current_results)
    delete_if r
    set_command (λ c. record c { current_results = none })

  abbrev pub unless : Bool → Act lib (Unit {0}) → Act lib (Unit {0})
  unless true m = pure tt
  unless false m = m

  -- The destructor
  unfoldable pub dispose : Act lib (Unit {0})
  dispose = do
    disposed ← gets (λ s. s.command.disposed)
    unless disposed (delete_current >> set_command (λ c. record c { disposed = true }))

  -- The tests at the start of each method that executes, and the whole of `Prepare`
  unfoldable pub prepare : Act lib (Unit {0})
  prepare = do
    s ← gets (λ s. s)
    throw_if (not s.command.connection)
        (nuodb (codes "No connection has been associated with the command."))
    throw_if (not (is_some s.conn.connection)) (nuodb (codes "The connection is not open."))
    throw_if (is_null_or_empty (some s.command.command_text))
        (nuodb (codes "There is no CommandText."))

  -- `Value->ToString()`
  abbrev pub string_of : Option lib.Object → Act lib Bytes
  string_of none = throw null_reference
  string_of (some o) = converted (lib.to_string o)

  abbrev pub bind_date : lib.Prepared → ℕ → Option lib.Object → Act lib (Unit {0})
  bind_date pw i value = do
    d ← converted (lib.to_date_time value)
    try_call (lib.set_date pw i (lib.total_milliseconds d))

  -- The `switch` of the loop
  unfoldable pub bind_value : lib.Prepared → ℕ → NuodbType → Option lib.Object → Act lib (Unit {0})
  bind_value pw i NuodbType.boolean value = do
    b ← converted (lib.to_boolean value)
    try_call (lib.set_boolean pw i b)
  bind_value pw i NuodbType.integer value = do
    n ← converted (lib.to_int32 value)
    try_call (lib.set_integer pw i n)
  bind_value pw i NuodbType.big_int value = do
    n ← converted (lib.to_int64 value)
    try_call (lib.set_long pw i n)
  bind_value pw i NuodbType.double value = do
    x ← converted (lib.to_double value)
    try_call (lib.set_double pw i x)
  bind_value pw i NuodbType.date value = bind_date pw i value
  bind_value pw i NuodbType.time value = bind_date pw i value
  bind_value pw i NuodbType.date_time value = bind_date pw i value
  bind_value pw i NuodbType.string value = do b ← string_of value; try_call (lib.set_string pw i b)

  unfoldable pub bind_values : lib.Prepared → ℕ → List (Parameter lib.Object) → Act lib (Unit {0})
  bind_values pw i [] = pure tt
  bind_values pw i (p ∷ ps) = bind_value pw i p.type p.value >> bind_values pw (suc i) ps

  abbrev pub keep : lib.Results → Act lib (Unit {0})
  keep r = set_command (λ c. record c { current_results = some r })

  -- The block that is run where there are no parameters
  unfoldable pub execute_plain : lib.Connection → Bytes → Act lib (Unit {0})
  execute_plain c text = do
    w ← try_call (lib.create_statement c)
    scoped (lib.delete_statement w) (try_call (lib.execute_query w text) >>= keep)

  -- The rest of the method, which is always run
  unfoldable pub execute_prepared :
      lib.Connection → Bytes → List (Parameter lib.Object) → Act lib (Unit {0})
  execute_prepared c text parameters = do
    pw ← try_call (lib.create_prepared_statement c text)
    scoped (lib.delete_prepared pw)
        (bind_values pw 0 parameters >> (try_call (lib.execute_prepared pw) >>= keep))

  abbrev pub parameters_of : Collection lib.Object → List (Parameter lib.Object)
  parameters_of c = map c.heap c.items

  -- `Execute` behind its tests
  abbrev pub execute_on : State lib → lib.Connection → Act lib (Unit {0})
  execute_on s c = do
    unless (not (length s.command.parameters.items == 0)) (execute_plain c s.command.command_text)
    execute_prepared c s.command.command_text (parameters_of s.command.parameters)

  abbrev pub execute_current : Act lib (Unit {0})
  execute_current = do s ← gets (λ s. s); c ← native_of s.conn.connection; execute_on s c

  abbrev pub execute_ready : Act lib (Unit {0})
  execute_ready = delete_current >> execute_current

  unfoldable pub execute : Act lib (Unit {0})
  execute = prepare >> execute_ready

  -- The returned number of rows is always 0.
  unfoldable pub execute_non_query : Act lib ℕ
  execute_non_query = do prepare; execute; delete_current; pure 0

  abbrev pub current : Act lib lib.Results
  current s = native_of s.command.current_results s

  abbrev pub date_of : lib.Results → ℕ → Act lib (Option (Value lib))
  date_of r i = do
    time ← call (lib.get_date r i)
    t ← native_of time
    d ← converted (lib.after_epoch_by_span t)
    pure (some (Value.date_time d))

  -- The first column, in whatever row the results start: `next` is not called.
  unfoldable pub first_value : lib.Results → SqlType → Act lib (Option (Value lib))
  first_value r SqlType.boolean = call (lib.get_boolean r 0) >>= λ b. pure (some (Value.boolean b))
  first_value r SqlType.integer = call (lib.get_integer r 0) >>= λ n. pure (some (Value.integer n))
  first_value r SqlType.bigint = call (lib.get_long r 0) >>= λ n. pure (some (Value.big_int n))
  first_value r SqlType.double = call (lib.get_double r 0) >>= λ x. pure (some (Value.double x))
  first_value r SqlType.string =
      call (lib.get_string r 0) >>= λ b. pure (some (Value.string (text_of b)))
  first_value r SqlType.date = date_of r 0
  first_value r SqlType.time = date_of r 0
  first_value r SqlType.datetime = date_of r 0
  first_value r (SqlType.other n) = pure none

  abbrev pub scalar : lib.Results → ℕ → Act lib (Option (Value lib))
  scalar r zero = pure none
  scalar r (suc n) = do column ← call (lib.column r 0); first_value r column.1

  unfoldable pub execute_scalar : Act lib (Option (Value lib))
  execute_scalar = do prepare; execute; r ← current; n ← call (lib.column_count r); scalar r n
