-- ===== src/Tests/Dotnet.antt =====
-- The .NET driver, over a client library that answers every call and counts the calls.
use nuodb_drivers.Prelude.{
  not, ℕ, suc, Bool, true, false, Option, none, some, [], ◌∷◌, Bytes, bytes_eq, ◌≡◌, refl, arith,
  codes, ◌==◌,
}
use nuodb_drivers.Prelude.Outcome.{ℤ, pos}
use nuodb_drivers.Client.{Attempt, returns}
use nuodb_drivers.Dotnet.Calls.{Result, ok, raises, undefined, nuodb, null_reference, Post}
use nuodb_drivers.Dotnet.Library.{Library, SqlType}
use nuodb_drivers.Dotnet.Parameters.{NuodbType, Parameter, Collection, input, original}
use nuodb_drivers.Dotnet.Parameters.Requests as Asked
use nuodb_drivers.Dotnet.Parameters.Histories.{Sound, perform-Sound}
use nuodb_drivers.Dotnet.Objects.{CommandType, UpdateRowSource, Transaction, State}
use nuodb_drivers.Dotnet.Connection.{begin_transaction, commit, rollback}
use nuodb_drivers.Dotnet.Connection.Requests as Called
use nuodb_drivers.Dotnet.Connection.Phases.{Phase, Steps}
use nuodb_drivers.Dotnet.Connection.Simulation.{perform-Steps}
use nuodb_drivers.Dotnet.Connection.Lost.{begin_transaction-commit}
use nuodb_drivers.Dotnet.Connection.Parse.{trim, parse_string}
use nuodb_drivers.Dotnet.Connection.RoundTrip.{Key, text, same, stores, cleared, parse_string-items}
use nuodb_drivers.Dotnet.Command.{Value, execute}
use nuodb_drivers.Dotnet.Command.Executing.{execute_twice, execute-Bound}
use nuodb_drivers.Dotnet.Reader.{read}
use nuodb_drivers.Dotnet.Reader.Values.{
  ClrType, get_field_type, get_item, get_int32, get_int64, get_double, get_string, get_date_time,
}
use nuodb_drivers.Dotnet.Reader.Requests as Reading
use nuodb_drivers.Dotnet.Reader.Closing.{perform-Refuses}
use nuodb_drivers.Dotnet.Reader.Types.{value_type, get_item-Typed}
use nuodb_drivers.Dotnet.Reader.Getters.{Agrees, get_int32-get_item}
use nuodb_drivers.Dotnet.Reader.Leaving.{close-read}
use nuodb_drivers.Dotnet.Reader.Creating.{close, construct}
use nuodb_drivers.Dotnet.Reader.Columns.{spelt, integer, construct-Described}

abbrev answer : {A : Type 0} → A → ℕ → Attempt A × ℕ
answer a w = (returns a, suc w)

-- An object is a number.
abbrev number : Option ℕ → Result ℤ
number none = ok (pos 0)
number (some n) = ok (pos n)

abbrev truth : Option ℕ → Result Bool
truth none = ok false
truth (some n) = ok (not (n == 0))

abbrev natural : Option ℕ → Result ℕ
natural none = raises null_reference
natural (some n) = ok n

-- The world is the number of calls, and a result set has one column, `ID`.
abbrev fake : Library
fake = record {
  World = ℕ;
  Connection = ℕ;
  Statement = ℕ;
  Prepared = ℕ;
  Results = ℕ;
  Object = ℕ;
  Double = ℕ;
  Single = ℕ;
  Decimal = ℕ;
  DateTime = ℤ;
  create_connection = λ d s u p w. answer 7 w;
  delete_connection = λ c w. suc w;
  commit = λ c w. answer tt w;
  rollback = λ c w. answer tt w;
  set_auto_commit = λ c b w. answer tt w;
  database_version = λ c w. answer (codes "1") w;
  create_statement = λ c w. answer 1 w;
  execute_query = λ st b w. answer w w;
  delete_statement = λ st w. suc w;
  create_prepared_statement = λ c b w. answer 2 w;
  set_boolean = λ p i b w. answer tt w;
  set_integer = λ p i n w. answer tt w;
  set_long = λ p i n w. answer tt w;
  set_double = λ p i x w. answer tt w;
  set_date = λ p i t w. answer tt w;
  set_string = λ p i b w. answer tt w;
  execute_prepared = λ p w. answer w w;
  delete_prepared = λ p w. suc w;
  column_count = λ r w. answer 1 w;
  column = λ r i w. answer (some (codes "ID"), SqlType.integer) w;
  next = λ r w. answer true w;
  get_boolean = λ r i w. answer true w;
  get_integer = λ r i w. answer (pos 4) w;
  get_long = λ r i w. answer (pos 4) w;
  get_double = λ r i w. answer 4 w;
  get_date = λ r i w. answer (some (pos 4)) w;
  get_string = λ r i w. answer (some (codes "x")) w;
  delete_results = λ r w. suc w;
  to_boolean = truth;
  to_int32 = number;
  to_int64 = number;
  to_double = natural;
  to_date_time = number;
  to_string = λ o. ok (codes "o");
  total_milliseconds = λ d. d;
  after_epoch = λ t. ok t;
  after_epoch_by_span = λ t. ok t;
  decimal = λ x. ok x;
  single = λ x. x;
  copy_to = λ b i a j n. ok b;
  is_white_space = λ c. c == 32;
  equals = bytes_eq;
}

abbrev named : Bytes → NuodbType → Parameter ℕ
named name type = record {
  type = type;
  direction = input;
  nullable = true;
  name = name;
  size = pos 0;
  source = some [];
  source_null_mapping = false;
  version = original;
  value = some 5;
}

-- A collection with one parameter, and one with none
abbrev one : Collection ℕ
one = record { heap = λ q. named (codes "a") NuodbType.integer; fresh = 1; items = 0 ∷ [] }

abbrev empty : Collection ℕ
empty = record { heap = λ q. named (codes "a") NuodbType.integer; fresh = 0; items = [] }

perform-Sound_example :
    Sound (Asked.perform (Asked.Request.add_typed (some (codes "b")) NuodbType.boolean) one).1
perform-Sound_example =
    perform-Sound (Asked.Request.add_typed (some (codes "b")) NuodbType.boolean) one
      (((λ e. cc), tt, tt), (omega arith, tt), omega arith) tt

compared : (k l : Key) → bytes_eq (text k) (text l) ≡ same k l
compared Key.database Key.database = refl
compared Key.database Key.schema = refl
compared Key.database Key.user = refl
compared Key.database Key.password = refl
compared Key.schema Key.database = refl
compared Key.schema Key.schema = refl
compared Key.schema Key.user = refl
compared Key.schema Key.password = refl
compared Key.user Key.database = refl
compared Key.user Key.schema = refl
compared Key.user Key.user = refl
compared Key.user Key.password = refl
compared Key.password Key.database = refl
compared Key.password Key.schema = refl
compared Key.password Key.user = refl
compared Key.password Key.password = refl

trimmed : (k : Key) → trim (λ c. c == 32) (text k) ≡ text k
trimmed Key.database = refl
trimmed Key.schema = refl
trimmed Key.user = refl
trimmed Key.password = refl

-- An open connection without a transaction, a command with a text and a closed reader
abbrev start : State fake
start = record {
  conn = record {
    connection = some 7;
    in_transaction = false;
    connection_string = some [];
    database = [];
    schema = [];
    username = [];
    password = [];
    disposed = false;
  };
  command = record {
    command_text = codes "select";
    command_timeout = pos 30;
    command_type = CommandType.text;
    design_time_visible = false;
    updated_row_source = UpdateRowSource.none;
    connection = true;
    parameters = empty;
    transaction = none;
    current_results = none;
    disposed = false;
  };
  reader = record {
    close_connection = true;
    is_closed = true;
    results = none;
    disposed = false;
    columns = [];
  };
  world = 0;
}

-- With one parameter
abbrev with_one : State fake
with_one = record start { command = record (start.command) { parameters = one } }

-- With an open reader of one column
abbrev reading : State fake
reading = record start {
  reader = record (start.reader) {
    is_closed = false;
    results = some 3;
    columns = (record { name = codes "ID"; type = NuodbType.integer }) ∷ [];
  };
}

perform-Steps_example :
    Steps Called.Request.begin Phase.idle (Called.perform fake Called.Request.begin start)
perform-Steps_example = perform-Steps Called.Request.begin Phase.idle start ((λ e. cc), refl)

begin_transaction-commit_example :
    (t : Transaction) × (s' : State fake) × (begin_transaction fake start ≡ (ok t, s'))
    × (s'.conn.in_transaction ≡ true)
    × (commit fake t s' ≡ (raises null_reference, s'))
    × (rollback fake t s' ≡ (raises null_reference, s'))
begin_transaction-commit_example = begin_transaction-commit fake start 7 1 refl refl refl

parse_string-items_example : parse_string fake (some (codes "User=u;Database= d ")) start ≡ (
  ok tt,
  record start {
    conn =
        stores fake
          ((Key.user, codes "u") ∷ (Key.database, codes " d ") ∷ [])
          (cleared fake start.conn);
  },
)
parse_string-items_example =
    parse_string-items fake (Key.user, codes "u") ((Key.database, codes " d ") ∷ []) start
      (record { compared = compared; trimmed = trimmed })
      (
        record { no_semicolon = refl; no_equals = refl; first = 117; rest = []; visible = refl },
        (
          record { no_semicolon = refl; no_equals = refl; first = 100; rest = []; visible = refl },
          tt,
        ),
      )

execute_twice_example : execute fake start ≡ (
  ok tt,
  record start { command = record (start.command) { current_results = some 4 }; world = 6 },
)
execute_twice_example =
    execute_twice fake start 7 115 (codes "elect") 1 2 1 4 1 2 4 5
      (record { attached = refl; opened = refl; text = refl; idle = refl }) refl refl refl refl refl

execute-Bound_example : execute fake with_one ≡ (
  ok tt,
  record with_one { command = record (with_one.command) { current_results = some 2 }; world = 4 },
)
execute-Bound_example =
    execute-Bound fake with_one 7 115 (codes "elect") (named (codes "a") NuodbType.integer) [] 2 2 1
      2 3 (record { attached = refl; opened = refl; text = refl; idle = refl }) refl refl
      (2, (pos 5, refl, refl), refl) refl

perform-Refuses_example :
    Reading.perform (Reading.Request.get_string (pos 0)) start
    ≡ (raises (nuodb (codes "The reader is closed.")), start)
perform-Refuses_example = perform-Refuses start (Reading.Request.get_string (pos 0)) refl

field_type : get_field_type fake (pos 0) reading ≡ (ok ClrType.int32, reading)
unfolding get_field_type
field_type = refl

get_item-Typed_example :
    Post (λ v s'. value_type v ≡ ClrType.int32) (λ s'. Unit {0}) (get_item fake (pos 0) reading)
get_item-Typed_example = get_item-Typed (pos 0) ClrType.int32 reading field_type

get_int32-get_item_example :
    Agrees Value.integer (get_int32 fake (pos 0) reading) (get_item fake (pos 0) reading)
    × Agrees Value.big_int (get_int64 fake (pos 0) reading) (get_item fake (pos 0) reading)
    × Agrees Value.double (get_double fake (pos 0) reading) (get_item fake (pos 0) reading)
    × Agrees Value.string (get_string fake (pos 0) reading) (get_item fake (pos 0) reading)
    × Agrees Value.date_time (get_date_time fake (pos 0) reading) (get_item fake (pos 0) reading)
get_int32-get_item_example = get_int32-get_item (pos 0) reading

-- The connection has been closed.
abbrev left : State fake
left = record reading { conn = record (reading.conn) { connection = none } }

close-read_example :
    ((close fake left).0 ≡ raises (nuodb (codes "The connection is not open.")))
    × ((close fake left).1.reader.is_closed ≡ false)
    × ((close fake left).1.reader.results ≡ none)
    × ((close fake left).1.world ≡ 1)
    × ((read (close fake left).1).0 ≡ undefined)
close-read_example = close-read fake left 3 refl refl refl refl refl

construct-Described_example : construct fake (some 3) false start ≡ (
  ok tt,
  record start {
    reader = record {
      close_connection = false;
      is_closed = false;
      results = some 3;
      disposed = false;
      columns = (record { name = codes "ID"; type = NuodbType.integer }) ∷ [];
    };
    world = 3;
  },
)
construct-Described_example =
    construct-Described fake start 7 3 false
      ((record { name = codes "ID"; type = NuodbType.integer }) ∷ []) 3 refl refl
      (
        1,
        some (codes "ID"),
        SqlType.integer,
        1,
        2,
        refl,
        omega arith,
        omega arith,
        refl,
        spelt,
        integer,
        (1, refl, omega arith, omega arith),
      )
