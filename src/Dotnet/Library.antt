-- ===== src/Dotnet/Library.antt =====
-- What the .NET driver uses and the repository does not hold: the C interface of the client library
-- (nuodb/sqlapi) and the runtime of .NET. Both are a parameter. Columns and parameters count from 0.
use nuodb_drivers.Prelude.{ℕ, Bool, Option, Bytes}
use nuodb_drivers.Prelude.Outcome.{ℤ}
use nuodb_drivers.Client.{Attempt}
use nuodb_drivers.Dotnet.Calls.{Result}

-- `nuodb::sqlapi::SqlType`: the members that the driver names, and any other
pub data SqlType : Type 0 where
  boolean integer bigint double string date time datetime : SqlType
  other : ℕ → SqlType

pub record Library : Type 1 where
  pub World : Type 0
  pub Connection : Type 0
  pub Statement : Type 0
  pub Prepared : Type 0
  pub Results : Type 0
  pub Object : Type 0
  pub Double : Type 0
  pub Single : Type 0
  pub Decimal : Type 0
  pub DateTime : Type 0
  -- `createSqlEnvironment` and `createSqlConnection` in one: database, schema, username, password
  pub create_connection : Bytes → Bytes → Bytes → Bytes → World → Attempt Connection × World
  pub delete_connection : Connection → World → World
  pub commit : Connection → World → Attempt (Unit {0}) × World
  pub rollback : Connection → World → Attempt (Unit {0}) × World
  pub set_auto_commit : Connection → Bool → World → Attempt (Unit {0}) × World
  -- `getMetaData` and `getDatabaseVersion` in one
  pub database_version : Connection → World → Attempt Bytes × World
  pub create_statement : Connection → World → Attempt Statement × World
  pub execute_query : Statement → Bytes → World → Attempt Results × World
  pub delete_statement : Statement → World → World
  pub create_prepared_statement : Connection → Bytes → World → Attempt Prepared × World
  pub set_boolean : Prepared → ℕ → Bool → World → Attempt (Unit {0}) × World
  pub set_integer : Prepared → ℕ → ℤ → World → Attempt (Unit {0}) × World
  pub set_long : Prepared → ℕ → ℤ → World → Attempt (Unit {0}) × World
  pub set_double : Prepared → ℕ → Double → World → Attempt (Unit {0}) × World
  -- in milliseconds
  pub set_date : Prepared → ℕ → ℤ → World → Attempt (Unit {0}) × World
  pub set_string : Prepared → ℕ → Bytes → World → Attempt (Unit {0}) × World
  pub execute_prepared : Prepared → World → Attempt Results × World
  pub delete_prepared : Prepared → World → World
  pub column_count : Results → World → Attempt ℕ × World
  -- `getMetaData` of a column with the name and the type that it has
  pub column : Results → ℕ → World → Attempt (Option Bytes × SqlType) × World
  pub next : Results → World → Attempt Bool × World
  pub get_boolean : Results → ℕ → World → Attempt Bool × World
  pub get_integer : Results → ℕ → World → Attempt ℤ × World
  pub get_long : Results → ℕ → World → Attempt ℤ × World
  pub get_double : Results → ℕ → World → Attempt Double × World
  -- the date, if there is one, by its `getTime`
  pub get_date : Results → ℕ → World → Attempt (Option ℤ) × World
  pub get_string : Results → ℕ → World → Attempt (Option Bytes) × World
  pub delete_results : Results → World → World
  -- `Convert::ToBoolean` and so on, of a value that may be null
  pub to_boolean : Option Object → Result Bool
  pub to_int32 : Option Object → Result ℤ
  pub to_int64 : Option Object → Result ℤ
  pub to_double : Option Object → Result Double
  pub to_date_time : Option Object → Result DateTime
  -- `ToString` of an object, as the bytes that it is marshalled to
  pub to_string : Object → Result Bytes
  -- the milliseconds after 1970-01-01, cut off to a `long long`
  pub total_milliseconds : DateTime → ℤ
  -- 1970-01-01 with so many milliseconds added, by `AddMilliseconds` and by `TimeSpan::FromMilliseconds`
  pub after_epoch : ℤ → Result DateTime
  pub after_epoch_by_span : ℤ → Result DateTime
  -- `Decimal(double)` and `Single(double)`
  pub decimal : Double → Result Decimal
  pub single : Double → Single
  -- `String::CopyTo`: the text, the place in it, the array, the place in the array and the number of
  -- characters
  pub copy_to : Bytes → ℤ → Option Bytes → ℤ → ℤ → Result Bytes
  -- `Char::IsWhiteSpace`
  pub is_white_space : ℕ → Bool
  -- `String::Equals` with `StringComparison::InvariantCulture`
  pub equals : Bytes → Bytes → Bool
