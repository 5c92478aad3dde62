-- ===== src/Client.antt =====
-- The NuoDB C++ client library that the PDO driver calls (Connection.h, PreparedStatement.h,
-- ResultSet.h). It is not part of the repository, so it is a parameter: a world of its own and
-- the calls, each of which returns or throws. Columns and parameters count from 1.
use nuodb_drivers.Prelude.{ℕ, Bool, Option, Bytes}
use nuodb_drivers.Prelude.Outcome.{ℤ, Exception}

pub data Attempt (A : Type 0) : Type 0 where
  returns : A → Attempt A
  throws : Exception → Attempt A

-- The `NUOSQL_…` codes that the driver names; `other` is any other code.
pub data ColumnType : Type 0 where
  boolean integer smallint tinyint bigint double varchar date time timestamp blob clob : ColumnType
  other : ColumnType

pub record Client : Type 1 where
  pub World : Type 0
  pub Connection : Type 0
  pub Prepared : Type 0
  pub Results : Type 0
  -- database, user, password, and one option with its value
  pub create : Bytes → Bytes → Bytes → Bytes → Bytes → World → Attempt Connection × World
  pub close_connection : Connection → World → Attempt (Unit {0}) × World
  pub commit : Connection → World → Attempt (Unit {0}) × World
  pub rollback : Connection → World → Attempt (Unit {0}) × World
  -- the flag asks for the generated keys
  pub prepare : Connection → Bytes → Bool → World → Attempt Prepared × World
  pub close_statement : Prepared → World → Attempt (Unit {0}) × World
  pub execute : Prepared → World → Attempt (Unit {0}) × World
  pub execute_query : Prepared → World → Attempt Results × World
  pub execute_update : Prepared → World → Attempt (Unit {0}) × World
  pub generated_keys : Prepared → World → Attempt (Option Results) × World
  pub set_int : Prepared → ℕ → ℤ → World → Attempt (Unit {0}) × World
  pub set_string : Prepared → ℕ → Bytes → World → Attempt (Unit {0}) × World
  -- `createBlob`, `setBytes` and `setBlob` in one, and so for a CLOB
  pub set_blob : Connection → Prepared → ℕ → Option Bytes → World → Attempt (Unit {0}) × World
  pub set_clob : Connection → Prepared → ℕ → Option Bytes → World → Attempt (Unit {0}) × World
  -- `getParameterMetaData`, if there is any, and its `getParameterCount`
  pub parameter_count : Prepared → World → Attempt (Option ℕ) × World
  pub close_results : Results → World → Attempt (Unit {0}) × World
  pub next : Results → World → Attempt Bool × World
  pub column_count : Results → World → Attempt ℕ × World
  pub column_label : Results → ℕ → World → Attempt (Option Bytes) × World
  pub column_name : Results → ℕ → World → Attempt Bytes × World
  pub column_type : Results → ℕ → World → Attempt ColumnType × World
  pub get_string : Results → ℕ → World → Attempt (Option Bytes) × World
  pub get_int : Results → ℕ → World → Attempt ℤ × World
  pub get_long : Results → ℕ → World → Attempt ℤ × World
  -- the object, if there is one, by its `getSeconds`
  pub get_timestamp : Results → ℕ → World → Attempt (Option ℤ) × World
  pub get_time : Results → ℕ → World → Attempt (Option ℤ) × World
  pub get_date : Results → ℕ → World → Attempt (Option ℤ) × World
  pub get_blob : Results → ℕ → World → Attempt Bytes × World
  pub get_clob : Results → ℕ → World → Attempt Bytes × World
