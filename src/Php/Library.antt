-- ===== src/Php/Library.antt =====
-- What php/nuodb_php.cpp calls of the NuoDB client library, and the hash of the C++ library. They
-- are not part of the repository, so they are parameters: a world, and calls that return or throw.
use nuodb_drivers.Prelude.{ℕ, Bool, Option, Bytes}
use nuodb_drivers.Client.{Attempt}

-- A `Statement *` may point to a prepared statement.
pub record Library : Type 1 where
  pub World : Type 0
  pub Connection : Type 0
  pub Properties : Type 0
  pub Statement : Type 0
  pub ResultSet : Type 0
  pub create_connection : World → Attempt Connection × World
  pub alloc_properties : Connection → World → Attempt Properties × World
  -- the name of the property, and its value
  pub put_value : Properties → Bytes → Bytes → World → Attempt (Unit {0}) × World
  pub open_database : Connection → Bytes → Properties → World → Attempt (Unit {0}) × World
  pub commit : Connection → World → Attempt (Unit {0}) × World
  pub rollback : Connection → World → Attempt (Unit {0}) × World
  pub close_connection : Connection → World → Attempt (Unit {0}) × World
  pub prepare_statement : Connection → Bytes → World → Attempt Statement × World
  pub create_statement : Connection → World → Attempt Statement × World
  pub execute_query : Statement → World → Attempt ResultSet × World
  pub execute : Statement → Bytes → World → Attempt (Unit {0}) × World
  pub close_statement : Statement → World → Attempt (Unit {0}) × World
  pub close_results : ResultSet → World → Attempt (Unit {0}) × World
  pub next : ResultSet → World → Attempt Bool × World
  pub column_count : ResultSet → World → Attempt ℕ × World
  pub column_name : ResultSet → ℕ → World → Attempt Bytes × World
  pub get_string : ResultSet → ℕ → World → Attempt (Option Bytes) × World
  pub was_null : ResultSet → World → Attempt Bool × World
  -- the digits that `std::hash<const char *>` prints for the address of a text
  pub hash_text : ℕ → Bytes
