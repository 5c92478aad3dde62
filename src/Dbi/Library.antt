-- ===== src/Dbi/Library.antt =====
-- What perl_dbi/dbdimp.cpp calls of the NuoDB client library. It is not part of the repository, so
-- it is a parameter: a world, and calls that return or throw.
use nuodb_drivers.Prelude.{ℕ, Bool, Option, Bytes}
use nuodb_drivers.Client.{Attempt}

pub record Library : Type 1 where
  pub World : Type 0
  pub Connection : Type 0
  pub Properties : Type 0
  pub Statement : Type 0
  pub ResultSet : Type 0
  pub create_connection : World → Attempt (Option Connection) × World
  pub alloc_properties : Connection → World → Attempt Properties × World
  -- the name of the property, and its value
  pub put_value : Properties → Bytes → Bytes → World → Attempt (Unit {0}) × World
  pub open_database : Connection → Bytes → Properties → World → Attempt (Unit {0}) × World
  pub close_connection : Connection → World → Attempt (Unit {0}) × World
  pub commit : Connection → World → Attempt (Unit {0}) × World
  pub rollback : Connection → World → Attempt (Unit {0}) × World
  pub set_auto_commit : Connection → Bool → World → Attempt (Unit {0}) × World
  pub product_version : Connection → World → Attempt Bytes × World
  pub prepare_statement : Connection → Bytes → World → Attempt Statement × World
  pub parameter_count : Statement → World → Attempt ℕ × World
  pub execute : Statement → World → Attempt Bool × World
  pub get_result_set : Statement → World → Attempt (Option ResultSet) × World
  pub get_generated_keys : Statement → World → Attempt (Option ResultSet) × World
  pub analyze : Statement → ℕ → World → Attempt Bytes × World
  pub set_bytes : Statement → ℕ → Bytes → World → Attempt (Unit {0}) × World
  pub set_string : Statement → ℕ → Bytes → World → Attempt (Unit {0}) × World
  pub close_statement : Statement → World → Attempt (Unit {0}) × World
  pub column_count : ResultSet → World → Attempt ℕ × World
  pub next : ResultSet → World → Attempt Bool × World
  pub get_string : ResultSet → ℕ → World → Attempt (Option Bytes) × World
  pub was_null : ResultSet → World → Attempt Bool × World
  pub close_results : ResultSet → World → Attempt (Unit {0}) × World
