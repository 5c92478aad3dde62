-- ===== src/Node/Library.antt =====
-- What nodejs/src/node_db_nuodb_result.cc calls of the NuoDB client library. It is not part of the
-- repository, so it is a parameter: a world, and calls that return or throw.
use nuodb_drivers.Prelude.{ℕ, Bool, Option, Bytes}
use nuodb_drivers.Client.{Attempt}

-- The `NUOSQL_…` codes that the driver names, and any other
pub data SqlType : Type 0 where
  double integer time date varchar other : SqlType

pub record Library : Type 1 where
  pub World : Type 0
  pub ResultSet : Type 0
  -- `getMetaData` and the call on what it returns
  pub column_count : ResultSet → World → Attempt ℕ × World
  pub column_name : ResultSet → ℕ → World → Attempt Bytes × World
  pub column_type : ResultSet → ℕ → World → Attempt SqlType × World
  pub next : ResultSet → World → Attempt Bool × World
  pub get_string : ResultSet → ℕ → World → Attempt (Option Bytes) × World
