-- ===== src/Dotnet/Objects.antt =====
-- dotnet/nuodb: the fields of a connection, of a command and of a reader, and the calls that they
-- make of the client library. A program has one of each: a reference to a connection is `true`, and
-- `false` where it is null.
use nuodb_drivers.Prelude.{ℕ, Bool, Option, List, Bytes}
use nuodb_drivers.Prelude.Outcome.{ℤ}
use nuodb_drivers.Client.{Attempt}
use nuodb_drivers.Dotnet.Calls.{Run, Result, ok, unguarded, guarded, String, modify}
use nuodb_drivers.Dotnet.Library.{Library}
use nuodb_drivers.Dotnet.Parameters.{NuodbType, Collection}

-- `System::Data::IsolationLevel`
pub data IsolationLevel : Type 0 where
  read_committed : IsolationLevel
  other : ℕ → IsolationLevel

-- `System::Data::CommandType`
pub data CommandType : Type 0 where
  text : CommandType
  other : ℕ → CommandType

-- `System::Data::UpdateRowSource`
pub data UpdateRowSource : Type 0 where
  none : UpdateRowSource
  other : ℕ → UpdateRowSource

-- `NuoDbTransaction`
pub record Transaction : Type 0 where
  pub connection : Bool
  pub isolation_level : IsolationLevel

-- `NuoDbColumnInfo`
pub record Column : Type 0 where
  pub name : Bytes
  pub type : NuodbType

module _ (lib : Library) where
  pub record Connection : Type 0 where
    pub connection : Option lib.Connection
    pub in_transaction : Bool
    pub connection_string : String
    pub database : Bytes
    pub schema : Bytes
    pub username : Bytes
    pub password : Bytes
    pub disposed : Bool

  pub record Command : Type 0 where
    pub command_text : Bytes
    pub command_timeout : ℤ
    pub command_type : CommandType
    pub design_time_visible : Bool
    pub updated_row_source : UpdateRowSource
    pub connection : Bool
    pub parameters : Collection lib.Object
    pub transaction : Option Transaction
    pub current_results : Option lib.Results
    pub disposed : Bool

  -- `close_connection` is that the behavior is `CommandBehavior::CloseConnection`.
  pub record Reader : Type 0 where
    pub close_connection : Bool
    pub is_closed : Bool
    pub results : Option lib.Results
    pub disposed : Bool
    pub columns : List Column

  pub record State : Type 0 where
    pub conn : Connection
    pub command : Command
    pub reader : Reader
    pub world : lib.World

  abbrev pub Act : Type 0 → Type 0
  Act A = Run State A

module _ {lib : Library} where
  abbrev pub settle :
      {A B : Type 0}
      → (Attempt A → Result B)
      → Attempt A × lib.World
      → State lib
      → Result B × State lib
  settle f (a, w) s = (f a, record s { world = w })

  -- A call outside of a `try`
  abbrev pub call : {A : Type 0} → (lib.World → Attempt A × lib.World) → Act lib A
  call f s = settle unguarded (f s.world) s

  -- A call in the block of a `try`
  abbrev pub try_call : {A : Type 0} → (lib.World → Attempt A × lib.World) → Act lib A
  try_call f s = settle guarded (f s.world) s

  -- `delete`
  abbrev pub release : (lib.World → lib.World) → Act lib (Unit {0})
  release f s = (ok tt, record s { world = f s.world })

  abbrev pub set_conn : (Connection lib → Connection lib) → Act lib (Unit {0})
  set_conn f = modify (λ s. record s { conn = f s.conn })

  abbrev pub set_command : (Command lib → Command lib) → Act lib (Unit {0})
  set_command f = modify (λ s. record s { command = f s.command })

  abbrev pub set_reader : (Reader lib → Reader lib) → Act lib (Unit {0})
  set_reader f = modify (λ s. record s { reader = f s.reader })

  -- The result of a conversion
  abbrev pub converted : {A : Type 0} → Result A → Act lib A
  converted r s = (r, s)

  abbrev pub finally_release :
      {A : Type 0} → (lib.World → lib.World) → Result A × State lib → Result A × State lib
  finally_release f (r, s) = (r, record s { world = f s.world })

  -- A block with an object that is deleted at its end, however it ends
  abbrev pub scoped : {A : Type 0} → (lib.World → lib.World) → Act lib A → Act lib A
  scoped f m s = finally_release f (m s)
