-- ===== src/Dotnet/Connection/Requests.antt =====
-- dotnet/nuodb/connection.cpp: the calls that a program can make of a connection.
use nuodb_drivers.Dotnet.Calls.{◌>>=◌, pure, String}
use nuodb_drivers.Dotnet.Library.{Library}
use nuodb_drivers.Dotnet.Objects.{IsolationLevel, Act}
use nuodb_drivers.Dotnet.Connection

pub data Request : Type 0 where
  open_connection close dispose begin server_version is_open enlist : Request
  set_connection_string change_database : String → Request
  begin_isolated : IsolationLevel → Request

module _ (lib : Library) where
  abbrev pub drop : {A : Type 0} → Act lib A → Act lib (Unit {0})
  drop m = m >>= λ a. pure tt

  unfoldable pub perform : Request → Act lib (Unit {0})
  perform Request.open_connection = Connection.open_connection lib
  perform Request.close = Connection.close lib
  perform Request.dispose = Connection.dispose lib
  perform Request.begin = drop (Connection.begin_transaction lib)
  perform Request.server_version = drop (Connection.server_version lib)
  perform Request.is_open = drop (Connection.is_open lib)
  perform Request.enlist = Connection.enlist_transaction lib
  perform (Request.set_connection_string text) = Connection.set_connection_string lib text
  perform (Request.change_database name) = Connection.change_database lib name
  perform (Request.begin_isolated level) = drop (Connection.begin_isolated lib level)
