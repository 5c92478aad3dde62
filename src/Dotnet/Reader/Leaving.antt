-- ===== src/Dotnet/Reader/Leaving.antt =====
-- dotnet/nuodb/datareader.cpp: a reader that is to close a connection that is closed already.
use nuodb_drivers.Prelude.{true, false, none, some, codes, ◌≡◌, arith}
use nuodb_drivers.Dotnet.Calls.{raises, undefined, nuodb}
use nuodb_drivers.Dotnet.Library.{Library}
use nuodb_drivers.Dotnet.Objects.{State}
use nuodb_drivers.Dotnet.Connection.{rollback_transaction}
use nuodb_drivers.Dotnet.Connection
use nuodb_drivers.Dotnet.Reader.{read}
use nuodb_drivers.Dotnet.Reader.Creating.{close}

-- A reader with `CommandBehavior::CloseConnection`, of a command with a connection, is open after its
-- connection has been closed. Then `Close` of the reader throws, the reader does not count as closed
-- though its results are deleted, which is the only call of the client library, and `Read` uses the
-- NULL pointer that is left.
pub close-read :
    (lib : Library) (s : State lib) (r : lib.Results)
    → s.reader.is_closed ≡ false
    → s.reader.close_connection ≡ true
    → s.reader.results ≡ some r
    → s.command.connection ≡ true
    → s.conn.connection ≡ none
    → ((close lib s).0 ≡ raises (nuodb (codes "The connection is not open.")))
      × ((close lib s).1.reader.is_closed ≡ false)
      × ((close lib s).1.reader.results ≡ none)
      × ((close lib s).1.world ≡ lib.delete_results r s.world)
      × ((read (close lib s).1).0 ≡ undefined)
unfolding close read Connection.close rollback_transaction
close-read lib s r a b c d e = (
  ground (arith, a, b, c, d, e),
  ground (arith, a, b, c, d, e),
  ground (arith, a, b, c, d, e),
  ground (arith, a, b, c, d, e),
  ground (arith, a, b, c, d, e),
)
