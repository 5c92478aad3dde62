-- ===== src/Dotnet/Connection/Lost.antt =====
-- dotnet/nuodb/transaction.cpp: a transaction does not keep its connection.
use nuodb_drivers.Prelude.{true, false, some, ◌≡◌, refl, arith}
use nuodb_drivers.Client.{returns}
use nuodb_drivers.Dotnet.Calls.{ok, raises, null_reference}
use nuodb_drivers.Dotnet.Library.{Library}
use nuodb_drivers.Dotnet.Objects.{read_committed, Transaction, State}
use nuodb_drivers.Dotnet.Connection.{begin_transaction, commit, rollback}

-- Where a connection is open, without a transaction, and the client library switches auto-commit off,
-- `BeginTransaction` returns a transaction and the connection has one underway. But both `Commit` and
-- `Rollback` of that transaction end with a null reference and leave the connection as it is.
pub begin_transaction-commit :
    (lib : Library) (s : State lib) (c : lib.Connection) (w : lib.World)
    → s.conn.connection ≡ some c
    → s.conn.in_transaction ≡ false
    → lib.set_auto_commit c false s.world ≡ (returns tt, w)
    → (t : Transaction) × (s' : State lib) × (begin_transaction lib s ≡ (ok t, s'))
      × (s'.conn.in_transaction ≡ true)
      × (commit lib t s' ≡ (raises null_reference, s'))
      × (rollback lib t s' ≡ (raises null_reference, s'))
unfolding begin_transaction commit rollback
begin_transaction-commit lib s c w e f g = (
  record { connection = false; isolation_level = read_committed },
  record s { conn = record (s.conn) { in_transaction = true }; world = w },
  ground (arith, e, f, g),
  refl,
  refl,
  refl,
)
