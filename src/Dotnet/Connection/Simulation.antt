-- ===== src/Dotnet/Connection/Simulation.antt =====
-- dotnet/nuodb/connection.cpp: the methods of a connection take it from phase to phase.
use nuodb_drivers.Prelude.{
  true, false, not, Option, none, some, [], ◌∷◌, codes, ◌≡◌, ◌≢◌, refl, sym, subst, ◌∙◌,
}
use nuodb_drivers.Dotnet.Calls.{
  Result, continue, nuodb, Post, Post-continue, Post-weaken, pure, throw_if, is_some, String,
}
use nuodb_drivers.Dotnet.Library.{Library}
use nuodb_drivers.Dotnet.Objects.{IsolationLevel, read_committed, other, State, set_conn}
use nuodb_drivers.Dotnet.Connection.{
  refuse, settings, connect, open_connection, close, new_transaction, begin_idle, begin_transaction,
  begin_isolated, is_open, enlist_transaction, server_version, set_connection_string,
  is_read_committed, tests, change_database,
}
use nuodb_drivers.Dotnet.Connection.Requests.{Request, perform}
use nuodb_drivers.Dotnet.Connection.Rules.{
  some-none, true-false, call-Post, try-Post, open-Post, throw_if-Post, try-End, refuse-Post,
}
use nuodb_drivers.Dotnet.Connection.Phases.{
  Phase, Allowed, refused, opened, begun, begun_half, begun_isolated, begun_isolated_half, changed,
  changed_rolled, changed_closed, asked, looked, parsed, Represents, Steps, close-Post, Half-Steps,
  close-Steps, dispose-Steps, After, Failed,
}
use nuodb_drivers.Dotnet.Connection.Keeping.{set_string-Keeps}

module _ {lib : Library} where
  open-Steps :
      (Q : Unit {0} → State lib → Type 0) (E : State lib → Type 0) (s : State lib)
      → Represents Phase.closed s.conn
      → ((s' : State lib) → Represents Phase.idle s'.conn → Q tt s')
      → ((s' : State lib) → Represents Phase.closed s'.conn → E s')
      → Post Q E (open_connection lib s)
  unfolding open_connection
  open-Steps Q E s h k l =
      Post-continue (λ _ s'. s' ≡ s) (λ s'. s' ≡ s) Q E (λ _. connect lib s.conn)
        (refuse lib (settings lib s.conn) s) (refuse-Post (settings lib s.conn) s)
        (λ _ s' e.
          subst (λ x. Post Q E (connect lib s.conn x)) (sym e)
            (try-Post Q E
              (lib.create_connection s.conn.database s.conn.schema s.conn.username s.conn.password)
              (λ c. set_conn (λ y. record y { connection = some c })) s
              (λ c w. k _ (some-none c, h.1)) (λ w. l _ h)))
        (λ s' e. subst E (sym e) (l s h))

  -- A transaction has been begun, if none was underway, though the call may have failed.
  begin_idle-Post :
      (level : IsolationLevel) (c : lib.Connection) (s : State lib)
      → s.conn.connection ≢ none
      → Post
          (λ _ s'. Represents Phase.underway s'.conn)
          (λ s'. Represents Phase.underway s'.conn)
          (begin_idle lib level c s)
  begin_idle-Post level c s o =
      call-Post _ _ (lib.set_auto_commit c false) (λ _. pure (new_transaction lib level))
        (record s { conn = record (s.conn) { in_transaction = true } }) (λ _ w. (o, refl))
        (λ w. (o, refl))

  begin-Steps :
      (r : Request) (p : Phase) (s : State lib)
      → Represents p s.conn
      → Allowed r Phase.idle true Phase.underway
      → Allowed r Phase.idle false Phase.underway
      → (level : IsolationLevel) (c : lib.Connection) → s.conn.connection ≡ some c
      → s.conn.in_transaction ≡ false
      → Steps r p (begin_idle lib level c s)
  begin-Steps r Phase.closed s (o, b) x y level c e t = absurd (some-none c (sym e ∙ o))
  begin-Steps r Phase.underway s (o, b) x y level c e t = absurd (true-false (sym b ∙ t))
  begin-Steps r Phase.idle s (o, b) x y level c e t =
      Post-weaken _ _ _ _ (begin_idle lib level c s) (begin_idle-Post level c s o)
        (λ _ s' k. (Phase.underway, x, k)) (λ s' k. (Phase.underway, y, k))

  change_database-Steps :
      (name : String) (p : Phase) (s : State lib)
      → Represents p s.conn
      → Steps (Request.change_database name) p (change_database lib name s)
  unfolding change_database
  change_database-Steps none p s h = (p, refused, h)
  change_database-Steps (some []) p s h = (p, refused, h)
  change_database-Steps (some (c ∷ cs)) p s h =
      Post-continue _ _ _ _ _ (close lib s) (close-Post p s h)
        (λ _ s' (n, k).
          open-Steps _ _ (record s' { conn = record (s'.conn) { schema = c ∷ cs } }) k
            (λ s'' m. (Phase.idle, changed n, m)) (λ s'' m. (Phase.closed, changed_closed n, m)))
        (λ s' e. Half-Steps (Request.change_database (some (c ∷ cs))) p s' changed_rolled e)

  open_again :
      (p : Phase) (s : State lib)
      → Represents p s.conn
      → s.conn.connection ≢ none
      → Steps Request.open_connection p (open_connection lib s)
  unfolding open_connection
  open_again p s h n = go s.conn.connection refl
    where
      go :
          (o : Option lib.Connection)
          → s.conn.connection ≡ o
          → Steps Request.open_connection p (
              continue
                (λ _. connect lib s.conn)
                (continue
                  (λ _. refuse lib (tests lib s.conn))
                  (throw_if (is_some o) (nuodb (codes "The connection is already open.")) s)))
      go none e = absurd (n e)
      go (some c) e = (p, refused, h)

  drop-Steps :
      {A : Type 0} (r : Request) (p : Phase) (m : Result A × State lib)
      → Steps r p m
      → Steps r p (continue (λ a. pure tt) m)
  drop-Steps r p m h = Post-continue _ _ _ _ (λ a. pure tt) m h (λ _ s k. k) (λ s k. k)

  begin_transaction-Steps :
      (p : Phase) (s : State lib)
      → Represents p s.conn
      → Steps Request.begin p (begin_transaction lib s)
  unfolding begin_transaction
  begin_transaction-Steps p s h =
      open-Post (After Request.begin p) (Failed Request.begin p) (codes "The connection is closed.")
        _ s
        (λ c e.
          throw_if-Post (After Request.begin p) (Failed Request.begin p) s.conn.in_transaction
            (nuodb (codes "A transaction is already underway.")) _ s
            (λ t. begin-Steps Request.begin p s h begun begun_half read_committed c e t)
            (p, refused, h))
        (λ _. (p, refused, h))

  begin_isolated-Steps :
      (level : IsolationLevel) (p : Phase) (s : State lib)
      → Represents p s.conn
      → Steps (Request.begin_isolated level) p (begin_isolated lib level s)
  unfolding begin_isolated
  begin_isolated-Steps level p s h =
      open-Post (After (Request.begin_isolated level) p) (Failed (Request.begin_isolated level) p)
        (codes "The connection is closed.") _ s
        (λ c e.
          throw_if-Post (After (Request.begin_isolated level) p)
            (Failed (Request.begin_isolated level) p) s.conn.in_transaction
            (nuodb (codes "A transaction is already underway.")) _ s (λ t. go level c e t)
            (p, refused, h))
        (λ _. (p, refused, h))
    where
      go :
          (level : IsolationLevel) (c : lib.Connection)
          → s.conn.connection ≡ some c
          → s.conn.in_transaction ≡ false
          → Steps (Request.begin_isolated level) p (
              continue
                (λ _. begin_idle lib level c)
                (throw_if
                  (not (is_read_committed lib level))
                  (nuodb (codes "The isolation level is unsupported."))
                  s))
      go read_committed c e t =
          begin-Steps (Request.begin_isolated read_committed) p s h begun_isolated
            begun_isolated_half read_committed c e t
      go (other n) c e t = (p, refused, h)

  open_connection-Steps :
      (p : Phase) (s : State lib)
      → Represents p s.conn
      → Steps Request.open_connection p (open_connection lib s)
  unfolding open_connection
  open_connection-Steps Phase.closed s h =
      open-Steps _ _ s h (λ s' k. (Phase.idle, opened, k)) (λ s' k. (Phase.closed, refused, k))
  open_connection-Steps Phase.idle s h = open_again Phase.idle s h h.0
  open_connection-Steps Phase.underway s h = open_again Phase.underway s h h.0

  server_version-Steps :
      (p : Phase) (s : State lib)
      → Represents p s.conn
      → Steps Request.server_version p (server_version lib s)
  unfolding server_version
  server_version-Steps p s h =
      open-Post (After Request.server_version p) (Failed Request.server_version p)
        (codes "The connection is closed.") _ s
        (λ c e.
          try-End (After Request.server_version p) (Failed Request.server_version p)
            (lib.database_version c) s (λ _ w. (p, asked, h)) (λ w. (p, refused, h)))
        (λ _. (p, refused, h))

  -- A connection is closed, idle, or has a transaction underway, and a call takes it from one to
  -- another only as `Allowed` says, by whether the call returns: one that throws may still have
  -- begun or ended a transaction, and only `ChangeDatabase` closes the connection and then throws.
  pub perform-Steps :
      (r : Request) (p : Phase) (s : State lib) → Represents p s.conn → Steps r p (perform lib r s)
  unfolding perform is_open enlist_transaction
  perform-Steps Request.open_connection p s h = open_connection-Steps p s h
  perform-Steps Request.close p s h = close-Steps p s h
  perform-Steps Request.dispose p s h = dispose-Steps p s h
  perform-Steps Request.begin p s h =
      drop-Steps Request.begin p (begin_transaction lib s) (begin_transaction-Steps p s h)
  perform-Steps Request.server_version p s h =
      drop-Steps Request.server_version p (server_version lib s) (server_version-Steps p s h)
  perform-Steps Request.is_open p s h = (p, looked, h)
  perform-Steps Request.enlist p s h = (p, refused, h)
  perform-Steps (Request.set_connection_string text) p s h =
      Post-weaken _ _ _ _ (set_connection_string lib text s) (set_string-Keeps p text s h)
        (λ _ s' k. (p, parsed, k)) (λ s' k. (p, refused, k))
  perform-Steps (Request.change_database name) p s h = change_database-Steps name p s h
  perform-Steps (Request.begin_isolated level) p s h =
      drop-Steps (Request.begin_isolated level) p (begin_isolated lib level s)
        (begin_isolated-Steps level p s h)
