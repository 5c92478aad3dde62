-- ===== src/Tests/Php.antt =====
-- The functions of the PHP extension, at a client library whose world counts rows.
use nuodb_drivers.Prelude.{
  ℕ, zero, suc, true, false, none, some, [], ◌∷◌, ◌+◌, ◌≡◌, refl, arith, codes, Bytes,
}
use nuodb_drivers.Prelude.Outcome.{ok, fault, sql, negsuc}
use nuodb_drivers.Client.{returns, throws}
use nuodb_drivers.Php.Library.{Library}
use nuodb_drivers.Php.Registry.{Conn, Result, Process}
use nuodb_drivers.Php.Connections.{Text, Target, connect}
use nuodb_drivers.Php.Query.{resource, query, free_resource, command}
use nuodb_drivers.Php.Requests.{
  connects, queries, next_request, initial, perform, Reach, here, next,
}
use nuodb_drivers.Php.Requests
use nuodb_drivers.Php.Invariant.{Consistent}
use nuodb_drivers.Php.Invariant.Histories.{Reach-initial}
use nuodb_drivers.Php.Selecting.{Selects}
use nuodb_drivers.Php.Freeing.{free-query, free_older}
use nuodb_drivers.Php.Connecting.{connect-connect}

-- The world is the number of calls that counted.
abbrev fake : Library
fake = record {
  World = ℕ;
  Connection = ℕ;
  Properties = ℕ;
  Statement = ℕ;
  ResultSet = ℕ;
  create_connection = λ w. (returns 7, w + 1);
  alloc_properties = λ c w. (returns 8, w);
  put_value = λ q n v w. (returns tt, w);
  open_database = λ c d q w. (returns tt, w + 1);
  commit = λ c w. (returns tt, w + 1);
  rollback = λ c w. (returns tt, w + 1);
  close_connection = λ c w. (returns tt, w + 1);
  prepare_statement = λ c t w. (returns w, w + 1);
  create_statement = λ c w. (returns w, w + 1);
  execute_query = λ st w. (returns (st + 100), w + 1);
  execute = λ st t w. (returns tt, w + 1);
  close_statement = λ st w. (returns tt, w + 1);
  close_results = λ rs w. (returns tt, w + 1);
  next = λ rs w. (returns true, w);
  column_count = λ rs w. (returns 1, w);
  column_name = λ rs i w. (returns (codes "ID"), w);
  get_string = λ rs i w. (returns (some (codes "1")), w);
  was_null = λ rs w. (returns false, w);
  hash_text = λ n. (b'0' + n) ∷ [];
}

-- A server that cannot be reached
abbrev unreachable : Library
unreachable = record fake {
  open_database = λ c d q w. (throws (sql (negsuc 4) (codes "no agent")), w);
  close_connection = λ c w. (throws (sql (negsuc 4) (codes "not connected")), w);
}

abbrev text_at : ℕ → Bytes → Text
text_at n b = record { address = n; bytes = b }

abbrev target : Target
target = record {
  database = text_at 1 (codes "db@host");
  user = text_at 2 (codes "dba");
  passwd = text_at 3 [];
  schema = text_at 4 (codes "hockey");
}

abbrev start : {lib : Library} → lib.World → Process lib
start {lib} w = record { tables = initial lib; world = w }

abbrev conn : Conn fake
conn = record { hash = codes "1234"; error = codes "old"; c = 7; autocommit = true; r = [] }

-- One open connection, which is the default one
abbrev connected : Process fake
connected = record {
  tables = record (initial fake) {
    default_connection = some 0;
    conns = λ a. elim a [ zero ↦ some conn | suc n ↦ none ];
    next_conn = 1;
  };
  world = 3;
}

abbrev after : Process fake → Requests.Event → Process fake
unfolding perform
after s e = (perform fake e s).1

Reach-initial_example :
    Consistent fake
      (after (after (start {lib = fake} 0) (connects target)) (queries (codes "SELECT 1") none))
unfolding perform after
Reach-initial_example =
    Reach-initial fake 0
      (after (after (start {lib = fake} 0) (connects target)) (queries (codes "SELECT 1") none))
      (next (next here (Requests.returns (connects target) refl))
        (Requests.returns (queries (codes "SELECT 1") none) refl))

abbrev selecting : Selects fake (codes "SELECT 1") none 0 conn 3 103 5 connected
unfolding command
selecting = record {
  between = 4;
  selects_it = refl;
  link_is = refl;
  conn_is = refl;
  prepares = refl;
  executes_it = refl;
}

free-query_example :
    ((query fake (codes "SELECT 1") none connected).0 ≡ ok (resource 0))
    × ((free_resource fake 0 (query fake (codes "SELECT 1") none connected).1).0 ≡ ok tt)
    × ((free_resource fake 0 (query fake (codes "SELECT 1") none connected).1).1.world ≡ 8)
    × ((free_resource fake 0 (query fake (codes "SELECT 1") none connected).1).1.tables.results 0
        ≡ none)
    × ((free_resource fake 0 (query fake (codes "SELECT 1") none connected).1).1.tables.results_map
          0
        ≡ false)
    × ((free_resource fake 0 (query fake (codes "SELECT 1") none connected).1).1.tables.conns 0
        ≡ some conn)
free-query_example =
    free-query fake (codes "SELECT 1") none 0 conn 3 103 5 connected selecting 8 refl (record {
      after_results = 6;
      after_commit = 7;
      closes_results = refl;
      commits = refl;
      closes_statement = refl;
    })

-- The first of two results is registered.
abbrev first : Result fake
first = record { nc = 0; rs = some 50; stmt = some 51; it = some 0 }

abbrev conn1 : Conn fake
conn1 = record conn { r = 0 ∷ [] }

abbrev queried : Process fake
queried = record {
  tables = record (connected.tables) {
    conns = λ a. elim a [ zero ↦ some conn1 | suc n ↦ none ];
    results_map = λ r. elim r [ zero ↦ true | suc n ↦ false ];
    results = λ r. elim r [ zero ↦ some first | suc n ↦ none ];
    next_result = 1;
  };
  world = 3;
}

free_older_example : (free_resource fake 0 (query fake (codes "SELECT 1") none queried).1).0 ≡ fault
unfolding command
free_older_example =
    free_older fake (codes "SELECT 1") none 0 conn1 3 103 5 queried
      (record {
        between = 4;
        selects_it = refl;
        link_is = refl;
        conn_is = refl;
        prepares = refl;
        executes_it = refl;
      })
      0 first 50 51 8 (omega arith) refl refl refl refl refl refl
      (record {
        after_results = 6;
        after_commit = 7;
        closes_results = refl;
        commits = refl;
        closes_statement = refl;
      })

abbrev joined : Process fake
unfolding connect
joined = (connect fake target (start {lib = fake} 0)).1

connect-connect_example : connect fake target joined ≡ (ok (some 0), joined)
unfolding connect
connect-connect_example = connect-connect fake target (start {lib = fake} 0) joined 0 refl
