-- ===== src/Tests/Dbi.antt =====
-- The functions of the Perl driver, at a client library with two rows of one field.
use nuodb_drivers.Prelude.{
  ℕ, zero, suc, Bool, true, false, count, Option, none, some, [], ◌∷◌, ◌≡◌, ◌≢◌, refl, arith, codes,
}
use nuodb_drivers.Prelude.Outcome.{Ends, ok, fault, negsuc, sql}
use nuodb_drivers.Client.{Attempt, returns, throws}
use nuodb_drivers.Dbi.Library.{Library}
use nuodb_drivers.Dbi.Handles.{State}
use nuodb_drivers.Dbi.Connection.{hash, login, commit, rollback, store_attrib, disconnect}
use nuodb_drivers.Dbi.Statement.{prepare, execute, fetch, bind_ph}
use nuodb_drivers.Dbi.Login.{Answered, Gone, login-Ends}
use nuodb_drivers.Dbi.Refusals.{Refuses, disconnect-Refuses}
use nuodb_drivers.Dbi.Binding.{Hands, bind_ph-Hands}
use nuodb_drivers.Dbi.Rows.{last, null, text, done, row, fetch_all, fetch_all-Yields}

abbrev advance : ℕ → Attempt Bool × ℕ
advance zero = (returns false, zero)
advance (suc n) = (returns true, n)

-- One more row: NULL if it is the last one
abbrev last_row : ℕ → Bool
last_row zero = true
last_row (suc n) = false

-- The world is the number of rows that are left.
abbrev fake : Library
fake = record {
  World = ℕ;
  Connection = ℕ;
  Properties = ℕ;
  Statement = ℕ;
  ResultSet = ℕ;
  create_connection = λ w. (returns (some 7), w);
  alloc_properties = λ c w. (returns 8, w);
  put_value = λ q n v w. (returns tt, w);
  open_database = λ c d q w. (returns tt, w);
  close_connection = λ c w. (returns tt, w);
  commit = λ c w. (returns tt, w);
  rollback = λ c w. (returns tt, w);
  set_auto_commit = λ c b w. (returns tt, w);
  product_version = λ c w. (returns (codes "2.0"), w);
  prepare_statement = λ c t w. (returns 9, w);
  parameter_count = λ st w. (returns 1, w);
  execute = λ st w. (returns true, w);
  get_result_set = λ st w. (returns (some 5), w);
  get_generated_keys = λ st w. (returns none, w);
  analyze = λ st n w. (returns [], w);
  set_bytes = λ st n v w. (returns tt, w);
  set_string = λ st n v w. (returns tt, w);
  close_statement = λ st w. (returns tt, w);
  column_count = λ rs w. (returns 1, w);
  next = λ rs w. advance w;
  get_string = λ rs i w. (returns (some (b'a' ∷ 0 ∷ b'b' ∷ [])), w);
  was_null = λ rs w. (returns (last_row w), w);
  close_results = λ rs w. (returns tt, w);
}

-- The same, but there is always an error when the next row is asked for.
abbrev broken : Library
broken = record fake { next = λ rs w. (throws (sql (negsuc 3) (codes "lost")), w) }

abbrev handles :
    {lib : Library}
    → Option lib.Connection
    → Option lib.Statement
    → Option lib.ResultSet
    → lib.World
    → State lib
handles {lib} c st rs w = record {
  dbh = record { conn = c; active = false; impset = false; auto_commit = true; error = none };
  sth = record {
    pstmt = st;
    rs = rs;
    num_params = 1;
    num_fields = 1;
    active = false;
    impset = true;
  };
  world = w;
}

abbrev closed : State fake
closed = handles {lib = fake} none none none 2

abbrev opened : State fake
opened = handles {lib = fake} (some 7) (some 9) (some 5) 2

abbrev lost : State broken
lost = handles {lib = broken} (some 7) (some 9) (some 5) 2

login-Ends_example :
    Ends
      (Answered fake closed)
      (Gone fake closed.dbh)
      (login fake (codes "db@host") (some (codes "dba")) none (hash (some (codes "hockey"))) closed)
    × ((login fake
          (codes "db@host")
          (some (codes "dba"))
          none
          (hash (some (codes "hockey")))
          closed).0
        ≢ fault)
login-Ends_example =
    login-Ends fake (codes "db@host") (some (codes "dba")) none (hash (some (codes "hockey")))
      closed

abbrev gone : State fake
gone = record opened { dbh = record (opened.dbh) { conn = none } }

disconnect-Refuses_example :
    Refuses fake gone (commit fake) false
    × Refuses fake gone (rollback fake) false
    × Refuses fake gone (store_attrib fake (codes "AutoCommit") true) (false, some (negsuc 899))
    × Refuses fake gone (prepare fake (codes "SELECT 1")) false
    × Refuses fake gone (execute fake) false
    × Refuses fake gone (fetch fake) none
    × (disconnect fake gone ≡ (ok false, gone))
unfolding disconnect
disconnect-Refuses_example = disconnect-Refuses fake opened gone (codes "SELECT 1") true refl

bind_ph-Hands_example :
    (count 0 (codes "abc") ≢ 0
      → Hands fake
          (fake.set_bytes 9 1 (codes "abc"))
          opened
          (bind_ph fake false 1 (codes "abc") opened))
    × (count 0 (codes "abc") ≡ 0
        → Hands fake
            (fake.set_string 9 1 (codes "abc"))
            opened
            (bind_ph fake false 1 (codes "abc") opened))
bind_ph-Hands_example = bind_ph-Hands fake 9 1 (codes "abc") opened refl

fetch_all-Yields_example :
    fetch_all fake 3 opened
    ≡ (ok ((some (codes "a") ∷ []) ∷ (none ∷ []) ∷ []), record opened { world = 0 })
fetch_all-Yields_example =
    fetch_all-Yields fake {rs = 5} 3 opened
      (row refl (text refl refl last) refl (row refl (null refl refl last) refl (done refl)))
      (record { conn = 7; conn_is = refl; rs_is = refl }) refl (omega arith)
