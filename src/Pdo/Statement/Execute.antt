-- ===== src/Pdo/Statement/Execute.antt =====
-- Executing a prepared statement.
use nuodb_drivers.Prelude.{ℕ, true, false, none, some, ◌∷◌, ◌≡◌, arith, Bytes, get_elem?}
use nuodb_drivers.Prelude.Outcome.{ℤ, sql, ok, raise}
use nuodb_drivers.Zend.{HashTable}
use nuodb_drivers.Client.{Client, returns}
use nuodb_drivers.Machine.{to, Machine, Statement, DbHandle}
use nuodb_drivers.Session.{Stmt, Session}
use nuodb_drivers.Cpp.Statement.{hy000, execute}
use nuodb_drivers.Pdo.Statement.{stmt_execute}

module _ (client : Client) (zend : HashTable) where
  -- If the client library throws an SQL error while a statement runs, the execution returns 0. The
  -- statement keeps the code and the text, and PHP gets both in one exception with SQLSTATE HY000;
  -- the cursor is as it was.
  pub stmt_execute_error :
      (x : Session client zend) (s : Stmt client zend) (p : ℕ) (h : DbHandle client)
      (m : Machine client) (code : ℤ) (text : Bytes)
      → x.pdo.driver_data ≡ to s
      → x.machine.driver_data ≡ to h
      → s.stmt ≡ some p
      → execute client p x.machine ≡ (raise (sql code text), m)
      → stmt_execute client zend x ≡ (
        ok false,
        record x {
          machine = record m {
            thrown = record { sql_state = hy000; code = code; message = text } ∷ m.thrown;
          };
          pdo = record (x.pdo) {
            driver_data = to (record s { error_code = code; error_msg = some text });
            error_code = hy000;
          };
        },
      )
  unfolding stmt_execute
  stmt_execute_error x s p h m code text d e f g = ground arith

  -- A statement that has run with a result set has an open cursor before its first row, and the
  -- number of columns of the result set.
  stmt_execute_rows :
      (x : Session client zend) (s : Stmt client zend) (p : ℕ) (h : DbHandle client)
      (m : Machine client) (cpp : Statement client) (r : client.Results) (n : ℕ) (w : client.World)
      → x.pdo.driver_data ≡ to s
      → x.machine.driver_data ≡ to h
      → s.stmt ≡ some p
      → execute client p x.machine ≡ (ok tt, m)
      → get_elem? m.heap p ≡ some (some cpp)
      → cpp.rs ≡ some r
      → client.column_count r m.world ≡ (returns n, w)
      → stmt_execute client zend x ≡ (
        ok true,
        record x {
          machine = record m { world = w };
          pdo = record (x.pdo) {
            driver_data = to (record s { cursor_open = true; exhausted = false });
            column_count = n;
            row_count = 0;
          };
        },
      )
  unfolding stmt_execute
  stmt_execute_rows x s p h m cpp r n w d e f g l rs c = ground arith

  -- A statement that has run with no result set has no cursor, no columns and no rows to fetch.
  stmt_execute_no_rows :
      (x : Session client zend) (s : Stmt client zend) (p : ℕ) (h : DbHandle client)
      (m : Machine client) (cpp : Statement client)
      → x.pdo.driver_data ≡ to s
      → x.machine.driver_data ≡ to h
      → s.stmt ≡ some p
      → execute client p x.machine ≡ (ok tt, m)
      → get_elem? m.heap p ≡ some (some cpp)
      → cpp.rs ≡ none
      → stmt_execute client zend x ≡ (
        ok true,
        record x {
          machine = m;
          pdo = record (x.pdo) {
            driver_data = to (record s { cursor_open = false; exhausted = true });
            column_count = 0;
            row_count = 0;
          };
        },
      )
  unfolding stmt_execute
  stmt_execute_no_rows x s p h m cpp d e f g l rs = ground arith
