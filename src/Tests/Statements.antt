-- ===== src/Tests/Statements.antt =====
-- The methods of a statement, at concrete sessions.
use nuodb_drivers.Prelude.{true, false, none, some, [], ◌∷◌, ◌≡◌, refl, arith, codes}
use nuodb_drivers.Prelude.Outcome.{pos, negsuc, ok, fault}
use nuodb_drivers.Machine.{to}
use nuodb_drivers.Session.{Param, Session, Stmt}
use nuodb_drivers.Sql.Kind.{select_kind}
use nuodb_drivers.Cpp.Statement.{hy000, execute}
use nuodb_drivers.Cpp.Statement.Columns.{to_int}
use nuodb_drivers.Pdo.Driver.{handle_last_id}
use nuodb_drivers.Pdo.Statement.{stmt_execute, stmt_dtor}
use nuodb_drivers.Pdo.Statement.Columns.{int_param}
use nuodb_drivers.Pdo.Statement.Hook.{normalize, exec_pre, integer, BoundParam, stmt_param_hook}
use nuodb_drivers.Pdo.Statement.Cursor.{
  Yields, done, row, Reading, fetch_times, fetch_times-Yields, finished,
}
use nuodb_drivers.Pdo.Statement.Execute.{stmt_execute_error}
use nuodb_drivers.Pdo.Statement.Lifetime.{last_id-stmt_dtor}
use nuodb_drivers.Pdo.Statement.Binding.{bind_named_integer}
use nuodb_drivers.Tests.Samples.{
  Log, table, fake, db_handle, handle, statement, stmt, session, unsigned_long,
}

-- An open cursor on two rows, and the world at its end.
abbrev open_stmt : Stmt fake table
open_stmt = stmt true none

abbrev open_session : Session fake table
open_session = session (statement (codes "SELECT 1") (some 3)) open_stmt

abbrev no_rows : Log
no_rows = record { rows = 0; calls = [] }

two_rows : Yields fake table 3 2 (open_session.machine.world) no_rows
two_rows = row refl (row refl (done refl))

open_session-Reading : Reading fake table open_session open_stmt 3
open_session-Reading = record {
  cpp = statement (codes "SELECT 1") (some 3);
  place = 0;
  executed = refl;
  driver_data = refl;
  stmt = refl;
  on_heap = refl;
  results = refl;
}

fetch_times-Yields_example :
    fetch_times fake table 5 open_session
    ≡ (ok 2, finished fake table open_session open_stmt 2 no_rows)
fetch_times-Yields_example =
    fetch_times-Yields fake table 5 open_session open_stmt two_rows open_session-Reading refl refl
      (omega arith)

-- A statement that fails, one with rows and one without.
abbrev failing : Session fake table
failing = session (statement (codes "FAIL") none) (stmt false none)

abbrev selecting : Session fake table
selecting =
    session (record (statement (codes "SELECT 1") none) { stmt_type = select_kind })
      (stmt false none)

abbrev plain : Session fake table
plain = session (statement (codes "CREATE TABLE t") none) (stmt false none)

stmt_execute_error_example : stmt_execute fake table failing ≡ (
  ok false,
  record failing {
    machine = record (failing.machine) {
      thrown = record { sql_state = hy000; code = negsuc 0; message = codes "failed" } ∷ [];
    };
    pdo = record (failing.pdo) {
      driver_data =
          to
            (record (stmt false none) { error_code = negsuc 0; error_msg = some (codes "failed") });
      error_code = hy000;
    };
  },
)
unfolding execute
stmt_execute_error_example =
    stmt_execute_error fake table failing (stmt false none) 0 db_handle (failing.machine) (negsuc 0)
      (codes "failed") refl refl refl refl

last_id-stmt_dtor_example :
    (handle_last_id fake unsigned_long 5 none (stmt_dtor fake table open_session).1.machine).0
    ≡ fault
last_id-stmt_dtor_example =
    last_id-stmt_dtor fake table unsigned_long 5 none open_session open_stmt 0
      (statement (codes "SELECT 1") (some 3)) db_handle handle refl refl refl refl refl refl

-- The first parameter, by name and by number.
abbrev unbound : Param
unbound = record { sqltype = 0; col_name = []; col_name_length = 0; len = 0; bytes = none }

abbrev by_name : BoundParam
by_name = record {
  is_param = true;
  paramno = none;
  name = some (codes ":a");
  param_type = int_param;
  parameter = integer (pos 9);
}

abbrev binding : Session fake table
binding = session (statement (codes "SELECT ?") none) (stmt false (some (unbound ∷ [])))

bind_named_integer_example :
    let b' = record by_name { paramno = some 0 } in
    let x' = (stmt_param_hook fake table by_name normalize binding).1 in
    ((stmt_param_hook fake table by_name normalize binding).0 ≡ ok (true, b'))
    × ((stmt_param_hook fake table b' exec_pre x').0 ≡ ok (true, b'))
    × ((stmt_param_hook fake table b' exec_pre x').1.machine.world
        ≡ record { rows = 2; calls = 101 ∷ [] })
unfolding to_int
bind_named_integer_example =
    bind_named_integer fake table by_name binding (stmt false (some (unbound ∷ []))) (unbound ∷ [])
      0 0 (codes ":a") unbound (pos 9) (statement (codes "SELECT ?") none) (codes "SELECT ?")
      (record { rows = 2; calls = 101 ∷ [] }) refl refl refl refl refl refl refl refl refl refl refl
      refl refl
