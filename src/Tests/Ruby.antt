-- ===== src/Tests/Ruby.antt =====
-- The methods of the Ruby driver, at a client library that has lost its server.
use nuodb_drivers.Prelude.{ℕ, false, some, none, codes}
use nuodb_drivers.Prelude.Outcome.{pos, negsuc, sql}
use nuodb_drivers.Client.{throws}
use nuodb_drivers.Ruby.Library.{Library, Handles, Op, number}
use nuodb_drivers.Ruby.Requests.{perform, results_get_string}
use nuodb_drivers.Ruby.Calls.{int32}
use nuodb_drivers.Ruby.Asked.{op_of, heading, uint_then}
use nuodb_drivers.Ruby.Explained.{Explained}
use nuodb_drivers.Ruby.Errors.{perform-Explained}

abbrev handles : Handles
handles = record {
  DatabaseMetaData = ℕ;
  ResultSet = ℕ;
  ResultSetMetaData = ℕ;
  Statement = ℕ;
  PreparedStatement = ℕ;
  Connection = ℕ;
  Double = ℕ;
  Object = ℕ;
}

abbrev lost : Library
lost = record {
  handles = handles;
  World = ℕ;
  call = λ op w. (throws (sql (negsuc 3) (codes "lost")), w);
  num2uint = λ v. some 1;
  num2int = λ v. some (pos 1);
  num2dbl = λ v. some 1;
  string_value_ptr = λ v. some (codes "t");
  time_timeval = λ v. some (pos 1, 500);
  rstring_ptr = λ v. none;
  bufsiz = 8192;
  decimal = λ z. codes "1";
  shortest = λ d. codes "1";
}

perform-Explained_example :
    Explained lost
      (some (Op.results_get_string 5 (pos 1)))
      false
      (codes "Failed to get string value for the designated column (")
      ⊥
      2
      (perform lost (results_get_string 5 (number (pos 1))) 2)
unfolding op_of heading uint_then int32
perform-Explained_example = perform-Explained lost (results_get_string 5 (number (pos 1))) 2
