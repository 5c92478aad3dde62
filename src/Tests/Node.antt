-- ===== src/Tests/Node.antt =====
-- A result of the Node.js driver, over a result set of two rows with one column.
use nuodb_drivers.Prelude.{
  ℕ, zero, suc, Bool, true, false, none, some, [], ◌∷◌, ◌≡◌, refl, arith, codes,
}
use nuodb_drivers.Prelude.Outcome.{pos, Succeeds, ok, ◌>>◌}
use nuodb_drivers.Client.{Attempt, returns}
use nuodb_drivers.Node.Library.{Library, SqlType}
use nuodb_drivers.Node.Result.{State, Column, string, type_of, construct, free}
use nuodb_drivers.Node.Reading.{done, more, cell}
use nuodb_drivers.Node.Reading
use nuodb_drivers.Node.Ownership.{read_all}
use nuodb_drivers.Node.Lifetime.{column, construct-free}
use nuodb_drivers.Node.Lifetime
use nuodb_drivers.Node.Connection
use nuodb_drivers.Node.Alive.{Opened, open_connection-Opened}

abbrev advance : ℕ → Attempt Bool × ℕ
advance zero = (returns false, zero)
advance (suc n) = (returns true, n)

-- The world is the number of rows that are left.
abbrev fake : Library
fake = record {
  World = ℕ;
  ResultSet = ℕ;
  column_count = λ rs w. (returns 1, w);
  column_name = λ rs i w. (returns (codes "ID"), w);
  column_type = λ rs i w. (returns SqlType.varchar, w);
  next = λ rs w. advance w;
  get_string = λ rs i w. (returns (some (codes "x")), w);
}

-- Nothing is allocated, and `result` is overwritten by the constructor.
abbrev start : State fake
start = record {
  result = record {
    columns = [];
    total_columns = 0;
    row_number = 0;
    affected_rows = 0;
    empty = true;
    result_set = none;
    previous_column_lengths = [];
    previous_row = none;
    next_column_lengths = [];
    next_row = none;
  };
  heap = λ q. none;
  fresh = 0;
  world = 2;
}

abbrev ids : Column
ids = record { name = codes "ID"; type = string }

construct-free_example :
    Succeeds
      (λ got s'.
        (got ≡ (codes "x" ∷ []) ∷ (codes "x" ∷ []) ∷ [])
        × ((free fake s').0 ≡ ok tt)
        × ((q : ℕ) → (free fake s').1.heap q ≡ none))
      ((construct fake (some 5) 0 >> read_all fake 3) start)
unfolding type_of
construct-free_example =
    construct-free fake 5 0 (ids ∷ []) start 2
      (record {
        count = 1;
        counted = 2;
        counts = refl;
        fits = refl;
        names = column refl refl Lifetime.last;
      })
      ((codes "x" ∷ []) ∷ (codes "x" ∷ []) ∷ []) 0 3 (λ q. refl)
      (more refl (cell refl Reading.last) refl
        (more refl (cell refl Reading.last) refl (done refl)))
      (omega arith)

-- The result behind its last row
abbrev at_end : State fake
at_end = record start {
  result = record (start.result) { previous_row = some 0 };
  heap = λ q. elim q [ zero ↦ some (codes "x" ∷ []) | suc n ↦ none ];
  fresh = 1;
}

-- A client library whose calls all return
abbrev willing : Connection.Library
willing = record {
  World = ℕ;
  Connection = ℕ;
  Properties = ℕ;
  Statement = ℕ;
  ResultSet = ℕ;
  create = λ w. (returns 8, suc w);
  alloc_properties = λ c w. (returns 9, suc w);
  put_value = λ p k v w. (returns tt, suc w);
  open_database = λ c d p w. (returns tt, suc w);
  release = λ c w. (returns tt, suc w);
  product_version = λ c w. (returns none, suc w);
  prepare_statement = λ c b w. (returns 1, suc w);
  execute_query = λ st w. (returns 2, suc w);
  execute_update = λ st w. (returns (pos 0), suc w);
}

-- An open connection
abbrev opened : Connection.State willing
opened = record {
  handle = some 4;
  alive = true;
  user = codes "u";
  password = codes "p";
  schema = codes "s";
  database = codes "d";
  world = 0;
}

open_connection-Opened_example : Opened willing (Connection.open_connection willing opened)
open_connection-Opened_example = open_connection-Opened willing opened (λ _ e. cc)
