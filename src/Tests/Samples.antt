-- ===== src/Tests/Samples.antt =====
-- A hash table, a client library and sessions for the tests.
use nuodb_drivers.Prelude.{
  ℕ, zero, suc, ◌+◌, ◌-◌, ◌^◌, Bool, true, false, Option, none, some, List, [], ◌∷◌, ◌++◌, ◌≡◌,
  refl, arith, Bytes, bytes_eq, bytes_eq_iff, codes, if◌then◌else◌,
}
use nuodb_drivers.Prelude.Outcome.{ℤ, pos, negsuc, sql}
use nuodb_drivers.Zend.{HashTable}
use nuodb_drivers.Client.{Client, Attempt, returns, throws, ColumnType}
use nuodb_drivers.Sql.Kind.{select_kind}
use nuodb_drivers.Sql.Kind
use nuodb_drivers.Machine.{Machine, Statement, Handle, DbHandle, to}
use nuodb_drivers.Session.{Param, Stmt, Session}

abbrev Pairs : Type 0
Pairs = List (Bytes × ℕ)

abbrev find : Bytes → Pairs → Option ℕ
find k [] = none
find k ((j, v) ∷ t) = if bytes_eq j k then some v else find k t

abbrev update : Bytes → ℕ → Pairs → Pairs
update k v [] = (k, v) ∷ []
update k v ((j, w) ∷ t) = if bytes_eq j k then (k, v) ∷ t else (j, w) ∷ update k v t

abbrev keys : Pairs → List Bytes
keys [] = []
keys ((j, v) ∷ t) = j ∷ keys t

pub find-update :
    (j k : Bytes) (v : ℕ) (t : Pairs)
    → find j (update k v t) ≡ (if bytes_eq k j then some v else find j t)
find-update j k v [] = refl
find-update j k v ((i, w) ∷ t) =
    ground (arith, bytes_eq_iff k j, bytes_eq_iff i k, bytes_eq_iff i j, find-update j k v t)

pub keys-update :
    (k : Bytes) (v : ℕ) (t : Pairs)
    → keys (update k v t) ≡ elim (find k t) [ none ↦ keys t ++ k ∷ [] | some _ ↦ keys t ]
keys-update k v [] = refl
keys-update k v ((i, w) ∷ t) = ground (arith, bytes_eq_iff i k, keys-update k v t)

abbrev pub table : HashTable
table = record {
  Table = Pairs;
  empty = [];
  update = update;
  find = find;
  keys = keys;
  find_empty = λ k. refl;
  find_update = find-update;
  keys_empty = refl;
  keys_update = keys-update;
}

-- The rows that are left, and what was called.
pub record Log : Type 0 where
  pub rows : ℕ
  pub calls : List ℕ

abbrev logged : {A : Type 0} → ℕ → A → Log → Attempt A × Log
logged n a w = (returns a, record w { calls = n ∷ w.calls })

abbrev next_row : ℕ → Log → Attempt Bool × Log
next_row zero w = (returns false, w)
next_row (suc n) w = (returns true, record w { rows = n })

abbrev run : Bytes → Log → Attempt (Unit {0}) × Log
run text w =
    if bytes_eq text (codes "FAIL")
    then (throws (sql (negsuc 0) (codes "failed")), w)
    else logged 6 tt w

abbrev type_at : ℕ → ColumnType
type_at (suc zero) = ColumnType.boolean
type_at _ = ColumnType.integer

-- A prepared statement is its text, and there is one result set.
abbrev pub fake : Client
fake = record {
  World = Log;
  Connection = ℕ;
  Prepared = Bytes;
  Results = ℕ;
  create = λ d u p o s. logged 1 7;
  close_connection = λ c. logged 2 tt;
  commit = λ c. logged 3 tt;
  rollback = λ c. logged 4 tt;
  prepare = λ c text keys. logged 5 text;
  close_statement = λ q. logged 7 tt;
  execute = run;
  execute_query = λ q. logged 8 1;
  execute_update = λ q. logged 9 tt;
  generated_keys = λ q. logged 10 (some 2);
  set_int = λ q n v. logged (100 + n) tt;
  set_string = λ q n v. logged 11 tt;
  set_blob = λ c q n v. logged 12 tt;
  set_clob = λ c q n v. logged 13 tt;
  parameter_count = λ q. logged 25 (some 1);
  close_results = λ r. logged 14 tt;
  next = λ r w. next_row w.rows w;
  column_count = λ r. logged 15 2;
  column_label = λ r n. logged 16 (some (codes "A"));
  column_name = λ r n. logged 17 (codes "A");
  column_type = λ r n. logged 18 (type_at n);
  get_string = λ r n. logged 19 none;
  get_int = λ r n. logged 20 (pos 5);
  get_long = λ r n. logged 21 (pos 5);
  get_timestamp = λ r n. logged 22 none;
  get_time = λ r n. logged 22 none;
  get_date = λ r n. logged 22 none;
  get_blob = λ r n. logged 23 [];
  get_clob = λ r n. logged 24 [];
}

abbrev pub handle : Handle fake
handle = record { con = some 7; opts = none; last_stmt = some 0 }

abbrev pub db_handle : DbHandle fake
db_handle = record { db = some handle; last_app_error = none; fetch_table_names = false }

-- A prepared statement, with a result set or without.
abbrev pub statement : Bytes → Option ℕ → Statement fake
statement text rs = record {
  sql = some text;
  stmt = some text;
  stmt_type = Kind.unknown;
  rs = rs;
  rs_gen_keys = none;
}

abbrev pub machine : Bool → Bool → Statement fake → Machine fake
machine in_txn auto_commit s = record {
  driver_data = to db_handle;
  in_txn = in_txn;
  auto_commit = auto_commit;
  error_code = codes "00000";
  heap = some s ∷ [];
  thrown = [];
  world = record { rows = 2; calls = [] };
}

abbrev pub stmt : Bool → Option (List Param) → Stmt fake table
stmt cursor_open params = record {
  stmt = some 0;
  sql = none;
  name = [];
  exhausted = false;
  cursor_open = cursor_open;
  named_params = (codes ":a" ++ 0 ∷ [], 0) ∷ [];
  error_code = pos 0;
  error_msg = none;
  in_params = params;
  out_params = none;
}

abbrev pub session : Statement fake → Stmt fake table → Session fake table
session cpp s = record {
  machine = machine false true cpp;
  pdo = record {
    driver_data = to s;
    executed = true;
    column_count = 0;
    row_count = 0;
    error_code = codes "00000";
  };
}

-- An `int` that is read as an `unsigned long` of 64 bits, with its sign extended
abbrev pub unsigned_long : ℤ → ℕ
unsigned_long (pos n) = n
unsigned_long (negsuc n) = 2 ^ 64 - 1 - n
