-- ===== src/Machine.antt =====
-- The state of the PDO driver: the records of php_pdo/pdo_nuodb/php_pdo_nuodb_c_cpp_common.h and
-- php_pdo_nuodb_cpp_int.h, and the fields of PDO's `pdo_dbh_t` that the driver uses. There is one
-- connection, and any number of statements on a heap.
use nuodb_drivers.Prelude.{
  ℕ, Bool, true, false, Option, none, some, List, [], ◌∷◌, ◌++◌, Bytes, length, get_elem?, set,
}
use nuodb_drivers.Prelude.Outcome.{ℤ, ok, raise, Call, ◌>>=◌, pure, crash, modify, deref}
use nuodb_drivers.Client.{Client, Attempt, returns, throws}
use nuodb_drivers.Sql.Kind.{Kind}

-- A pointer to memory that may have been freed.
pub data Pointer (A : Type 0) : Type 0 where
  null : Pointer A
  to : A → Pointer A
  dangling : Pointer A

abbrev pub follow : {S A : Type 0} → Pointer A → Call S A
follow null = crash
follow (to a) = pure a
follow dangling = crash

abbrev pub is_null : {A : Type 0} → Pointer A → Bool
is_null null = true
is_null (to a) = false
is_null dangling = false

-- The values of the four options of a connection; the names are fixed.
pub record Options : Type 0 where
  pub database : Bytes
  pub user : Bytes
  pub password : Bytes
  pub schema : Bytes

-- `zend_throw_exception_ex` as the driver calls it.
pub record Thrown : Type 0 where
  pub sql_state : Bytes
  pub code : ℤ
  pub message : Bytes

module _ (client : Client) where
  open client use {World, Connection, Prepared, Results}

  -- `PdoNuoDbHandle`; statements are named by their place on the heap.
  pub record Handle : Type 0 where
    pub con : Option Connection
    pub opts : Option Options
    pub last_stmt : Option ℕ

  -- `PdoNuoDbStatement`
  pub record Statement : Type 0 where
    pub sql : Option Bytes
    pub stmt : Option Prepared
    pub stmt_type : Kind
    pub rs : Option Results
    pub rs_gen_keys : Option Results

  -- `pdo_nuodb_db_handle`
  pub record DbHandle : Type 0 where
    pub db : Option Handle
    pub last_app_error : Option Bytes
    pub fetch_table_names : Bool

  -- `pdo_dbh_t`, the heap of C++ statements (`none` is one that was deleted), the client's world
  -- and the exceptions that were handed to PHP, the last one first.
  pub record Machine : Type 0 where
    pub driver_data : Pointer DbHandle
    pub in_txn : Bool
    pub auto_commit : Bool
    pub error_code : Bytes
    pub heap : List (Option Statement)
    pub thrown : List Thrown
    pub world : World

  abbrev pub Run : Type 0 → Type 0
  Run A = Call Machine A

  -- A call of the client library.
  abbrev pub call : {A : Type 0} → (World → Attempt A × World) → Run A
  call f m =
      let (r, w) = f m.world in
      elim r [
        | returns a ↦ (ok a, record m { world = w })
        | throws e ↦ (raise e, record m { world = w })
      ]

  -- `nuodb_throw_zend_exception`
  abbrev pub throw_zend : Bytes → ℤ → Bytes → Run (Unit {0})
  throw_zend state code msg =
      modify λ m. record m {
        thrown = record { sql_state = state; code = code; message = msg } ∷ m.thrown;
      }

  -- `*H`
  abbrev pub handle : Run DbHandle
  handle m = follow m.driver_data m

  abbrev pub set_handle : DbHandle → Run (Unit {0})
  set_handle h = modify λ m. record m { driver_data = to h }

  -- `*H->db`
  abbrev pub db : Run Handle
  db = do h ← handle; deref h.db

  abbrev pub set_db : Option Handle → Run (Unit {0})
  set_db d = do h ← handle; set_handle (record h { db = d })

  abbrev join : {A : Type 0} → Option (Option A) → Option A
  join none = none
  join (some a) = a

  -- `*stmt`
  abbrev pub load : ℕ → Run Statement
  load p m = deref (join (get_elem? m.heap p)) m

  abbrev pub store : ℕ → Statement → Run (Unit {0})
  store p s = modify λ m. record m { heap = set m.heap p (some s) }

  -- `new` and `delete`
  abbrev pub alloc : Statement → Run ℕ
  alloc s m = (ok (length m.heap), record m { heap = m.heap ++ some s ∷ [] })

  abbrev pub free : ℕ → Run (Unit {0})
  free p = modify λ m. record m { heap = set m.heap p none }
