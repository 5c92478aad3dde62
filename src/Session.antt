-- ===== src/Session.antt =====
-- A statement of PDO on the connection: `pdo_nuodb_stmt` and `nuo_params`
-- (php_pdo/pdo_nuodb/php_pdo_nuodb_c_cpp_common.h), and the fields of PDO's `pdo_stmt_t` that the
-- driver uses. `fetch_buf` and `statement_type` are never used, and have no field.
use nuodb_drivers.Prelude.{ℕ, Bool, Option, List, Bytes}
use nuodb_drivers.Prelude.Outcome.{ℤ, Call, modify}
use nuodb_drivers.Zend.{HashTable}
use nuodb_drivers.Client.{Client}
use nuodb_drivers.Machine.{Pointer, to, follow, Machine, Run}

-- `nuo_param`
pub record Param : Type 0 where
  pub sqltype : ℕ
  pub col_name : Bytes
  pub col_name_length : ℕ
  pub len : ℕ
  pub bytes : Option Bytes

module _ (client : Client) (zend : HashTable) where
  -- `pdo_nuodb_stmt`; `stmt` is the place of the C++ statement on the heap.
  pub record Stmt : Type 0 where
    pub stmt : Option ℕ
    pub sql : Option Bytes
    pub name : Bytes
    pub exhausted : Bool
    pub cursor_open : Bool
    pub named_params : zend.Table
    pub error_code : ℤ
    pub error_msg : Option Bytes
    pub in_params : Option (List Param)
    pub out_params : Option (List Param)

  -- `pdo_stmt_t`
  pub record PdoStmt : Type 0 where
    pub driver_data : Pointer Stmt
    pub executed : Bool
    pub column_count : ℕ
    pub row_count : ℕ
    pub error_code : Bytes

  pub record Session : Type 0 where
    pub machine : Machine client
    pub pdo : PdoStmt

  abbrev pub Act : Type 0 → Type 0
  Act A = Call Session A

  -- A call that only concerns the connection.
  abbrev pub on_machine : {A : Type 0} → Run client A → Act A
  on_machine f x = let (r, m) = f x.machine in (r, record x { machine = m })

  -- `*S`
  abbrev pub current : Act Stmt
  current x = follow x.pdo.driver_data x

  abbrev pub set_pdo : PdoStmt → Act (Unit {0})
  set_pdo p = modify λ x. record x { pdo = p }

  abbrev pub update_pdo : (PdoStmt → PdoStmt) → Act (Unit {0})
  update_pdo f = modify λ x. record x { pdo = f x.pdo }

  abbrev pub set_current : Stmt → Act (Unit {0})
  set_current s = update_pdo λ p. record p { driver_data = to s }
