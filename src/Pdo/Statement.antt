-- ===== src/Pdo/Statement.antt =====
-- php_pdo/pdo_nuodb/nuodb_statement.c: the methods of a statement, but for those of its columns
-- (Statement/Columns.antt) and its parameters (Statement/Hook.antt). A result of 1 is `true`.
pub mod Columns
pub mod Hook
pub mod Cursor
pub mod Execute
pub mod Lifetime
pub mod Binding
pub mod Types
use nuodb_drivers.Prelude.{
  ℕ, zero, suc, ◌+◌, Bool, true, false, not, ◌||◌, Option, none, some, List, [], ◌∷◌, Bytes, codes,
  if◌then◌else◌,
}
use nuodb_drivers.Prelude.Outcome.{ℤ, pos, ◌>>=◌, ◌>>◌, pure, crash}
use nuodb_drivers.Zend.{HashTable}
use nuodb_drivers.Client.{Client}
use nuodb_drivers.Machine.{Pointer, null, to, dangling, is_null, follow, Machine, Run, throw_zend}
use nuodb_drivers.Session.{
  PdoStmt, Stmt, Session, Act, on_machine, current, set_current, update_pdo,
}
use nuodb_drivers.Cpp.Statement.{hy000}
use nuodb_drivers.Cpp.Jump
use nuodb_drivers.Cpp.Jump.Stmt.{delete_stmt, execute_stmt, fetch_stmt}

module _ (client : Client) (zend : HashTable) where
  abbrev pub set_error_code : Bytes → Act client zend (Unit {0})
  set_error_code code = update_pdo client zend (λ q. record q { error_code = code })

  -- The code and the text that `_nuodb_error` reports.
  abbrev reported : Option Bytes → Bytes
  reported none = codes "UKNOWN ERROR"
  reported (some msg) = msg

  -- `RECORD_ERROR(stmt)`: `_nuodb_error` with a statement
  unfoldable pub record_error : Act client zend (Unit {0})
  record_error = do
    s ← current client zend
    set_error_code hy000
    on_machine client zend (throw_zend client hy000 s.error_code (reported s.error_msg))

  -- `nuodb_stmt_dtor`: the C++ statement is deleted, then what `S` owns, then `S`.
  unfoldable pub stmt_dtor : Act client zend Bool
  unfolding delete_stmt
  stmt_dtor = do
    delete_stmt client zend
    update_pdo client zend (λ q. record q { driver_data = dangling })
    pure true

  executed : Bool → Act client zend Bool
  unfolding record_error
  executed true = pure true
  executed false = record_error >> pure false

  -- `nuodb_stmt_execute`
  unfoldable pub stmt_execute : Act client zend Bool
  unfolding execute_stmt executed
  stmt_execute x = elim (is_null x.pdo.driver_data) [
    | true ↦ pure false x
    | false ↦ (do status ← execute_stmt client zend; executed status) x
  ]

  closed_cursor : Act client zend Bool
  unfolding Jump.set_last_app_error
  closed_cursor = do
    set_error_code hy000
    on_machine client zend
        (Jump.set_last_app_error client (codes "Cannot fetch from a closed cursor"))
    pure false

  -- `nuodb_stmt_fetch`
  unfoldable pub stmt_fetch : Act client zend Bool
  unfolding fetch_stmt closed_cursor
  stmt_fetch x = elim x.pdo.executed [ true ↦ fetch_stmt client zend x | false ↦ closed_cursor x ]

  -- `strlcpy(S->name, value, sizeof(S->name))` keeps 31 bytes at most.
  abbrev take : ℕ → Bytes → Bytes
  take zero cs = []
  take (suc n) [] = []
  take (suc n) (c ∷ cs) = c ∷ take n cs

  -- `nuodb_stmt_set_attribute`; the flag is that the attribute is `PDO_ATTR_CURSOR_NAME`.
  unfoldable pub stmt_set_attribute : Bool → Bytes → Act client zend Bool
  stmt_set_attribute false value = pure false
  stmt_set_attribute true value = do
    s ← current client zend
    set_current client zend (record s { name = take 31 value })
    pure true

  abbrev name_value : Bytes → Option Bytes
  name_value [] = none
  name_value (c ∷ cs) = some (c ∷ cs)

  -- `nuodb_stmt_get_attribute`: the result, and the value, which may be NULL
  unfoldable pub stmt_get_attribute : Bool → Act client zend (Bool × Option Bytes)
  stmt_get_attribute false = pure (false, none)
  stmt_get_attribute true = do s ← current client zend; pure (true, name_value s.name)

  abbrev has_name : Bytes → Bool
  has_name [] = false
  has_name (c ∷ cs) = true

  -- `nuodb_stmt_cursor_closer`: a named or open statement is deleted, not only its cursor.
  unfoldable pub stmt_cursor_closer : Act client zend Bool
  unfolding delete_stmt
  stmt_cursor_closer = do
    s ← current client zend
    elim (has_name s.name || s.cursor_open) [ true ↦ delete_stmt client zend | false ↦ pure true ]
    s' ← current client zend
    set_current client zend (record s' { name = []; cursor_open = false })
    pure true
