-- ===== src/Cpp/Jump/Stmt.antt =====
-- The `extern "C"` functions for a statement. Those for its columns and parameters follow
-- `S->stmt`, and let exceptions of the client library through.
use nuodb_drivers.Prelude.{ℕ, ◌+◌, Bool, true, false, not, none, some, codes}
use nuodb_drivers.Prelude.Outcome.{pos, Exception, sql, unknown, ◌>>=◌, ◌>>◌, pure, deref, catch}
use nuodb_drivers.Zend.{HashTable}
use nuodb_drivers.Client.{Client}
use nuodb_drivers.Machine.{is_null, Run}
use nuodb_drivers.Session.{Act, on_machine, current, set_current, update_pdo}
use nuodb_drivers.Cpp.Statement.{destroy, execute, has_result_set, next}
use nuodb_drivers.Cpp.Statement.Columns

module _ (client : Client) (zend : HashTable) where
  abbrev pub lift : {A : Type 0} → Run client A → Act client zend A
  lift = on_machine client zend

  -- The error of the client library is kept in the statement.
  unfoldable pub keep_error : Exception → Act client zend Bool
  keep_error (sql code text) = do
    s ← current client zend
    set_current client zend (record s { error_code = code; error_msg = some text })
    pure false
  keep_error unknown = do
    s ← current client zend
    set_current client zend
        (record s { error_code = pos 0; error_msg = some (codes "UNKNOWN ERROR") })
    pure false

  destroy_stmt : ℕ → Act client zend Bool
  unfolding destroy
  destroy_stmt p = do
    lift (destroy client p)
    s ← current client zend
    set_current client zend (record s { stmt = none })
    pure true

  -- `pdo_nuodb_stmt_delete`
  unfoldable pub delete_stmt : Act client zend Bool
  unfolding destroy_stmt keep_error
  delete_stmt = do
    s ← current client zend
    elim s.stmt [ none ↦ pure true | some p ↦ catch (destroy_stmt p) keep_error ]

  run_stmt : ℕ → Act client zend (Unit {0})
  unfolding has_result_set Columns.get_column_count
  run_stmt p = do
    lift (execute client p)
    open_ ← lift (has_result_set client p)
    s ← current client zend
    set_current client zend (record s { cursor_open = open_ })
    n ← lift (Columns.get_column_count client p)
    update_pdo client zend (λ q. record q { column_count = n })

  -- Behind the `try` block: no rows are affected yet, and a statement with no cursor has no rows.
  finish_execute : Act client zend Bool
  finish_execute = do
    update_pdo client zend (λ q. record q { row_count = 0 })
    s ← current client zend
    set_current client zend (record s { exhausted = not s.cursor_open })
    pure true

  execute_stmt_at : ℕ → Act client zend Bool
  unfolding run_stmt finish_execute keep_error
  execute_stmt_at p = do
    done ← catch (run_stmt p >> pure true) keep_error
    elim done [ true ↦ finish_execute | false ↦ pure false ]

  -- `pdo_nuodb_stmt_execute`
  unfoldable pub execute_stmt : Act client zend Bool
  unfolding execute_stmt_at
  execute_stmt x = elim (is_null x.machine.driver_data) [
    | true ↦ pure false x
    | false ↦
        (do s ← current client zend; elim s.stmt [ none ↦ pure false | some p ↦ execute_stmt_at p ])
          x
  ]

  fetched : Bool → Act client zend Bool
  fetched true = do
    update_pdo client zend (λ q. record q { row_count = q.row_count + 1 })
    pure true
  fetched false = do
    s ← current client zend
    set_current client zend (record s { exhausted = true })
    pure false

  -- `pdo_nuodb_stmt_fetch`
  unfoldable pub fetch_stmt : Act client zend Bool
  unfolding next fetched
  fetch_stmt = do
    s ← current client zend
    elim s.exhausted [
      | true ↦ pure false
      | false ↦ (do p ← deref s.stmt; more ← lift (next client p); fetched more)
    ]

  -- A call of a method of `*S->stmt`.
  abbrev pub on_stmt : {A : Type 0} → (ℕ → Run client A) → Act client zend A
  on_stmt f = do s ← current client zend; p ← deref s.stmt; lift (f p)
