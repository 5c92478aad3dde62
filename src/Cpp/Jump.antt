-- ===== src/Cpp/Jump.antt =====
-- The `extern "C"` functions through which the C side calls the classes. Those for the connection
-- stand here, those for a statement in Jump/Stmt.antt. A status of 1 is `true`.
pub mod Stmt
pub mod Columns
pub mod Doer
use nuodb_drivers.Prelude.{ℕ, Bool, true, false, Option, none, some, Bytes, codes, if◌then◌else◌}
use nuodb_drivers.Prelude.Outcome.{
  ℤ, pos, Exception, sql, unknown, Call, ◌>>=◌, ◌>>◌, pure, catch, modify,
}
use nuodb_drivers.Client.{Client}
use nuodb_drivers.Machine.{
  Pointer, null, to, dangling, Machine, Handle, DbHandle, Run, handle, set_handle, set_db, is_null,
}
use nuodb_drivers.Cpp.Statement.{execute}
use nuodb_drivers.Cpp.Handle.{
  OptionPointers, construct, new_statement_for, create_connection, get_last_id,
}
use nuodb_drivers.Cpp.Handle

module _ (client : Client) where
  -- 1, or 0 if the call throws
  abbrev pub status : Run client (Unit {0}) → Run client Bool
  status f = catch (f >> pure true) (λ e. pure false)

  unfoldable pub commit : Run client Bool
  unfolding Handle.commit
  commit = status (Handle.commit client)

  unfoldable pub rollback : Run client Bool
  unfolding Handle.rollback
  rollback = status (Handle.rollback client)

  unfoldable pub close_connection : Run client Bool
  unfolding Handle.close_connection
  close_connection = status (Handle.close_connection client)

  -- `delete` of a NULL pointer does nothing.
  unfoldable pub delete_handle : Run client Bool
  unfolding Handle.destroy
  delete_handle = do
    h ← handle client
    elim h.db [ none ↦ pure true | some d ↦ status (Handle.destroy client) ]

  in_transaction : Bool → Run client Bool
  unfolding commit rollback
  in_transaction true = do commit; pure true
  in_transaction false = do rollback; pure false

  -- What it returns is whether it called `commit`, also if that failed.
  unfoldable pub commit_if_auto : Bool → Bool → Run client Bool
  unfolding in_transaction
  commit_if_auto in_txn auto_commit m =
      (if is_null m.driver_data
          then pure false
          else if in_txn
          then in_transaction auto_commit
          else pure false)
        m

  unfoldable pub create_statement : Option Bytes → Run client (Option ℕ)
  unfolding new_statement_for
  create_statement text = catch (new_statement_for client text) (λ e. pure none)

  unfoldable pub set_last_app_error : Bytes → Run client (Unit {0})
  set_last_app_error msg = do
    h ← handle client
    set_handle client (record h { last_app_error = some msg })

  -- `H->db` is set before the connection is made.
  unfoldable pub factory : OptionPointers → Run client Bool
  unfolding construct create_connection
  factory options =
      status (do d ← construct client options; set_db client (some d); create_connection client)

  unfoldable pub last_id : ℕ → Option Bytes → Run client (Option ℤ)
  unfolding get_last_id
  last_id fuel name = do
    h ← handle client
    elim h.db [ none ↦ pure (some (pos 0)) | some d ↦ get_last_id client fuel name ]
