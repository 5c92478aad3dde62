-- ===== src/Cpp/Jump/Doer.antt =====
-- `pdo_nuodb_db_handle_doer`: a statement that PDO executes at once.
use nuodb_drivers.Prelude.{Bool, true, false, some, Bytes, codes}
use nuodb_drivers.Prelude.Outcome.{Exception, sql, unknown, ◌>>=◌, ◌>>◌, pure, deref, catch, modify}
use nuodb_drivers.Client.{Client}
use nuodb_drivers.Machine.{Run}
use nuodb_drivers.Cpp.Statement.{execute}
use nuodb_drivers.Cpp.Jump.{create_statement, commit_if_auto, set_last_app_error}

module _ (client : Client) where
  -- The callback `pdo_dbh_t_set_in_txn`.
  abbrev pub set_in_txn : Bool → Run client (Unit {0})
  set_in_txn b = modify λ m. record m { in_txn = b }

  -- The block under `try`. The statement is not deleted.
  unfoldable pub do_statement : Bytes → Bool → Bool → Run client Bool
  unfolding create_statement execute commit_if_auto
  do_statement text in_txn auto_commit = do
    stmt ← create_statement client (some text)
    set_in_txn true
    p ← deref stmt
    execute client p
    commit_if_auto client in_txn auto_commit
    pure true

  unfoldable pub report_failure : Bool → Exception → Run client Bool
  unfolding set_last_app_error
  report_failure in_txn (sql code text) =
      set_last_app_error client text >> set_in_txn in_txn >> pure false
  report_failure in_txn unknown =
      set_last_app_error client (codes "UNKNOWN ERROR in pdo_nuodb_db_handle_doer()")
      >> set_in_txn in_txn
      >> pure false

  -- `true` is the result 1, `false` is -1.
  unfoldable pub doer : Bytes → Bool → Bool → Run client Bool
  doer text in_txn auto_commit =
      catch (do_statement text in_txn auto_commit >> set_in_txn in_txn >> pure true)
        (report_failure in_txn)
