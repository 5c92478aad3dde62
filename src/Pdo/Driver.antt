-- ===== src/Pdo/Driver.antt =====
-- php_pdo/pdo_nuodb/nuodb_driver.c: the methods of a connection, but for the preparation of a
-- statement (Prepare.antt) and the quoter (Sql/Quote.antt). A result of 1 is `true`.
pub mod Transactions
pub mod AutoCommit
pub mod Closing
pub mod LastId
use nuodb_drivers.Prelude.{
  ℕ, zero, Bool, true, false, xor, Option, none, some, Bytes, codes, if◌then◌else◌,
}
use nuodb_drivers.Prelude.Outcome.{ℤ, pos, negsuc, ◌>>=◌, ◌>>◌, pure, modify}
use nuodb_drivers.Client.{Client}
use nuodb_drivers.Machine.{is_null, dangling, Run, throw_zend, handle, set_handle}
use nuodb_drivers.Cpp.Statement.{hy000}
use nuodb_drivers.Cpp.Handle.{OptionPointers}
use nuodb_drivers.Cpp.Jump
use nuodb_drivers.Cpp.Jump.Doer.{doer}

-- `PDO_ATTR_…`: those that the two `switch` statements name.
pub data Attribute : Type 0 where
  autocommit connection_status client_version server_version server_info : Attribute
  fetch_table_names other : Attribute

-- A value that is handed to PHP.
pub data Value : Type 0 where
  long : ℕ → Value
  string : Bytes → Value
  bool : Bool → Value
  untouched : Value

-- The last id as a text, or NULL for 0. It is an `int` that is handed to `snprintf` for `%lu`, which
-- wants an `unsigned long`: `lu` is the number whose digits the C library then prints.
abbrev pub printed : (ℤ → ℕ) → ℤ → Option ℕ
printed lu (pos zero) = none
printed lu (pos n) = some (lu (pos n))
printed lu (negsuc n) = some (lu (negsuc n))

module _ (client : Client) where
  abbrev pub set_error_code : Bytes → Run client (Unit {0})
  set_error_code code = modify λ m. record m { error_code = code }

  -- `RECORD_ERROR(dbh)`: `_nuodb_error` with no statement. Its text and code are fixed.
  unfoldable pub record_error : Run client (Unit {0})
  record_error = set_error_code hy000 >> throw_zend client hy000 (pos 0) (codes "UKNOWN ERROR")

  -- `_commit_if_auto`
  unfoldable pub commit_if_auto : Run client Bool
  commit_if_auto m =
      (if is_null m.driver_data
          then pure false
          else if m.in_txn
          then (if m.auto_commit
              then Jump.commit client >> pure true
              else Jump.rollback client >> pure false)
          else pure false)
        m

  release : Run client (Unit {0})
  release = modify λ m. record m { driver_data = dangling }

  -- `nuodb_handle_closer`
  unfoldable pub handle_closer : Run client Bool
  unfolding release
  handle_closer m =
      (if is_null m.driver_data
          then record_error >> pure false
          else commit_if_auto
            >> Jump.close_connection client
            >> Jump.delete_handle client
            >> release
            >> pure true)
        m

  -- `nuodb_handle_doer`
  unfoldable pub handle_doer : Bytes → Run client Bool
  handle_doer text m =
      (do
        done ← doer client text m.in_txn m.auto_commit
        if done then pure true else record_error >> pure false)
        m

  -- `nuodb_handle_begin`
  unfoldable pub handle_begin : Run client Bool
  handle_begin = pure true

  -- `nuodb_handle_commit`
  unfoldable pub handle_commit : Run client Bool
  handle_commit = do
    done ← Jump.commit client
    if done then pure true else record_error >> pure false

  -- `nuodb_handle_rollback`
  unfoldable pub handle_rollback : Run client Bool
  handle_rollback = do
    done ← Jump.rollback client
    if done then pure true else record_error >> pure false

  -- `nuodb_handle_last_id`: the number whose digits it returns, or NULL for 0. The outer `none` is
  -- that the fuel ran out.
  unfoldable pub handle_last_id : (ℤ → ℕ) → ℕ → Option Bytes → Run client (Option (Option ℕ))
  unfolding Jump.last_id
  handle_last_id lu fuel name = do
    id ← Jump.last_id client fuel name
    pure (elim id [ none ↦ none | some i ↦ some (printed lu i) ])

  -- `pdo_nuodb_fetch_error_func`, which hands nothing on
  unfoldable pub fetch_error : Run client Bool
  fetch_error = pure true

  fail : Run client Bool
  unfolding record_error
  fail = record_error >> pure false

  abbrev set_auto_commit : Bool → Run client (Unit {0})
  set_auto_commit b = modify λ m. record m { auto_commit = b }

  abbrev set_in_txn : Bool → Run client (Unit {0})
  set_in_txn b = modify λ m. record m { in_txn = b }

  refuse_auto_commit : Run client Bool
  unfolding Jump.set_last_app_error fail
  refuse_auto_commit = do
    Jump.set_last_app_error client
        (codes "Cannot enable auto-commit while a transaction is already open")
    fail

  -- A commit that fails has recorded its error, and another is recorded behind the `switch`.
  end_transaction : Run client Bool
  end_transaction = do
    done ← handle_commit
    if done then (set_in_txn false >> set_auto_commit false >> pure true) else fail

  switch_auto_commit : Bool → Run client Bool
  switch_auto_commit val m =
      (if xor m.auto_commit val
          then (if m.in_txn
              then (if val then refuse_auto_commit else end_transaction)
              else set_auto_commit val >> pure true)
          else pure true)
        m

  -- `nuodb_handle_set_attribute`, with the value as a truth value
  unfoldable pub set_attribute : Attribute → Bool → Run client Bool
  unfolding switch_auto_commit fail refuse_auto_commit end_transaction
  set_attribute autocommit val = switch_auto_commit val
  set_attribute fetch_table_names val = do
    h ← handle client
    set_handle client (record h { fetch_table_names = val })
    pure true
  set_attribute _ val = fail

  abbrev version : Bytes
  version = codes "NuoDB 1.0"

  -- `nuodb_handle_get_attribute`: the result, and what it does to the value
  unfoldable pub get_attribute : Attribute → Run client (Bool × Value)
  unfolding record_error
  get_attribute autocommit m = (pure (true, long (if m.auto_commit then 1 else 0))) m
  get_attribute connection_status m = (pure (true, untouched)) m
  get_attribute client_version m = (pure (true, string version)) m
  get_attribute server_version m = (pure (true, string version)) m
  get_attribute server_info m = (pure (true, string version)) m
  get_attribute fetch_table_names m =
      (do h ← handle client; pure (true, bool h.fetch_table_names)) m
  get_attribute other m = (record_error >> pure (false, untouched)) m

  -- `pdo_nuodb_handle_factory`: the options are what `php_pdo_parse_data_source` found, with the
  -- user and the password of the connection. It returns 1 also if there is no connection.
  unfoldable pub handle_factory : OptionPointers → Run client Bool
  handle_factory options = do
    set_handle client (record { db = none; last_app_error = none; fetch_table_names = false })
    made ← Jump.factory client options
    elim made [
      | true ↦ pure true
      | false ↦
          throw_zend client hy000 (pos 38) (codes "Error constructing a NuoDB handle") >> pure true
    ]
