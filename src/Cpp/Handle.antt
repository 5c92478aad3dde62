-- ===== src/Cpp/Handle.antt =====
-- The class `PdoNuoDbHandle`: the connection, its options and the last statement. `H->db` is the
-- one object of this class.
use nuodb_drivers.Prelude.{ℕ, Option, none, some, Bytes, codes}
use nuodb_drivers.Prelude.Outcome.{ℤ, pos, ◌>>=◌, ◌>>◌, pure, deref, catch, throw}
use nuodb_drivers.Client.{Client}
use nuodb_drivers.Machine.{Handle, Run, call, db, set_db}
use nuodb_drivers.Cpp.Statement.{create, create_statement, get_generated_key_last_id}

-- The options as they are passed in: the pointers of `SqlOptionArray`, which may be NULL.
pub record OptionPointers : Type 0 where
  pub database : Option Bytes
  pub user : Option Bytes
  pub password : Option Bytes
  pub schema : Option Bytes

module _ (client : Client) where
  unfoldable pub delete_options : Handle client → Handle client
  delete_options h = record h { opts = none }

  -- `strdup` of a NULL pointer is undefined.
  unfoldable pub set_options : Handle client → OptionPointers → Run client (Handle client)
  unfolding delete_options
  set_options h o = do
    database ← deref o.database
    user ← deref o.user
    password ← deref o.password
    schema ← deref o.schema
    pure (record (delete_options h) {
      opts =
          some (record { database = database; user = user; password = password; schema = schema });
    })

  -- `PdoNuoDbHandle(SqlOptionArray *)`
  unfoldable pub construct : OptionPointers → Run client (Handle client)
  unfolding set_options
  construct o = set_options (record { con = none; opts = none; last_stmt = none }) o

  -- If `close` throws, `_con` stays.
  unfoldable pub close_connection : Run client (Unit {0})
  close_connection = do
    h ← db client
    elim h.con [
      | none ↦ pure tt
      | some con ↦
          call client (client.close_connection con)
          >> set_db client (some (record h { con = none }))
    ]

  unfoldable pub create_connection : Run client (Unit {0})
  unfolding close_connection
  create_connection = do
    close_connection
    h ← db client
    o ← deref h.opts
    con ← call client (client.create o.database o.user o.password (codes "schema") o.schema)
    set_db client (some (record h { con = some con }))

  -- The destructor, and the release of the memory.
  unfoldable pub destroy : Run client (Unit {0})
  unfolding close_connection
  destroy = do catch close_connection (λ e. set_db client none >> throw e); set_db client none

  new_statement : Bytes → Run client (Option ℕ)
  new_statement text = do
    p ← create client
    create_statement client p (some text)
    h ← db client
    set_db client (some (record h { last_stmt = some p }))
    pure (some p)

  unfoldable pub new_statement_for : Option Bytes → Run client (Option ℕ)
  unfolding new_statement
  new_statement_for none = pure none
  new_statement_for (some text) = new_statement text

  on_connection : (client.Connection → Run client (Unit {0})) → Run client (Unit {0})
  on_connection f = do h ← db client; elim h.con [ none ↦ pure tt | some con ↦ f con ]

  unfoldable pub commit : Run client (Unit {0})
  unfolding on_connection
  commit = on_connection (λ con. call client (client.commit con))

  unfoldable pub rollback : Run client (Unit {0})
  unfolding on_connection
  rollback = on_connection (λ con. call client (client.rollback con))

  -- `getLastId`; `none` is that the fuel for the rows ran out.
  unfoldable pub get_last_id : ℕ → Option Bytes → Run client (Option ℤ)
  get_last_id fuel name = do
    h ← db client
    elim h.last_stmt [
      | none ↦ pure (some (pos 0))
      | some p ↦ get_generated_key_last_id client fuel p name
    ]
