-- ===== src/Dbi/Connection.antt =====
-- perl_dbi/dbdimp.cpp: the functions of a connection. FALSE is `false`, a NULL pointer `none`.
use nuodb_drivers.Prelude.{Bool, true, false, Option, none, some, Bytes, codes, bytes_eq}
use nuodb_drivers.Prelude.Outcome.{ℤ, negsuc, ◌>>=◌, ◌>>◌, pure}
use nuodb_drivers.Dbi.Library.{Library}
use nuodb_drivers.Dbi.Handles.{Run, call, reads, set_dbh, do_error, catch_sql, failing}

-- The attributes that DBI::NuoDB::connect stashes: a reference to a hash, with its `schema`, or
-- something else
pub data Attributes : Type 0 where
  no_hash : Attributes
  hash : Option Bytes → Attributes

module _ (lib : Library) where
  open lib use {Connection, Properties}

  -- A value that is set is put.
  unfoldable pub put_property : Properties → Bytes → Option Bytes → Run lib (Unit {0})
  put_property q name none = pure tt
  put_property q name (some v) = call lib (lib.put_value q name v)

  unfoldable pub open_connection : Connection → Bytes → Properties → Run lib Bool
  open_connection conn dbname q = do
    call lib (lib.open_database conn dbname q)
    set_dbh lib (λ d. record d { conn = some conn; active = true; impset = true })
    pure true

  unfoldable pub abandon : Connection → ℤ → Bytes → Run lib Bool
  unfolding do_error
  abandon conn code text = do
    do_error lib code text
    call lib (lib.close_connection conn)
    set_dbh lib (λ d. record d { conn = none })
    pure false

  unfoldable pub login_on :
      Option Connection → Bytes → Option Bytes → Option Bytes → Option Bytes → Run lib Bool
  unfolding put_property open_connection abandon
  login_on none dbname uid pwd schema = pure false
  login_on (some conn) dbname uid pwd schema = do
    q ← call lib (lib.alloc_properties conn)
    put_property q (codes "user") uid
    put_property q (codes "password") pwd
    put_property q (codes "schema") schema
    catch_sql lib (open_connection conn dbname q) (abandon conn)

  -- `dbd_db_login6_sv`
  unfoldable pub login : Bytes → Option Bytes → Option Bytes → Attributes → Run lib Bool
  unfolding login_on
  login dbname uid pwd no_hash = pure false
  login dbname uid pwd (hash schema) = do
    conn ← call lib lib.create_connection
    login_on conn dbname uid pwd schema

  -- The test at the head of many functions, with what they return without a connection
  abbrev pub with_connection : {A : Type 0} → A → (Connection → Run lib A) → Run lib A
  with_connection a f = do
    conn ← reads lib (λ s. s.dbh.conn)
    elim conn [
      | none ↦ failing lib a (negsuc 0) (codes "Connection is not available.")
      | some c ↦ f c
    ]

  -- `dbd_db_commit`
  unfoldable pub commit : Run lib Bool
  unfolding failing
  commit =
      with_connection false
        (λ c. catch_sql lib (call lib (lib.commit c) >> pure true) (failing lib false))

  -- `dbd_db_rollback`
  unfoldable pub rollback : Run lib Bool
  unfolding failing
  rollback =
      with_connection false
        (λ c. catch_sql lib (call lib (lib.rollback c) >> pure true) (failing lib false))

  -- `dbd_db_FETCH_attrib`
  unfoldable pub fetch_attrib : Bytes → Run lib (Option Bool)
  fetch_attrib key = elim (bytes_eq key (codes "AutoCommit")) [
    | true ↦ reads lib (λ s. some s.dbh.auto_commit)
    | false ↦ pure none
  ]

  -- `AutoCommit` with a truth value: the result, and what `valuesv` is set to
  unfoldable pub store_auto_commit : Bool → Run lib (Bool × Option ℤ)
  unfolding failing
  store_auto_commit value =
      with_connection (false, some (negsuc 899))
        (λ c.
          catch_sql lib
            (do
              call lib (lib.set_auto_commit c value)
              set_dbh lib (λ d. record d { auto_commit = value })
              pure (true, none))
            (failing lib (false, none)))

  -- `dbd_db_STORE_attrib`
  unfoldable pub store_attrib : Bytes → Bool → Run lib (Bool × Option ℤ)
  unfolding store_auto_commit
  store_attrib key value = elim (bytes_eq key (codes "AutoCommit")) [
    | true ↦ store_auto_commit value
    | false ↦ pure (false, none)
  ]

  -- `dbd_db_disconnect`
  unfoldable pub disconnect : Run lib Bool
  unfolding failing
  disconnect = do
    conn ← reads lib (λ s. s.dbh.conn)
    elim conn [
      | none ↦ pure false
      | some c ↦
          catch_sql lib
            (do
              call lib (lib.close_connection c)
              set_dbh lib (λ d. record d { conn = none })
              pure true)
            (failing lib false)
    ]

  -- `dbd_db_destroy`
  unfoldable pub destroy_db : Run lib (Unit {0})
  destroy_db = set_dbh lib (λ d. record d { conn = none; impset = false })

  -- `dbd_db_version`
  unfoldable pub version : Run lib (Option Bytes)
  unfolding failing
  version = do
    conn ← reads lib (λ s. s.dbh.conn)
    elim conn [
      | none ↦ failing lib none (negsuc 0) (codes "Database not connected.")
      | some c ↦
          catch_sql lib (do v ← call lib (lib.product_version c); pure (some v)) (failing lib none)
    ]
