-- ===== src/Php/Connections.antt =====
-- php/nuodb_php.cpp: connections, which a script gets by their parameters.
use nuodb_drivers.Prelude.{
  ℕ, Bool, true, false, Option, none, some, [], ◌∷◌, ◌++◌, Bytes, codes, ◌==◌, if◌then◌else◌,
}
use nuodb_drivers.Prelude.Outcome.{Exception, sql, unknown, ◌>>=◌, ◌>>◌, pure, catch}
use nuodb_drivers.Php.Library.{Library}
use nuodb_drivers.Php.Registry.{
  Run, call, reads, update, at_key, load_conn, store_conn, new_conn, delete_conn,
}
use nuodb_drivers.Php.Results.{free_results}

-- A `char *` argument: the text and where it stands.
pub record Text : Type 0 where
  pub address : ℕ
  pub bytes : Bytes

-- The arguments of `nuodb_connect`
pub record Target : Type 0 where
  pub database : Text
  pub user : Text
  pub passwd : Text
  pub schema : Text

-- The text of an exception, as both handlers report it
abbrev pub text_of : Exception → Bytes
text_of (sql code text) = text
text_of unknown = codes "Got generic exception"

module _ (lib : Library) where
  open lib use {Properties}

  -- `nuodb_set_error`: with no connection given and a default one, nothing is written.
  unfoldable pub set_error : Option ℕ → Bytes → Run lib (Unit {0})
  set_error none err = do
    d ← reads lib (λ t. t.default_connection)
    elim d [ none ↦ update lib (λ t. record t { default_error = err }) | some a ↦ pure tt ]
  set_error (some a) err = do c ← load_conn lib a; store_conn lib a (record c { error = err })

  -- `nuodb_create_connection`
  unfoldable pub create_connection : Bytes → Run lib ℕ
  create_connection hash = do
    c ← call lib lib.create_connection
    a ← new_conn lib (record { hash = hash; error = []; c = c; autocommit = true; r = [] })
    update lib (λ t. record t { conn_map = at_key lib t.conn_map hash (some a) })
    pure a

  unfoldable pub close_and_delete : ℕ → Run lib (Unit {0})
  unfolding free_results
  close_and_delete a = do
    free_results lib a
    c ← load_conn lib a
    call lib (lib.close_connection c.c)
    update lib (λ t. record t { conn_map = at_key lib t.conn_map c.hash none })
    delete_conn lib a

  -- `nuodb_free_connection`: after an exception the rest is left undone.
  unfoldable pub free_connection : ℕ → Run lib (Unit {0})
  unfolding close_and_delete
  free_connection a = catch (close_and_delete a) (λ e. pure tt)

  -- `conn_hash`
  abbrev pub key_of : Target → Bytes
  key_of p =
      lib.hash_text p.database.address
      ++ (lib.hash_text p.user.address
          ++ (lib.hash_text p.passwd.address ++ lib.hash_text p.schema.address))

  unfoldable pub put_property : Properties → Bytes → Bytes → Run lib (Unit {0})
  put_property q name [] = pure tt
  put_property q name (c ∷ cs) = call lib (lib.put_value q name (c ∷ cs))

  unfoldable pub open_database : Target → ℕ → Run lib (Unit {0})
  unfolding put_property
  open_database p a = do
    c ← load_conn lib a
    q ← call lib (lib.alloc_properties c.c)
    put_property q (codes "user") p.user.bytes
    put_property q (codes "password") p.passwd.bytes
    put_property q (codes "schema") p.schema.bytes
    call lib (lib.open_database c.c p.database.bytes q)

  -- The handlers of `nuodb_connect`, without and with a new connection
  unfoldable pub give_up : Option ℕ → Exception → Run lib (Option ℕ)
  unfolding set_error free_connection
  give_up none e = do set_error none (text_of e); pure none
  give_up (some a) e = do set_error none (text_of e); free_connection a; pure none

  unfoldable pub opened : Target → ℕ → Run lib (Option ℕ)
  unfolding open_database give_up
  opened p a = catch (open_database p a >> pure (some a)) (give_up (some a))

  -- The first connection of a request becomes the default.
  unfoldable pub keep_default : Option ℕ → Run lib (Option ℕ)
  keep_default none = pure none
  keep_default (some a) = do
    d ← reads lib (λ t. t.default_connection)
    elim d [ none ↦ update lib (λ t. record t { default_connection = some a }) | some b ↦ pure tt ]
    pure (some a)

  unfoldable pub connect_anew : Target → Run lib (Option ℕ)
  unfolding create_connection give_up opened keep_default
  connect_anew p = do
    made ← catch (create_connection (key_of p) >>= λ a. pure (some a)) (give_up none)
    a ← elim made [ none ↦ pure none | some a ↦ opened p a ]
    keep_default a

  -- `nuodb_connect`: the resource, or `none` for FALSE
  unfoldable pub connect : Target → Run lib (Option ℕ)
  unfolding connect_anew
  connect p = do
    found ← reads lib (λ t. t.conn_map (key_of p))
    elim found [ some a ↦ pure (some a) | none ↦ connect_anew p ]

  abbrev is : ℕ → Option ℕ → Bool
  is a none = false
  is a (some d) = a == d

  -- `nuodb_disconnect`
  unfoldable pub disconnect : ℕ → Run lib (Unit {0})
  unfolding free_connection
  disconnect a = do
    d ← reads lib (λ t. t.default_connection)
    if is a d then update lib (λ t. record t { default_connection = none }) else pure tt
    free_connection a
