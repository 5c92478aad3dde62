-- ===== src/Php/Connecting.antt =====
-- What a script gets from `nuodb_connect` and `nuodb_error` (php/nuodb_php.cpp).
use nuodb_drivers.Prelude.{
  ℕ, Option, none, some, ◌≡◌, refl, ap, subst, ◌∙◌, arith, Bytes, bytes_eq_iff,
}
use nuodb_drivers.Prelude.Outcome.{
  Exception, ok, raise, Ends, Ends-continue, Ends-recover, Ends-any, Ends-weaken, ◌>>◌, pure,
}
use nuodb_drivers.Client.{returns, throws}
use nuodb_drivers.Php.Library.{Library}
use nuodb_drivers.Php.Registry.{Conn, Process}
use nuodb_drivers.Php.Results.{free_results, free_all}
use nuodb_drivers.Php.Connections.{
  Target, key_of, text_of, set_error, create_connection, close_and_delete, free_connection,
  open_database, give_up, opened, keep_default, connect_anew, connect,
}
use nuodb_drivers.Php.Query.{error_of, error}
use nuodb_drivers.Php.Invariant.Connections.{open_database-Stays}

module _ (lib : Library) where
  -- An error with no connection to keep it: without a default connection `nuodb_error` returns it,
  -- but with a default connection it is lost, and `nuodb_error` still returns the default
  -- connection's last error.
  error-set_error :
      (err : Bytes) (s : Process lib)
      → (s.tables.default_connection ≡ none
          → (error lib none (set_error lib none err s).1).0 ≡ ok err)
        × ((a : ℕ) (c : Conn lib)
            → s.tables.default_connection ≡ some a
            → s.tables.conns a ≡ some c
            → (error lib none (set_error lib none err s).1).0 ≡ ok c.error)
  unfolding error error_of set_error
  error-set_error err s = (λ e. ground arith, λ a c e f. ground arith)

module _ (lib : Library) (p : Target) where
  -- The connection that is returned is found again.
  abbrev Found : Option ℕ → Process lib → Type 0
  Found none s = Unit
  Found (some a) s = s.tables.conn_map (key_of lib p) ≡ some a

  abbrev Any : Exception → Process lib → Type 0
  Any e s = Unit

  create-Found :
      (s : Process lib)
      → Ends (λ a s'. Found (some a) s') Any (create_connection lib (key_of lib p) s)
  unfolding create_connection
  create-Found s = ground (arith, bytes_eq_iff (key_of lib p) (key_of lib p))

  give_up-Found :
      (a : Option ℕ) (e : Exception) (s : Process lib) → Ends Found Any (give_up lib a e s)
  unfolding give_up
  give_up-Found none e s =
      Ends-continue (λ u s'. Unit) Found Any (λ u. pure none) (set_error lib none (text_of e) s)
        (Ends-any (set_error lib none (text_of e) s)) (λ u s' h. tt)
  give_up-Found (some a) e s =
      Ends-continue (λ u s'. Unit) Found Any (λ u. free_connection lib a >> pure none)
        (set_error lib none (text_of e) s) (Ends-any (set_error lib none (text_of e) s))
        (λ u s' h.
          Ends-continue (λ u s''. Unit) Found Any (λ v. pure none) (free_connection lib a s')
            (Ends-any (free_connection lib a s')) (λ v s'' l. tt))

  opened-Found : (a : ℕ) (s : Process lib) → Found (some a) s → Ends Found Any (opened lib p a s)
  unfolding opened
  opened-Found a s f =
      Ends-recover Found Any Any (give_up lib (some a)) ((open_database lib p a >> pure (some a)) s)
        (Ends-continue (λ u s'. s'.tables ≡ s.tables) Found Any (λ u. pure (some a))
          (open_database lib p a s)
          (Ends-weaken (λ u s'. s'.tables ≡ s.tables) (λ u s'. s'.tables ≡ s.tables)
            (λ e s'. s'.tables ≡ s.tables) Any (open_database lib p a s)
            (open_database-Stays lib none p a s.tables s refl) (λ u s' e. e) (λ e s' h. tt))
          (λ u s' e. ap (λ t. t.conn_map (key_of lib p)) e ∙ f))
        (λ e s' h. give_up-Found (some a) e s')

  keep_default-Found :
      (r : Option ℕ) (s : Process lib) → Found r s → Ends Found Any (keep_default lib r s)
  unfolding keep_default
  keep_default-Found none s f = tt
  keep_default-Found (some a) s f = ground arith

  connect_anew-Found : (s : Process lib) → Ends Found Any (connect_anew lib p s)
  unfolding connect_anew
  connect_anew-Found s =
      Ends-continue Found Found Any _ _
        (Ends-recover Found Any Any (give_up lib none) _
          (Ends-continue (λ a s'. Found (some a) s') Found Any (λ a. pure (some a))
            (create_connection lib (key_of lib p) s) (create-Found s) (λ a s' f. f))
          (λ e s' h. give_up-Found none e s'))
        (elim [
          | none ↦ λ s' f. tt
          | some a ↦ λ s' f.
              Ends-continue Found Found Any (keep_default lib) (opened lib p a s')
                (opened-Found a s' f) keep_default-Found
        ])

  connect-Found : (s : Process lib) → Ends Found Any (connect lib p s)
  unfolding connect
  connect-Found s = ground (arith, connect_anew-Found s)

  -- A script that has connected gets the same connection again when it connects with the same texts at
  -- the same addresses, with no call of the client library, and nothing is changed.
  pub connect-connect :
      (s s' : Process lib) (a : ℕ)
      → connect lib p s ≡ (ok (some a), s')
      → connect lib p s' ≡ (ok (some a), s')
  unfolding connect
  connect-connect s s' a e =
      let f : s'.tables.conn_map (key_of lib p) ≡ some a =
        subst (Ends Found Any) e (connect-Found s) in
      rw f

  -- If a database cannot be opened and the new connection cannot be closed either, the connection
  -- stays in `conn_map`: `nuodb_connect` returns FALSE, but the next call with the same parameters
  -- returns the connection that was never opened, as a success.
  connect_unopened :
      (s s' : Process lib) (e x : Exception) (c : lib.Connection) (w w' : lib.World)
      → s.tables.conn_map (key_of lib p) ≡ none
      → lib.create_connection s.world ≡ (returns c, w)
      → open_database lib p s.tables.next_conn (create_connection lib (key_of lib p) s).1
        ≡ (raise e, s')
      → lib.close_connection c s'.world ≡ (throws x, w')
      → ((connect lib p s).0 ≡ ok none)
        × ((connect lib p (connect lib p s).1).0 ≡ ok (some s.tables.next_conn))
  unfolding connect connect_anew create_connection opened give_up set_error free_connection
      close_and_delete free_results free_all keep_default
  connect_unopened s s' e x c w w' n m o cl =
      let start = (create_connection lib (key_of lib p) s).1 in
      let same : s'.tables ≡ start.tables =
        subst (Ends (λ u t. t.tables ≡ start.tables) (λ y t. t.tables ≡ start.tables)) o
          (open_database-Stays lib none p s.tables.next_conn start.tables start refl) in
      ground (arith, same, bytes_eq_iff (key_of lib p) (key_of lib p))
