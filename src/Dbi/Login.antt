-- ===== src/Dbi/Login.antt =====
-- What `dbd_db_login6_sv` (perl_dbi/dbdimp.cpp) leaves behind.
use nuodb_drivers.Prelude.{
  true, false, Option, none, some, ◌≡◌, ◌≢◌, refl, ap, arith, Bytes, Bool, codes, ◌⊎◌, inl, inr,
}
use nuodb_drivers.Prelude.Outcome.{
  ℤ, Exception, sql, unknown, Ends, Ends-continue, Ends-recover, Ends-weaken, Keeping, Defined,
  Defined-bind, Outcome, ok, raise, fault, ◌>>=◌,
}
use nuodb_drivers.Client.{Attempt, returns, throws}
use nuodb_drivers.Dbi.Library.{Library}
use nuodb_drivers.Dbi.Handles.{Dbh, State, call, catch_sql, do_error, only_sql}
use nuodb_drivers.Dbi.Connection.{
  Attributes, no_hash, hash, put_property, open_connection, abandon, login_on, login,
}

module _ (lib : Library) where
  -- A call of the client library leaves the handle alone.
  call-Same :
      {A : Type 0} (d : Dbh lib) (f : lib.World → Attempt A × lib.World)
      → Keeping (λ s. s.dbh ≡ d) (call lib f)
  call-Same d f s e = ground arith

  put_property-Same :
      (d : Dbh lib) (q : lib.Properties) (name : Bytes) (v : Option Bytes)
      → Keeping (λ s. s.dbh ≡ d) (put_property lib q name v)
  unfolding put_property
  put_property-Same d q name none = λ s e. e
  put_property-Same d q name (some v) = call-Same d (lib.put_value q name v)

  -- The answer of a login with the connection `conn` and the handle behind it, for the handle `d` before
  -- it
  abbrev Logged : Dbh lib → lib.Connection → Bool → State lib → Type 0
  Logged d conn true s = s.dbh ≡ record d { conn = some conn; active = true; impset = true }
  Logged d conn false s =
      (s.dbh ≡ d) ⊎ ((e : ℤ × Bytes) × (s.dbh ≡ record d { conn = none; error = some e }))

  -- The answer of a login in the state `s`, whose connection is the one that the client library then
  -- creates
  abbrev pub Answered : State lib → Bool → State lib → Type 0
  Answered s true s' =
      (conn : lib.Connection) × (w : lib.World) × (lib.create_connection s.world
        ≡ (returns (some conn), w))
      × Logged s.dbh conn true s'
  Answered s false s' =
      (s'.dbh ≡ s.dbh)
      ⊎ ((e : ℤ × Bytes) × (s'.dbh ≡ record (s.dbh) { conn = none; error = some e }))

  -- After an exception that gets through, no connection has been handed out.
  abbrev pub Gone : Dbh lib → Exception → State lib → Type 0
  Gone d x s = (e : Option (ℤ × Bytes)) × (s.dbh ≡ record d { error = e })

  abandon-Ends :
      (d : Dbh lib) (conn : lib.Connection) (code : ℤ) (text : Bytes) (s : State lib)
      → s.dbh ≡ d
      → Ends (Logged d conn) (Gone d) (abandon lib conn code text s)
  unfolding abandon do_error
  abandon-Ends d conn code text s e =
      Ends-continue (λ u s'. s'.dbh ≡ record d { error = some (code, text) }) (Logged d conn)
        (Gone d) _
        (call lib (lib.close_connection conn)
          (record s { dbh = record (s.dbh) { error = some (code, text) } }))
        (Ends-weaken (λ u s'. s'.dbh ≡ record d { error = some (code, text) })
          (λ u s'. s'.dbh ≡ record d { error = some (code, text) })
          (λ x s'. s'.dbh ≡ record d { error = some (code, text) }) (Gone d) _
          (call-Same (record d { error = some (code, text) }) (lib.close_connection conn) _
            (ap {A = Dbh lib} (λ x. record x { error = some (code, text) }) e))
          (λ u s' h. h) (λ x s' h. (some (code, text), h)))
        (λ u s' h. inr ((code, text), ap {A = Dbh lib} (λ x. record x { conn = none }) h))

  open_connection-Ends :
      (d : Dbh lib) (conn : lib.Connection) (dbname : Bytes) (q : lib.Properties) (s : State lib)
      → s.dbh ≡ d
      → Ends (Logged d conn) (λ x s'. s'.dbh ≡ d) (open_connection lib conn dbname q s)
  unfolding open_connection
  open_connection-Ends d conn dbname q s e =
      Ends-continue (λ u s'. s'.dbh ≡ d) (Logged d conn) (λ x s'. s'.dbh ≡ d) _
        (call lib (lib.open_database conn dbname q) s)
        (call-Same d (lib.open_database conn dbname q) s e)
        (λ u s' h.
          ap {A = Dbh lib} (λ x. record x { conn = some conn; active = true; impset = true }) h)

  -- The block under `try` and its handler
  opening-Ends :
      (d : Dbh lib) (conn : lib.Connection) (dbname : Bytes) (q : lib.Properties) (s : State lib)
      → s.dbh ≡ d
      → Ends
          (Logged d conn)
          (Gone d)
          (catch_sql lib (open_connection lib conn dbname q) (abandon lib conn) s)
  opening-Ends d conn dbname q s e =
      Ends-recover (Logged d conn) (λ x s'. s'.dbh ≡ d) (Gone d) (only_sql lib (abandon lib conn)) _
        (open_connection-Ends d conn dbname q s e)
        (elim [
          | sql code text ↦ λ s' h. abandon-Ends d conn code text s' h
          | unknown ↦ λ s' h. (d.error, h)
        ])

  step-Ends :
      {A : Type 0} (d : Dbh lib) (conn : lib.Connection) (m : State lib → Outcome A × State lib)
      (f : A → State lib → Outcome Bool × State lib)
      → Keeping (λ s. s.dbh ≡ d) m
      → ((a : A) (s : State lib) → s.dbh ≡ d → Ends (Logged d conn) (Gone d) (f a s))
      → (s : State lib) → s.dbh ≡ d
      → Ends (Logged d conn) (Gone d) ((m >>= f) s)
  step-Ends d conn m f h k s e =
      Ends-continue (λ u s'. s'.dbh ≡ d) (Logged d conn) (Gone d) f (m s)
        (Ends-weaken (λ u s'. s'.dbh ≡ d) (λ u s'. s'.dbh ≡ d) (λ x s'. s'.dbh ≡ d) (Gone d) (m s)
          (h s e) (λ u s' g. g) (λ x s' g. (d.error, g)))
        k

  login_on-Logged :
      (conn : lib.Connection) (dbname : Bytes) (uid pwd schema : Option Bytes) (d : Dbh lib)
      (s : State lib)
      → s.dbh ≡ d
      → Ends (Logged d conn) (Gone d) (login_on lib (some conn) dbname uid pwd schema s)
  unfolding login_on
  login_on-Logged conn dbname uid pwd schema d =
      step-Ends d conn _ _ (call-Same d (lib.alloc_properties conn)) (λ q.
        step-Ends d conn _ _ (put_property-Same d q (codes "user") uid) (λ u.
          step-Ends d conn _ _ (put_property-Same d q (codes "password") pwd) (λ v.
            step-Ends d conn _ _ (put_property-Same d q (codes "schema") schema)
              (λ w. opening-Ends d conn dbname q))))

  Logged-Answered :
      (s s' : State lib) (conn : lib.Connection) (w : lib.World)
      → lib.create_connection s.world ≡ (returns (some conn), w)
      → (b : Bool) → Logged s.dbh conn b s'
      → Answered s b s'
  Logged-Answered s s' conn w g true h = (conn, w, g, h)
  Logged-Answered s s' conn w g false h = h

  login_on-Ends :
      (conn : Option lib.Connection) (dbname : Bytes) (uid pwd schema : Option Bytes)
      (s t : State lib)
      → lib.create_connection s.world ≡ (returns conn, t.world)
      → t.dbh ≡ s.dbh
      → Ends (Answered s) (Gone s.dbh) (login_on lib conn dbname uid pwd schema t)
  unfolding login_on
  login_on-Ends none dbname uid pwd schema s t g = λ e. inl e
  login_on-Ends (some conn) dbname uid pwd schema s t g = λ e.
      Ends-weaken (Logged s.dbh conn) (Answered s) (Gone s.dbh) (Gone s.dbh)
        (login_on lib (some conn) dbname uid pwd schema t)
        (login_on-Logged conn dbname uid pwd schema s.dbh t e)
        (λ b s' h. Logged-Answered s s' conn t.world g b h) (λ x s' h. h)

  -- What a call of the client library answers is what it is asked for.
  abbrev Created : State lib → Option lib.Connection → State lib → Type 0
  Created s a t = (lib.create_connection s.world ≡ (returns a, t.world)) × (t.dbh ≡ s.dbh)

  create-Ends : (s : State lib) → Ends (Created s) (Gone s.dbh) (call lib lib.create_connection s)
  create-Ends s = go (lib.create_connection s.world) refl
    where
      go :
          (r : Attempt (Option lib.Connection) × lib.World)
          → lib.create_connection s.world ≡ r
          → Ends (Created s) (Gone s.dbh) (elim r.0 [
            | returns a ↦ (ok a, record s { world = r.1 })
            | throws e ↦ (raise e, record s { world = r.1 })
          ])
      go (returns a, w) e = (e, refl)
      go (throws x, w) e = (s.dbh.error, refl)

  call-Defined : {A : Type 0} (f : lib.World → Attempt A × lib.World) → Defined (call lib f)
  call-Defined f s e = ground arith

  put_property-Defined :
      (q : lib.Properties) (name : Bytes) (v : Option Bytes) → Defined (put_property lib q name v)
  unfolding put_property
  put_property-Defined q name none = λ s e. cc
  put_property-Defined q name (some v) = call-Defined (lib.put_value q name v)

  opening-Defined :
      (conn : lib.Connection) (dbname : Bytes) (q : lib.Properties)
      → Defined (catch_sql lib (open_connection lib conn dbname q) (abandon lib conn))
  unfolding open_connection abandon do_error
  opening-Defined conn dbname q s e = ground arith

  login_on-Defined :
      (conn : Option lib.Connection) (dbname : Bytes) (uid pwd schema : Option Bytes)
      → Defined (login_on lib conn dbname uid pwd schema)
  unfolding login_on
  login_on-Defined none dbname uid pwd schema = λ s e. cc
  login_on-Defined (some conn) dbname uid pwd schema =
      Defined-bind _ _ (call-Defined (lib.alloc_properties conn)) (λ q.
        Defined-bind _ _ (put_property-Defined q (codes "user") uid) (λ u.
          Defined-bind _ _ (put_property-Defined q (codes "password") pwd) (λ v.
            Defined-bind _ _ (put_property-Defined q (codes "schema") schema)
              (λ w. opening-Defined conn dbname q))))

  -- Whatever the client library does, a login ends without undefined behaviour. It returns TRUE
  -- only with the connection that the client library creates at this call in the handle and both
  -- flags on, and FALSE either with the handle
  -- as it was or with no connection in it, an error and the flags as they were. An exception that
  -- gets through leaves the connection and the flags as they were.
  pub login-Ends :
      (dbname : Bytes) (uid pwd : Option Bytes) (attr : Attributes) (s : State lib)
      → Ends (Answered s) (Gone s.dbh) (login lib dbname uid pwd attr s)
        × ((login lib dbname uid pwd attr s).0 ≢ fault)
  unfolding login
  login-Ends dbname uid pwd no_hash s = (inl refl, λ e. cc)
  login-Ends dbname uid pwd (hash schema) s = (
    Ends-continue (Created s) (Answered s) (Gone s.dbh) _ (call lib lib.create_connection s)
        (create-Ends s) (λ conn t h. login_on-Ends conn dbname uid pwd schema s t h.0 h.1),
    Defined-bind (call lib lib.create_connection) _ (call-Defined lib.create_connection)
        (λ conn. login_on-Defined conn dbname uid pwd schema) s,
  )
