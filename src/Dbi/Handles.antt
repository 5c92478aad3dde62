-- ===== src/Dbi/Handles.antt =====
-- The state of a connection and of a statement on it: `imp_dbh_t` and `imp_sth_t`
-- (perl_dbi/dbdimp.h), with the fields and flags of DBI that the driver uses. DBI lets a statement
-- share the error variables of its connection, so there is one error.
use nuodb_drivers.Prelude.{ℕ, Bool, Option, some, Bytes}
use nuodb_drivers.Prelude.Outcome.{
  ℤ, Exception, sql, unknown, ok, raise, Call, ◌>>◌, pure, throw, catch, modify,
}
use nuodb_drivers.Client.{Attempt, returns, throws}
use nuodb_drivers.Dbi.Library.{Library}

module _ (lib : Library) where
  open lib use {World, Connection, Statement, ResultSet}

  -- `imp_dbh_t`; `error` is `DBIc_ERR` and `DBIc_ERRSTR`.
  pub record Dbh : Type 0 where
    pub conn : Option Connection
    pub active : Bool
    pub impset : Bool
    pub auto_commit : Bool
    pub error : Option (ℤ × Bytes)

  -- `imp_sth_t`
  pub record Sth : Type 0 where
    pub pstmt : Option Statement
    pub rs : Option ResultSet
    pub num_params : ℕ
    pub num_fields : ℕ
    pub active : Bool
    pub impset : Bool

  pub record State : Type 0 where
    pub dbh : Dbh
    pub sth : Sth
    pub world : World

  abbrev pub Run : Type 0 → Type 0
  Run A = Call State A

  -- A call of the client library.
  abbrev pub call : {A : Type 0} → (World → Attempt A × World) → Run A
  call f s =
      let (r, w) = f s.world in
      elim r [
        | returns a ↦ (ok a, record s { world = w })
        | throws e ↦ (raise e, record s { world = w })
      ]

  abbrev pub reads : {A : Type 0} → (State → A) → Run A
  reads f s = (ok (f s), s)

  abbrev pub set_dbh : (Dbh → Dbh) → Run (Unit {0})
  set_dbh f = modify λ s. record s { dbh = f s.dbh }

  abbrev pub set_sth : (Sth → Sth) → Run (Unit {0})
  set_sth f = modify λ s. record s { sth = f s.sth }

  -- `do_error`
  unfoldable pub do_error : ℤ → Bytes → Run (Unit {0})
  do_error rc what = set_dbh (λ d. record d { error = some (rc, what) })

  abbrev pub only_sql : {A : Type 0} → (ℤ → Bytes → Run A) → Exception → Run A
  only_sql handler (sql code text) = handler code text
  only_sql handler unknown = throw unknown

  -- `try { f } catch (NuoDB::SQLException& xcp) { handler }`
  abbrev pub catch_sql : {A : Type 0} → Run A → (ℤ → Bytes → Run A) → Run A
  catch_sql f handler = catch f (only_sql handler)

  -- The usual handler: the error is recorded, and the function returns `a`.
  unfoldable pub failing : {A : Type 0} → A → ℤ → Bytes → Run A
  unfolding do_error
  failing a code text = do do_error code text; pure a
