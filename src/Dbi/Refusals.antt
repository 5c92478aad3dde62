-- ===== src/Dbi/Refusals.antt =====
-- What a script can still do after `dbd_db_disconnect` (perl_dbi/dbdimp.cpp).
use nuodb_drivers.Prelude.{Bool, true, false, none, some, ◌≡◌, arith, Bytes, codes}
use nuodb_drivers.Prelude.Outcome.{negsuc, ok}
use nuodb_drivers.Dbi.Library.{Library}
use nuodb_drivers.Dbi.Handles.{State, Run, failing, do_error}
use nuodb_drivers.Dbi.Connection.{commit, rollback, store_attrib, store_auto_commit, disconnect}
use nuodb_drivers.Dbi.Statement.{prepare, execute, fetch}

module _ (lib : Library) where
  -- The state with the error of a missing connection
  abbrev pub refused : State lib → State lib
  refused s = record s {
    dbh = record (s.dbh) { error = some (negsuc 0, codes "Connection is not available.") };
  }

  -- The call returns `a` with this error, and has no other effect.
  abbrev pub Refuses : {A : Type 0} → State lib → Run lib A → A → Type 0
  Refuses s m a = m s ≡ (ok a, refused s)

  disconnected : (s s' : State lib) → disconnect lib s ≡ (ok true, s') → s'.dbh.conn ≡ none
  unfolding disconnect failing do_error
  disconnected s s' e = ground arith

  module _ (s : State lib) (e : s.dbh.conn ≡ none) where
    commit-Refuses : Refuses s (commit lib) false
    unfolding commit failing do_error
    commit-Refuses = rw e

    rollback-Refuses : Refuses s (rollback lib) false
    unfolding rollback failing do_error
    rollback-Refuses = rw e

    store-Refuses :
        (v : Bool) → Refuses s (store_attrib lib (codes "AutoCommit") v) (false, some (negsuc 899))
    unfolding store_attrib store_auto_commit failing do_error
    store-Refuses v = rw e

    prepare-Refuses : (text : Bytes) → Refuses s (prepare lib text) false
    unfolding prepare failing do_error
    prepare-Refuses text = rw e

    execute-Refuses : Refuses s (execute lib) false
    unfolding execute failing do_error
    execute-Refuses = rw e

    fetch-Refuses : Refuses s (fetch lib) none
    unfolding fetch failing do_error
    fetch-Refuses = rw e

    disconnect_again : disconnect lib s ≡ (ok false, s)
    unfolding disconnect
    disconnect_again = rw e

  -- Once a script has disconnected with success, a commit, a rollback, a change of AutoCommit, and
  -- the preparation, the execution and the fetch of a statement are all refused with the error -1,
  -- with no call of the client library, and a second disconnect returns FALSE and changes nothing.
  pub disconnect-Refuses :
      (s s' : State lib) (text : Bytes) (v : Bool)
      → disconnect lib s ≡ (ok true, s')
      → Refuses s' (commit lib) false
        × Refuses s' (rollback lib) false
        × Refuses s' (store_attrib lib (codes "AutoCommit") v) (false, some (negsuc 899))
        × Refuses s' (prepare lib text) false
        × Refuses s' (execute lib) false
        × Refuses s' (fetch lib) none
        × (disconnect lib s' ≡ (ok false, s'))
  disconnect-Refuses s s' text v h =
      let e = disconnected s s' h in
      (
        commit-Refuses s' e,
        rollback-Refuses s' e,
        store-Refuses s' e v,
        prepare-Refuses s' e text,
        execute-Refuses s' e,
        fetch-Refuses s' e,
        disconnect_again s' e,
      )
