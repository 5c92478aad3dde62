-- ===== src/Php/Requests.antt =====
-- php/nuodb_php.cpp: the calls of a script, one after another, over the life of the PHP process.
use nuodb_drivers.Prelude.{ℕ, false, Option, none, some, [], Bytes, ◌≡◌}
use nuodb_drivers.Prelude.Outcome.{Exception, ok, raise, ◌>>=◌, ◌>>◌, pure}
use nuodb_drivers.Php.Library.{Library}
use nuodb_drivers.Php.Registry.{Tables, Process, Run, reads, update}
use nuodb_drivers.Php.Connections.{Target, free_connection, connect, disconnect}
use nuodb_drivers.Php.Query.{query, free_resource, error}
use nuodb_drivers.Php.Fetch.{fetch}

-- The functions that a script can call, and the end of a request.
pub data Event : Type 0 where
  connects : Target → Event
  disconnects : ℕ → Event
  queries : Bytes → Option ℕ → Event
  frees : ℕ → Event
  fetches : ℕ → ℕ → Event
  asks_error : Option ℕ → Event
  next_request : Event

module _ (lib : Library) where
  -- The tables at the start of the process
  abbrev pub initial : Tables lib
  initial = record {
    conn_map = λ k. none;
    results_map = λ r. false;
    default_connection = none;
    default_error = [];
    conns = λ a. none;
    results = λ r. none;
    next_conn = 0;
    next_result = 0;
  }

  unfoldable pub free_default : Option ℕ → Run lib (Unit {0})
  unfolding free_connection
  free_default none = pure tt
  free_default (some d) = free_connection lib d

  -- RSHUTDOWN of one request, then RINIT of the next: only the default connection is freed.
  unfoldable pub request : Run lib (Unit {0})
  unfolding free_default
  request = do
    d ← reads lib (λ t. t.default_connection)
    free_default d
    update lib (λ t. record t { default_connection = none })

  unfoldable pub perform : Event → Run lib (Unit {0})
  unfolding connect disconnect query free_resource fetch error request
  perform (connects p) = connect lib p >> pure tt
  perform (disconnects a) = disconnect lib a
  perform (queries text link) = query lib text link >> pure tt
  perform (frees r) = free_resource lib r
  perform (fetches r result_type) = fetch lib r result_type >> pure tt
  perform (asks_error link) = error lib link >> pure tt
  perform next_request = request

  -- One call, in which the client library may do anything, that does not run into undefined
  -- behaviour. An exception that gets through ends the call.
  pub data Step (s s' : Process lib) : Type 0 where
    returns : (e : Event) → perform e s ≡ (ok tt, s') → Step s s'
    throws : (e : Event) (x : Exception) → perform e s ≡ (raise x, s') → Step s s'

  pub data Reach (s : Process lib) : Process lib → Type 0 where
    here : Reach s s
    next : {t u : Process lib} → Reach s t → Step t u → Reach s u
