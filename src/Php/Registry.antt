-- ===== src/Php/Registry.antt =====
-- The global tables of php/nuodb_php.cpp, and the objects that they point to. Addresses are never
-- used again, so that a pointer to a deleted object stays one.
use nuodb_drivers.Prelude.{
  ℕ, ◌+◌, Bool, false, Option, none, some, List, Bytes, bytes_eq, ◌==◌, leb, ◌&&◌, if◌then◌else◌,
}
use nuodb_drivers.Prelude.Outcome.{ok, raise, Call, ◌>>=◌, ◌>>◌, deref, modify}
use nuodb_drivers.Client.{Attempt, returns, throws}
use nuodb_drivers.Php.Library.{Library}

module _ (lib : Library) where
  open lib use {World, Connection, Statement, ResultSet}

  -- `nuodb_result_t`; `it` is an iterator into the vector of its connection, `none` one that is no
  -- longer valid.
  pub record Result : Type 0 where
    pub nc : ℕ
    pub rs : Option ResultSet
    pub stmt : Option Statement
    pub it : Option ℕ

  -- `nuodb_connection_t`; `r` is the vector of its results.
  pub record Conn : Type 0 where
    pub hash : Bytes
    pub error : Bytes
    pub c : Connection
    pub autocommit : Bool
    pub r : List ℕ

  -- `conn_map`, the keys of `results_map`, whose values are never read, the two defaults, and the
  -- objects by their address.
  pub record Tables : Type 0 where
    pub conn_map : Bytes → Option ℕ
    pub results_map : ℕ → Bool
    pub default_connection : Option ℕ
    pub default_error : Bytes
    pub conns : ℕ → Option Conn
    pub results : ℕ → Option Result
    pub next_conn : ℕ
    pub next_result : ℕ

  pub record Process : Type 0 where
    pub tables : Tables
    pub world : World

  abbrev pub Run : Type 0 → Type 0
  Run A = Call Process A

  -- A call of the client library.
  abbrev pub call : {A : Type 0} → (World → Attempt A × World) → Run A
  call f s =
      let (r, w) = f s.world in
      elim r [
        | returns a ↦ (ok a, record s { world = w })
        | throws e ↦ (raise e, record s { world = w })
      ]

  abbrev pub reads : {A : Type 0} → (Tables → A) → Run A
  reads f s = (ok (f s.tables), s)

  abbrev pub update : (Tables → Tables) → Run (Unit {0})
  update f = modify λ s. record s { tables = f s.tables }

  -- A function that is changed at one place.
  abbrev pub at : {A : Type 0} → (ℕ → A) → ℕ → A → ℕ → A
  at f p v q = if p == q then v else f q

  abbrev pub at_key : (Bytes → Option ℕ) → Bytes → Option ℕ → Bytes → Option ℕ
  at_key f k v j = if bytes_eq k j then v else f j

  -- `*nc` and `*r`, which must not have been deleted.
  abbrev pub load_conn : ℕ → Run Conn
  load_conn a s = deref (s.tables.conns a) s

  abbrev pub load_result : ℕ → Run Result
  load_result r s = deref (s.tables.results r) s

  abbrev pub put_conn : ℕ → Option Conn → Tables → Tables
  put_conn a c t = record t { conns = at t.conns a c }

  abbrev pub put_result : ℕ → Option Result → Tables → Tables
  put_result r v t = record t { results = at t.results r v }

  abbrev pub store_conn : ℕ → Conn → Run (Unit {0})
  store_conn a c = update (put_conn a (some c))

  abbrev pub store_result : ℕ → Result → Run (Unit {0})
  store_result r v = update (put_result r (some v))

  -- `new` and `delete`
  abbrev pub new_conn : Conn → Run ℕ
  new_conn c = do
    a ← reads (λ t. t.next_conn)
    update (λ t. record (put_conn a (some c) t) { next_conn = a + 1 })
    λ s. (ok a, s)

  abbrev pub new_result : Result → Run ℕ
  new_result v = do
    r ← reads (λ t. t.next_result)
    update (λ t. record (put_result r (some v) t) { next_result = r + 1 })
    λ s. (ok r, s)

  abbrev pub delete_conn : ℕ → Run (Unit {0})
  delete_conn a = update (put_conn a none)

  abbrev pub delete_result : ℕ → Run (Unit {0})
  delete_result r = update (put_result r none)

  abbrev reaches : ℕ → Option ℕ → Bool
  reaches i none = false
  reaches i (some j) = leb i j

  abbrev pub invalid : ℕ → ℕ → Option Result → Option Result
  invalid a i none = none
  invalid a i (some v) = some (if v.nc == a && reaches i v.it then record v { it = none } else v)

  -- A change of the vector of `a` at the place `i` makes the iterators to this place and behind it
  -- invalid.
  abbrev pub invalidate : ℕ → ℕ → Run (Unit {0})
  invalidate a i = update (λ t. record t { results = λ r. invalid a i (t.results r) })
