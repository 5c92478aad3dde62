-- ===== src/Php/Selecting.antt =====
-- A query, its result and what frees it (php/nuodb_php.cpp).
use nuodb_drivers.Prelude.{
  ℕ, ◌+◌, true, false, Option, none, some, [], ◌∷◌, ◌≡◌, ◌≢◌, arith, Bytes, codes, ◌==◌,
  if◌then◌else◌,
}
use nuodb_drivers.Prelude.Outcome.{ok, fault}
use nuodb_drivers.Client.{returns}
use nuodb_drivers.Php.Library.{Library}
use nuodb_drivers.Php.Registry.{Conn, Result, Process, put_result, invalid}
use nuodb_drivers.Php.Results.{add_result}
use nuodb_drivers.Php.Query.{
  chosen, to_lower, begins, command, selects, other, resource, select_result, run_query, query_on,
  query,
}

begins_head : (c w : ℕ) (cs ws : Bytes) → begins (c ∷ cs) (w ∷ ws) ≡ true → to_lower c ≡ w
unfolding begins
begins_head c w cs ws h = ground arith

begins_other :
    (c w : ℕ) (cs ws : Bytes) → to_lower c ≡ b'u' → w ≢ b'u' → begins (c ∷ cs) (w ∷ ws) ≡ false
unfolding begins
begins_other c w cs ws h ne = ground arith

-- An update is none of the commands that `nuodb_query` knows.
command_update : (text : Bytes) → begins text (codes "update") ≡ true → command text ≡ other
unfolding command
command_update [] h = unfold begins in cc
command_update (c ∷ cs) h =
    let u = begins_head c b'u' cs (codes "pdate") h in
    rw (
      begins_other c b'c' cs (codes "ommit") u (ground arith),
      begins_other c b'r' cs (codes "ollback") u (ground arith),
      begins_other c b's' cs (codes "elect") u (ground arith),
      begins_other c b'd' cs (codes "rop") u (ground arith),
      begins_other c b'c' cs (codes "reate") u (ground arith),
      begins_other c b'i' cs (codes "nsert") u (ground arith),
      begins_other c b'd' cs (codes "elete") u (ground arith),
    )

module _ (lib : Library) where
  -- A statement that begins with `update` on an open connection, which is given or the default one,
  -- comes to `nuodb_add_result` with a NULL result, and is undefined behaviour.
  query_update :
      (text : Bytes) (link : Option ℕ) (a : ℕ) (s : Process lib) (c : Conn lib)
      → begins text (codes "update") ≡ true
      → chosen lib link s.tables.default_connection ≡ some a
      → s.tables.conns a ≡ some c
      → (query lib text link s).0 ≡ fault
  unfolding query query_on run_query add_result
  query_update text link a s c u h e = ground (arith, command_update text u)

  -- A query of a script on the open connection `a`, and the answers of the client library.
  pub record Selects (text : Bytes) (link : Option ℕ) (a : ℕ) (c : Conn lib) (st : lib.Statement)
      (rs : lib.ResultSet) (w : lib.World) (s : Process lib) : Type 0 where
    pub between : lib.World
    pub selects_it : command text ≡ selects
    pub link_is : chosen lib link s.tables.default_connection ≡ some a
    pub conn_is : s.tables.conns a ≡ some c
    pub prepares : lib.prepare_statement c.c text s.world ≡ (returns st, between)
    pub executes_it : lib.execute_query st between ≡ (returns rs, w)

  module _ (text : Bytes) (link : Option ℕ) (a : ℕ) (c : Conn lib) (st : lib.Statement)
      (rs : lib.ResultSet) (w : lib.World) (s : Process lib)
      (q : Selects text link a c st rs w s) where
    pub query_reply : (query lib text link s).0 ≡ ok (resource s.tables.next_result)
    unfolding query query_on run_query select_result add_result
    query_reply = ground arith

    pub query_world : (query lib text link s).1.world ≡ w
    unfolding query query_on run_query select_result add_result
    query_world = ground arith

    pub query_conn :
        (query lib text link s).1.tables.conns a
        ≡ some (record c { r = s.tables.next_result ∷ c.r })
    unfolding query query_on run_query select_result add_result
    query_conn = ground arith

    pub query_result :
        (query lib text link s).1.tables.results s.tables.next_result
        ≡ some (record { nc = a; rs = some rs; stmt = some st; it = some 0 })
    unfolding query query_on run_query select_result add_result
    query_result = ground arith

    -- The process before the result is registered.
    abbrev middle : Process lib
    middle =
        let t = s.tables in
        let n = t.next_result in
        let blank : Result lib = record { nc = a; rs = none; stmt = none; it = none } in
        record {
          tables =
              put_result lib n (some (record { nc = a; rs = some rs; stmt = some st; it = none }))
                (record (put_result lib n (some blank) t) { next_result = n + 1 });
          world = w;
        }

    select_result-middle : select_result lib a text s ≡ (ok s.tables.next_result, middle)
    unfolding select_result
    select_result-middle = ground arith

    add_result_others :
        (r : ℕ)
        → r ≢ s.tables.next_result
        → (add_result lib a (some s.tables.next_result) middle).1.tables.results r
          ≡ invalid lib a 0 (s.tables.results r)
    unfolding add_result
    add_result_others r ne = ground arith

    pub query_others :
        (r : ℕ)
        → r ≢ s.tables.next_result
        → (query lib text link s).1.tables.results r ≡ invalid lib a 0 (s.tables.results r)
    unfolding query query_on run_query
    query_others r ne = ground (arith, select_result-middle, add_result_others r ne)

    pub query_map :
        (r : ℕ)
        → (query lib text link s).1.tables.results_map r
          ≡ (if s.tables.next_result == r then true else s.tables.results_map r)
    unfolding query query_on run_query select_result add_result
    query_map r = ground arith
