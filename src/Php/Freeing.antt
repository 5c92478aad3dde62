-- ===== src/Php/Freeing.antt =====
-- Which results of queries a script can free (php/nuodb_php.cpp).
use nuodb_drivers.Prelude.{
  ℕ, true, false, Option, none, some, List, [], ◌∷◌, ◌≡◌, ◌≢◌, refl, subst, sym, ◌∙◌, ap, arith,
  Bytes,
}
use nuodb_drivers.Prelude.Outcome.{ok, fault}
use nuodb_drivers.Client.{returns}
use nuodb_drivers.Php.Library.{Library}
use nuodb_drivers.Php.Registry.{Conn, Result, Process, invalid}
use nuodb_drivers.Php.Results.{
  without, erase_result, free_result, free_known, release_result, close_results, close_statement,
  commit_result, forget_result,
}
use nuodb_drivers.Php.Query.{resource, query, free_resource}
use nuodb_drivers.Php.Selecting.{
  Selects, query_reply, query_world, query_conn, query_result, query_others, query_map,
}

module _ (lib : Library) where
  -- The answers of the client library when a result is freed with auto-commit, from one world to
  -- another.
  pub record Closes (c : lib.Connection) (rs : lib.ResultSet) (st : lib.Statement)
      (w w' : lib.World) : Type 0 where
    pub after_results : lib.World
    pub after_commit : lib.World
    pub closes_results : lib.close_results rs w ≡ (returns tt, after_results)
    pub commits : lib.commit c after_results ≡ (returns tt, after_commit)
    pub closes_statement : lib.close_statement st after_commit ≡ (returns tt, w')

  -- A registered result with its result set and its statement, on an open connection
  pub record Holds (r : ℕ) (v : Result lib) (c : Conn lib) (rs : lib.ResultSet) (st : lib.Statement)
      (s : Process lib) : Type 0 where
    pub registered : s.tables.results_map r ≡ true
    pub result_is : s.tables.results r ≡ some v
    pub conn_is : s.tables.conns v.nc ≡ some c
    pub results_is : v.rs ≡ some rs
    pub stmt_is : v.stmt ≡ some st
    pub autocommit_is : c.autocommit ≡ true
    pub nonempty : c.r ≢ []

  module _ (r : ℕ) (v : Result lib) (c : Conn lib) (rs : lib.ResultSet) (st : lib.Statement)
      (s : Process lib) (w : lib.World) (h : Holds r v c rs st s)
      (k : Closes c.c rs st s.world w) where
    free_invalid : v.it ≡ none → (free_resource lib r s).0 ≡ fault
    unfolding free_resource free_result free_known release_result close_results close_statement
        commit_result forget_result erase_result
    free_invalid e = ground arith

    free_valid :
        (i : ℕ) (rest : List ℕ)
        → v.it ≡ some i
        → without c.r i ≡ some rest
        → ((free_resource lib r s).0 ≡ ok tt)
          × ((free_resource lib r s).1.world ≡ w)
          × ((free_resource lib r s).1.tables.results r ≡ none)
          × ((free_resource lib r s).1.tables.results_map r ≡ false)
          × ((free_resource lib r s).1.tables.conns v.nc ≡ some (record c { r = rest }))
    unfolding free_resource free_result free_known release_result close_results close_statement
        commit_result forget_result erase_result
    free_valid i rest e f = ground arith

  module _ (text : Bytes) (link : Option ℕ) (a : ℕ) (c : Conn lib) (st : lib.Statement)
      (rs : lib.ResultSet) (w : lib.World) (s : Process lib)
      (q : Selects lib text link a c st rs w s) where
    -- A query that selects and succeeds on an open connection with auto-commit, whose result is freed
    -- before anything else happens, where closing the result set, committing and closing the statement
    -- all return, gives back what the query took: the result set is closed, the transaction is committed and the statement is closed, in
    -- this order, the result is deleted and is no longer registered, and the connection is as it
    -- was.
    pub free-query :
        (w' : lib.World)
        → c.autocommit ≡ true
        → Closes c.c rs st w w'
        → let n = s.tables.next_result in
          let s1 = (query lib text link s).1 in
          let s2 = (free_resource lib n s1).1 in
          ((query lib text link s).0 ≡ ok (resource n))
          × ((free_resource lib n s1).0 ≡ ok tt)
          × (s2.world ≡ w')
          × (s2.tables.results n ≡ none)
          × (s2.tables.results_map n ≡ false)
          × (s2.tables.conns a ≡ some c)
    free-query w' auto k =
        let n = s.tables.next_result in
        let s1 = (query lib text link s).1 in
        let v : Result lib = record { nc = a; rs = some rs; stmt = some st; it = some 0 } in
        let c1 : Conn lib = record c { r = n ∷ c.r } in
        let h : Holds n v c1 rs st s1 = record {
          registered = query_map lib text link a c st rs w s q n ∙ ground arith;
          result_is = query_result lib text link a c st rs w s q;
          conn_is = query_conn lib text link a c st rs w s q;
          results_is = refl;
          stmt_is = refl;
          autocommit_is = auto;
          nonempty = λ e. cc;
        } in
        let k1 : Closes c1.c rs st s1.world w' =
          subst (λ u. Closes c.c rs st u w') (sym (query_world lib text link a c st rs w s q)) k in
        let f = free_valid n v c1 rs st s1 w' h k1 0 c.r refl refl in
        (query_reply lib text link a c st rs w s q, f.0, f.1, f.2, f.3, f.4)

    -- A query that selects and succeeds makes freeing a result of an earlier query on the same
    -- connection undefined behaviour, if the connection has auto-commit on, the older result is
    -- registered with a result set and a statement, and closing that result set, committing and closing
    -- that statement all return: the insertion at the front of the vector has made its iterator invalid.
    pub free_older :
        (r : ℕ) (v : Result lib) (rs' : lib.ResultSet) (st' : lib.Statement) (w' : lib.World)
        → r ≢ s.tables.next_result
        → s.tables.results_map r ≡ true
        → s.tables.results r ≡ some v
        → v.nc ≡ a
        → v.rs ≡ some rs'
        → v.stmt ≡ some st'
        → c.autocommit ≡ true
        → Closes c.c rs' st' w w'
        → (free_resource lib r (query lib text link s).1).0 ≡ fault
    free_older r v rs' st' w' ne reg res nc_is rs_is st_is auto k =
        let n = s.tables.next_result in
        let s1 = (query lib text link s).1 in
        let v1 : Result lib = record v { it = none } in
        let c1 : Conn lib = record c { r = n ∷ c.r } in
        let h : Holds r v1 c1 rs' st' s1 = record {
          registered = query_map lib text link a c st rs w s q r ∙ ground arith;
          result_is =
              query_others lib text link a c st rs w s q r ne
              ∙ (ap (invalid lib a 0) res ∙ ground arith);
          conn_is = ap s1.tables.conns nc_is ∙ query_conn lib text link a c st rs w s q;
          results_is = rs_is;
          stmt_is = st_is;
          autocommit_is = auto;
          nonempty = λ e. cc;
        } in
        let k1 : Closes c1.c rs' st' s1.world w' =
          subst (λ u. Closes c.c rs' st' u w') (sym (query_world lib text link a c st rs w s q))
            k in
        free_invalid r v1 c1 rs' st' s1 w' h k1 refl
