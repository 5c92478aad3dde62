-- ===== src/Php/Invariant/Queries.antt =====
-- Queries and fetches keep the tables consistent.
use nuodb_drivers.Prelude.{
  ℕ, zero, suc, ◌+◌, Option, none, some, List, [], ◌++◌, refl, arith, Bytes, Option-cases, inl, inr,
  codes,
}
use native.Mathlib.Nat.{le_refl}
use nuodb_drivers.Prelude.Outcome.{
  Exception, sql, unknown, Keeping-attempt, ◌>>=◌, ◌>>◌, pure, catch, throw, deref,
}
use nuodb_drivers.Php.Library.{Library}
use nuodb_drivers.Php.Registry.{
  Result, Tables, put_result, call, new_result, store_result, delete_result, load_conn, load_result,
}
use nuodb_drivers.Php.Results.{add_result}
use nuodb_drivers.Php.Query.{
  Command, commits, rolls_back, selects, executes, other, command, chosen, select_result,
  execute_once, run_query, fail_query, query_on, query, error_of, error,
}
use nuodb_drivers.Php.Fetch.{
  Entry, Fetched, row, no_row, nothing, mode_of, column_value, column, keep_error, columns,
  read_row, fetch_from, fetch,
}
use nuodb_drivers.Php.Invariant.{
  Kept, Keeps, Good, Kept-put_conn, Keeps-bind, Keeps-call, Keeps-catch, Keeps-pure, Keeps-if,
}
use nuodb_drivers.Php.Invariant.Results.{add_result-Keeps}

module _ (lib : Library) (d x : Option ℕ) where
  -- The tables with a new result, with it changed, and without it.
  abbrev with_result : Tables lib → Option (Result lib) → Tables lib
  with_result t v = record (put_result lib t.next_result v t) { next_result = t.next_result + 1 }

  Kept-with_result :
      (t : Tables lib) (v : Result lib) → Kept lib d x t → Kept lib d x (with_result t (some v))
  Kept-with_result t v k = record {
    default_is = k.default_is;
    default_alive = k.default_alive;
    mapped = k.mapped;
    known = λ q f. ground (arith, k.known q f);
    fresh_conns = k.fresh_conns;
    fresh_results = λ q f. ground (arith, k.fresh_results q);
  }

  Kept-renew :
      (t : Tables lib) (v w : Result lib)
      → Kept lib d x t
      → Kept lib d x (put_result lib t.next_result (some w) (with_result t (some v)))
  Kept-renew t v w k = record {
    default_is = k.default_is;
    default_alive = k.default_alive;
    mapped = k.mapped;
    known = λ q f. ground (arith, k.known q f);
    fresh_conns = k.fresh_conns;
    fresh_results = λ q f. ground (arith, k.fresh_results q);
  }

  Kept-drop :
      (t : Tables lib) (v : Result lib)
      → Kept lib d x t
      → Kept lib d x (put_result lib t.next_result none (with_result t (some v)))
  Kept-drop t v k =
      let unused = k.fresh_results t.next_result (le_refl t.next_result) in
      record {
        default_is = k.default_is;
        default_alive = k.default_alive;
        mapped = k.mapped;
        known = λ q f. ground (arith, k.known q f, unused);
        fresh_conns = k.fresh_conns;
        fresh_results = λ q f. ground (arith, k.fresh_results q);
      }

  load_conn-Keeps : (a : ℕ) → Keeps lib d x (load_conn lib a)
  load_conn-Keeps a s k = ground arith

  run_select-Keeps :
      (a : ℕ) (st : lib.Statement)
      → Keeps lib d x (do
        r ← new_result lib (record { nc = a; rs = none; stmt = none; it = none })
        rs ← catch (call lib (lib.execute_query st)) (λ e. delete_result lib r >> throw e)
        store_result lib r (record { nc = a; rs = some rs; stmt = some st; it = none })
        pure r)
  run_select-Keeps a st s k =
      let blank : Result lib = record { nc = a; rs = none; stmt = none; it = none } in
      grind (arith, Kept-drop s.tables blank k, Kept-renew s.tables blank)

  select_result-Keeps : (a : ℕ) (text : Bytes) → Keeps lib d x (select_result lib a text)
  unfolding select_result
  select_result-Keeps a text = Keeps-bind lib d x _ _ (load_conn-Keeps a) (λ c.
      Keeps-bind lib d x _ _ (Keeps-call lib d x (lib.prepare_statement c.c text))
        (λ st. run_select-Keeps a st))

  execute_once-Keeps : (a : ℕ) (text : Bytes) → Keeps lib d x (execute_once lib a text)
  unfolding execute_once
  execute_once-Keeps a text s k = ground arith

  run_query-Keeps : (a : ℕ) (text : Bytes) (c : Command) → Keeps lib d x (run_query lib a text c)
  unfolding run_query add_result
  run_query-Keeps a text commits = λ s k. ground arith
  run_query-Keeps a text rolls_back = λ s k. ground arith
  run_query-Keeps a text selects =
      Keeps-bind lib d x _ _ (select_result-Keeps a text)
        (λ r. Keeps-bind lib d x _ _ (add_result-Keeps lib d x a (some r)) (λ u s k. k))
  run_query-Keeps a text executes = execute_once-Keeps a text
  run_query-Keeps a text other = λ s k. tt

  fail_query-Keeps : (a : ℕ) (e : Exception) → Keeps lib d x (fail_query lib a e)
  unfolding fail_query
  fail_query-Keeps a (sql code text) s k = elim (Option-cases (s.tables.conns a)) [
    | inl e ↦ ground arith
    | inr (c, e) ↦
        ground (arith, Kept-put_conn lib d x s.tables a c (record c { error = text }) e refl k)
  ]
  fail_query-Keeps a unknown s k = elim (Option-cases (s.tables.conns a)) [
    | inl e ↦ ground arith
    | inr (c, e) ↦ ground (
      arith,
      Kept-put_conn lib d x s.tables a c (record c { error = codes "Got generic exception" }) e refl
          k,
    )
  ]

  query_on-Keeps : (a : Option ℕ) (text : Bytes) → Keeps lib d x (query_on lib a text)
  unfolding query_on
  query_on-Keeps none text = λ s k. k
  query_on-Keeps (some a) text =
      Keeps-catch lib d x _ _ (run_query-Keeps a text (command text)) (λ e. fail_query-Keeps a e)

  pub query-Keeps : (text : Bytes) (link : Option ℕ) → Keeps lib d x (query lib text link)
  unfolding query
  query-Keeps text link s k = query_on-Keeps (chosen lib link s.tables.default_connection) text s k

  error_of-Keeps : (a : Option ℕ) → Keeps lib d x (error_of lib a)
  unfolding error_of
  error_of-Keeps none = λ s k. k
  error_of-Keeps (some a) = λ s k. ground arith

  pub error-Keeps : (link : Option ℕ) → Keeps lib d x (error lib link)
  unfolding error
  error-Keeps link s k = error_of-Keeps (chosen lib link s.tables.default_connection) s k

  keep_error-Keeps : (a : ℕ) (f : Fetched) (e : Exception) → Keeps lib d x (keep_error lib a f e)
  unfolding keep_error
  keep_error-Keeps a f e s k = grind (arith, Kept-put_conn lib d x)

  column-Keeps : (rs : lib.ResultSet) (mode i : ℕ) → Keeps lib d x (column lib rs mode i)
  unfolding column column_value
  column-Keeps rs mode i s k = ground arith

  columns-Keeps :
      (a : ℕ) (rs : lib.ResultSet) (mode left i : ℕ) (acc : List Entry)
      → Keeps lib d x (columns lib a rs mode left i acc)
  unfolding columns
  columns-Keeps a rs mode zero i acc = Keeps-pure lib d x (row acc)
  columns-Keeps a rs mode (suc left) i acc =
      Keeping-attempt (Good lib d x) _ _ _ (column-Keeps rs mode i)
        (λ es. columns-Keeps a rs mode left (i + 1) (acc ++ es))
        (λ e. keep_error-Keeps a (row acc) e)

  fetch_from-Keeps :
      (a : ℕ) (rs : lib.ResultSet) (mode : ℕ) → Keeps lib d x (fetch_from lib a rs mode)
  unfolding fetch_from read_row
  fetch_from-Keeps a rs mode =
      Keeping-attempt (Good lib d x) _ _ _ (Keeps-call lib d x (lib.next rs))
        (λ more.
          Keeps-if lib d x more _ _
            (Keeping-attempt (Good lib d x) _ _ _ (Keeps-call lib d x (lib.column_count rs))
              (λ n. columns-Keeps a rs mode n 1 []) (λ e. keep_error-Keeps a (row []) e))
            (Keeps-pure lib d x no_row))
        (λ e. keep_error-Keeps a nothing e)

  load_result-Keeps : (r : ℕ) → Keeps lib d x (load_result lib r)
  load_result-Keeps r s k = ground arith

  deref-Keeps : {A : Type 0} (o : Option A) → Keeps lib d x (deref o)
  deref-Keeps none = λ s k. tt
  deref-Keeps (some a) = λ s k. k

  pub fetch-Keeps : (r mode : ℕ) → Keeps lib d x (fetch lib r mode)
  unfolding fetch
  fetch-Keeps r mode = Keeps-bind lib d x _ _ (load_result-Keeps r) (λ v.
      Keeps-bind lib d x _ _ (deref-Keeps v.rs) (λ rs. fetch_from-Keeps v.nc rs (mode_of mode)))
