-- ===== src/Php/Query.antt =====
-- php/nuodb_php.cpp: `nuodb_query`, `nuodb_free_result` and `nuodb_error`.
use nuodb_drivers.Prelude.{
  ℕ, ◌+◌, Bool, true, false, ◌&&◌, Option, none, some, [], ◌∷◌, Bytes, codes, leb, ◌==◌,
  if◌then◌else◌,
}
use nuodb_drivers.Prelude.Outcome.{Exception, sql, unknown, ◌>>=◌, ◌>>◌, pure, throw, catch}
use nuodb_drivers.Php.Library.{Library}
use nuodb_drivers.Php.Registry.{
  Run, call, reads, load_conn, store_conn, new_result, store_result, delete_result,
}
use nuodb_drivers.Php.Results.{free_result, add_result}

-- `tolower` of the C locale
unfoldable pub to_lower : ℕ → ℕ
to_lower c = if leb b'A' c && leb c b'Z' then c + 32 else c

-- `!strncasecmp(query, word, n)` for a word of `n` bytes in lower case
unfoldable pub begins : Bytes → Bytes → Bool
unfolding to_lower
begins query [] = true
begins [] (w ∷ ws) = false
begins (c ∷ cs) (w ∷ ws) = to_lower c == w && begins cs ws

pub data Command : Type 0 where
  commits rolls_back selects executes other : Command

-- The chain of tests in `nuodb_query`
unfoldable pub command : Bytes → Command
unfolding begins
command query =
    if begins query (codes "commit")
    then commits
    else if begins query (codes "rollback")
    then rolls_back
    else if begins query (codes "select")
    then selects
    else if begins query (codes "drop")
    then executes
    else if begins query (codes "create")
    then executes
    else if begins query (codes "insert")
    then executes
    else if begins query (codes "delete")
    then executes
    else other

-- What a script gets: FALSE, TRUE or a resource
pub data Reply : Type 0 where
  no_reply done : Reply
  resource : ℕ → Reply

module _ (lib : Library) where
  -- The new result is deleted if the query throws.
  unfoldable pub select_result : ℕ → Bytes → Run lib ℕ
  select_result a query = do
    c ← load_conn lib a
    st ← call lib (lib.prepare_statement c.c query)
    r ← new_result lib (record { nc = a; rs = none; stmt = none; it = none })
    rs ← catch (call lib (lib.execute_query st)) (λ e. delete_result lib r >> throw e)
    store_result lib r (record { nc = a; rs = some rs; stmt = some st; it = none })
    pure r

  unfoldable pub execute_once : ℕ → Bytes → Run lib Reply
  execute_once a query = do
    c ← load_conn lib a
    st ← call lib (lib.create_statement c.c)
    call lib (lib.execute st query)
    if c.autocommit then call lib (lib.commit c.c) else pure tt
    call lib (lib.close_statement st)
    pure done

  -- The block under `try`. Any other command comes to `nuodb_add_result` with a NULL result.
  unfoldable pub run_query : ℕ → Bytes → Command → Run lib Reply
  unfolding select_result execute_once add_result
  run_query a query commits = do c ← load_conn lib a; call lib (lib.commit c.c); pure done
  run_query a query rolls_back = do c ← load_conn lib a; call lib (lib.rollback c.c); pure done
  run_query a query selects = do
    r ← select_result a query
    add_result lib a (some r)
    pure (resource r)
  run_query a query executes = execute_once a query
  run_query a query other = add_result lib a none >> pure no_reply

  -- The handlers: the error is kept and, after an SQL error, the transaction is rolled back, unless
  -- the connection is closed. What the rollback throws gets through.
  unfoldable pub fail_query : ℕ → Exception → Run lib Reply
  unfolding begins
  fail_query a (sql code text) = do
    c ← load_conn lib a
    store_conn lib a (record c { error = text })
    if begins text (codes "remote connection closed") then pure tt else call lib (lib.rollback c.c)
    pure no_reply
  fail_query a unknown = do
    c ← load_conn lib a
    store_conn lib a (record c { error = codes "Got generic exception" })
    pure no_reply

  -- The connection that is given, or else the default one
  abbrev pub chosen : Option ℕ → Option ℕ → Option ℕ
  chosen none d = d
  chosen (some a) d = some a

  unfoldable pub query_on : Option ℕ → Bytes → Run lib Reply
  unfolding command run_query fail_query
  query_on none query = pure no_reply
  query_on (some a) query = catch (run_query a query (command query)) (fail_query a)

  -- `nuodb_query`
  unfoldable pub query : Bytes → Option ℕ → Run lib Reply
  unfolding query_on
  query text link = do d ← reads lib (λ t. t.default_connection); query_on (chosen link d) text

  -- The function of PHP `nuodb_free_result`
  unfoldable pub free_resource : ℕ → Run lib (Unit {0})
  free_resource r = free_result lib r true

  unfoldable pub error_of : Option ℕ → Run lib Bytes
  error_of none = reads lib (λ t. t.default_error)
  error_of (some a) = do c ← load_conn lib a; pure c.error

  -- `nuodb_error`
  unfoldable pub error : Option ℕ → Run lib Bytes
  unfolding error_of
  error link = do d ← reads lib (λ t. t.default_connection); error_of (chosen link d)
