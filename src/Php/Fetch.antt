-- ===== src/Php/Fetch.antt =====
-- php/nuodb_php.cpp: `php_nuodb_fetch_hash`, for arrays. The functions of an object's constructor
-- are calls of the Zend engine, and are left out.
use nuodb_drivers.Prelude.{
  ℕ, zero, suc, ◌+◌, ◌/◌, ◌%◌, Option, none, some, List, [], ◌∷◌, ◌++◌, map, Bytes, ◌==◌, ltb,
  if◌then◌else◌,
}
use nuodb_drivers.Prelude.Outcome.{Exception, ◌>>=◌, ◌>>◌, pure, deref, attempt}
use nuodb_drivers.Php.Library.{Library}
use nuodb_drivers.Php.Registry.{Run, call, load_conn, load_result, store_conn}
use nuodb_drivers.Php.Connections.{text_of}
use nuodb_drivers.Php.Query.{to_lower}

-- `NUODB_ASSOC`, `NUODB_NUM`, `NUODB_BOTH`
abbrev pub nuodb_assoc : ℕ
nuodb_assoc = 1

abbrev pub nuodb_num : ℕ
nuodb_num = 2

abbrev pub nuodb_both : ℕ
nuodb_both = 3

-- 0 and any other bit than these two stand for both.
unfoldable pub mode_of : ℕ → ℕ
mode_of t = if t == 0 then nuodb_both else if ltb nuodb_both t then nuodb_both else t

-- What is added to the array: at an index or a name, a text or NULL
pub data Entry : Type 0 where
  index : ℕ → Option Bytes → Entry
  assoc : Bytes → Option Bytes → Entry

-- What a script gets: nothing, FALSE or an array
pub data Fetched : Type 0 where
  nothing no_row : Fetched
  row : List Entry → Fetched

-- A column's entries: `result_type & NUODB_NUM`, then `result_type & NUODB_ASSOC`
unfoldable pub entries : ℕ → ℕ → Bytes → Option Bytes → List Entry
entries mode i name value =
    (if mode / 2 % 2 == 1 then index i value ∷ [] else [])
    ++ (if mode % 2 == 1 then assoc name value ∷ [] else [])

module _ (lib : Library) where
  -- `rs->getString(i)`, and `wasNull()` behind it
  unfoldable pub column_value : lib.ResultSet → ℕ → Run lib (Option Bytes)
  column_value rs i = do
    value ← call lib (lib.get_string rs i)
    is_null ← call lib (lib.was_null rs)
    if is_null then pure none else (deref value >>= λ v. pure (some v))

  unfoldable pub column : lib.ResultSet → ℕ → ℕ → Run lib (List Entry)
  unfolding to_lower column_value entries
  column rs mode i = do
    name ← call lib (lib.column_name rs i)
    value ← column_value rs i
    pure (entries mode i (map to_lower name) value)

  -- The handler: the error is kept, and the array stays as it is.
  unfoldable pub keep_error : ℕ → Fetched → Exception → Run lib Fetched
  keep_error a so_far e = do
    c ← load_conn lib a
    store_conn lib a (record c { error = text_of e })
    pure so_far

  -- The loop over the columns from `i` on, with the array that is built
  unfoldable pub columns : ℕ → lib.ResultSet → ℕ → ℕ → ℕ → List Entry → Run lib Fetched
  unfolding column keep_error
  columns a rs mode zero i acc = pure (row acc)
  columns a rs mode (suc left) i acc =
      attempt (column rs mode i) (λ es. columns a rs mode left (i + 1) (acc ++ es))
        (keep_error a (row acc))

  unfoldable pub read_row : ℕ → lib.ResultSet → ℕ → Run lib Fetched
  unfolding columns keep_error
  read_row a rs mode =
      attempt (call lib (lib.column_count rs)) (λ n. columns a rs mode n 1 [])
        (keep_error a (row []))

  unfoldable pub fetch_from : ℕ → lib.ResultSet → ℕ → Run lib Fetched
  unfolding read_row keep_error
  fetch_from a rs mode =
      attempt (call lib (lib.next rs)) (λ more. if more then read_row a rs mode else pure no_row)
        (keep_error a nothing)

  -- `nuodb_fetch_array`, and with a fixed mode `nuodb_fetch_row` and `nuodb_fetch_assoc`
  unfoldable pub fetch : ℕ → ℕ → Run lib Fetched
  unfolding mode_of fetch_from
  fetch r result_type = do
    v ← load_result lib r
    rs ← deref v.rs
    fetch_from v.nc rs (mode_of result_type)
