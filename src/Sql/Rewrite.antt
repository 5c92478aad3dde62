-- ===== src/Sql/Rewrite.antt =====
-- The loop of `nuodb_alloc_prepare_stmt` (php_pdo/pdo_nuodb/nuodb_driver.c), which replaces each
-- `:name` outside of quotes by `?` and records the name. `none` is a write outside of a buffer.
pub mod Steps
pub mod Bounds
pub mod Tokens
pub mod Replace
pub mod Lookup
use nuodb_drivers.Prelude.{
  ℕ, ◌+◌, ◌-◌, Bool, true, false, not, ◌&&◌, ◌||◌, xor, Option, none, some, [], ◌∷◌, ◌++◌, Bytes,
  length, ltb, leb, ◌==◌, if◌then◌else◌,
}
use nuodb_drivers.Prelude.Partial.{◌>>=◌}
use nuodb_drivers.Zend.{HashTable}

abbrev within : ℕ → ℕ → ℕ → Bool
within lo hi c = leb lo c && leb c hi

-- The bytes that go on with a name.
unfoldable pub is_name : ℕ → Bool
is_name c = within b'A' b'Z' c || within b'a' b'z' c || within b'0' b'9' c || c == b'_' || c == b'-'

-- `char pname[64]`
abbrev pub pname_size : ℕ
pname_size = 64

module _ (zend : HashTable) where
  open zend use {Table, empty, update}

  -- The variables of the loop. `placeholders` is `pindex + 1`, `pname` what stands before `ppname`
  -- and `out` what stands before `c`.
  pub record Scan : Type 0 where
    pub in_quote : Bool
    pub in_param : Bool
    pub pname : Bytes
    pub placeholders : ℕ
    pub out : Bytes
    pub names : Table

  -- `*ppname++ = ch`
  unfoldable pub put_name : ℕ → Scan → Option Scan
  put_name ch s =
      if ltb (length s.pname) pname_size
      then some (record s { pname = s.pname ++ ch ∷ [] })
      else none

  -- `*c++ = ch`, into a buffer of `size` bytes
  unfoldable pub put_sql : ℕ → ℕ → Scan → Option Scan
  put_sql size ch s =
      if ltb (length s.out) size then some (record s { out = s.out ++ ch ∷ [] }) else none

  -- `case '?'`
  unfoldable pub mark : ℕ → Scan → Option Scan
  unfolding put_sql
  mark size s = do s' ← put_sql size b'?' s; some (record s' { placeholders = s'.placeholders + 1 })

  -- Neither in a quote nor in a name.
  unfoldable pub plain : ℕ → ℕ → Scan → Option Scan
  unfolding put_name put_sql mark
  plain size ch s =
      if ch == b':'
      then (put_name ch (record s { in_param = true; pname = [] }) >>= mark size)
      else if ch == b'?'
      then mark size s
      else put_sql size ch s

  -- In a name: go on with it, or end it, record it and copy the byte.
  unfoldable pub in_name : ℕ → ℕ → Scan → Option Scan
  unfolding is_name put_name put_sql
  in_name size ch s = if is_name ch then put_name ch s else (do
    s' ← put_name 0 (record s { in_param = false })
    put_sql size ch (record s' { names = update s'.pname (s'.placeholders - 1) s'.names }))

  -- One round of the loop, with `sql[l] == ch`.
  unfoldable pub step : ℕ → ℕ → Scan → Option Scan
  unfolding plain in_name put_sql
  step size ch s =
      let s' = record s { in_quote = xor s.in_quote (ch == b'\'') } in
      if s'.in_quote
      then put_sql size ch s'
      else if not s.in_param
      then plain size ch s'
      else in_name size ch s'

  unfoldable pub scan : ℕ → Bytes → Scan → Option Scan
  scan size [] s = some s
  scan size (c ∷ cs) s = step size c s >>= λ s'. scan size cs s'

  abbrev pub initial : Scan
  initial = record {
    in_quote = false;
    in_param = false;
    pname = [];
    placeholders = 0;
    out = [];
    names = empty;
  }

  -- The whole loop: it reads `sql[0]` to `sql[sql_len]`, the terminating NUL, and writes into
  -- `emalloc(sql_len + 1)`.
  unfoldable pub rewrite : Bytes → Option Scan
  unfolding scan step
  rewrite sql = scan (length sql + 1) (sql ++ 0 ∷ []) initial
