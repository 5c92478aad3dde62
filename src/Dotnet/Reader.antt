-- ===== src/Dotnet/Reader.antt =====
-- dotnet/nuodb/datareader.cpp and stdafx.h: `NuoDbDataReader` while rows are read; the methods that
-- only refuse are at the end.
pub mod Creating
pub mod Values
pub mod Requests
pub mod Types
pub mod Getters
pub mod Columns
pub mod Leaving
pub mod Closing
use nuodb_drivers.Prelude.{
  ℕ, suc, ◌+◌, ◌-◌, ◌%◌, ◌^◌, Bool, true, false, Option, none, some, List, [], ◌∷◌, Bytes, codes,
  not, bytes_eq, length, get_elem?, ltb, if◌then◌else◌,
}
use nuodb_drivers.Prelude.Outcome.{ℤ, pos, negsuc}
use nuodb_drivers.Dotnet.Calls.{
  Result, ok, ◌>>=◌, ◌>>◌, pure, throw, throw_if, gets, Error, nuodb, index_out_of_range,
  invalid_cast, not_supported, native_of, String, in_range, checked,
}
use nuodb_drivers.Dotnet.Library.{Library}
use nuodb_drivers.Dotnet.Parameters.{NuodbType}
use nuodb_drivers.Dotnet.Objects.{Column, Reader, State, Act, call}

-- `name == m_columns[i]->Name`
abbrev pub same_name : String → Bytes → Bool
same_name none n = false
same_name (some m) n = bytes_eq m n

abbrev pub find_column : String → ℕ → List Column → Option ℕ
find_column name i [] = none
find_column name i (c ∷ cs) = if same_name name c.name then some i else find_column name (suc i) cs

module _ {lib : Library} where
  abbrev pub refuse_closed : Act lib (Unit {0})
  refuse_closed = do
    closed ← gets (λ s. s.reader.is_closed)
    throw_if closed (nuodb (codes "The reader is closed."))

  -- `m_results->ref()`
  abbrev pub results : Act lib lib.Results
  results s = native_of s.reader.results s

  -- `ordinal < 0 || ordinal >= m_columns.Count`
  abbrev pub column_at : ℤ → Act lib (ℕ × Column)
  column_at ordinal = do
    columns ← gets (λ s. s.reader.columns)
    i ← checked (in_range ordinal (length columns)) index_out_of_range
    c ← checked (get_elem? columns i) index_out_of_range
    pure (i, c)

  -- A test of the column's type
  abbrev pub expect : (NuodbType → Bool) → Column → Act lib (Unit {0})
  expect test c = throw_if (not (test c.type)) invalid_cast

  -- `Depth`
  unfoldable pub depth : Act lib ℕ
  depth = refuse_closed >> pure 0

  unfoldable pub field_count : Act lib ℕ
  field_count = refuse_closed >> gets (λ s. length s.reader.columns)

  unfoldable pub visible_field_count : Act lib ℕ
  visible_field_count = refuse_closed >> pure 0

  unfoldable pub get_name : ℤ → Act lib Bytes
  get_name ordinal = do refuse_closed; c ← column_at ordinal; pure c.1.name

  unfoldable pub get_ordinal : String → Act lib ℕ
  get_ordinal name = do
    refuse_closed
    columns ← gets (λ s. s.reader.columns)
    checked (find_column name 0 columns) index_out_of_range

  -- `NextResult`
  unfoldable pub next_result : Act lib Bool
  next_result = refuse_closed >> pure false

  -- `Read`, which is also `MoveNext` of the enumerator
  unfoldable pub read : Act lib Bool
  read = do refuse_closed; r ← results; call (lib.next r)

  -- `GetEnumerator`: the enumerator holds the reader and nothing else.
  unfoldable pub get_enumerator : Act lib (Unit {0})
  get_enumerator = refuse_closed

  -- `GetProviderSpecificValues`: `base` is what the method of the base class does.
  unfoldable pub get_provider_specific_values : Act lib ℕ → Act lib ℕ
  get_provider_specific_values base = refuse_closed >> base

  -- `HasRows`, `RecordsAffected`, `GetByte`, `GetBytes`, `GetGuid`, `GetSchemaTable` and `IsDBNull`
  unfoldable pub unsupported : {A : Type 0} → Act lib A
  unsupported = refuse_closed >> throw not_supported

-- The value of `m`, and of `-(m + 1)`, both below `2 * half`
abbrev pub wrap : ℕ → ℕ → ℤ
wrap half m = if ltb m half then pos m else negsuc (half + half - 1 - m)

abbrev pub wrap_negative : ℕ → ℕ → ℤ
wrap_negative half m = if ltb m half then negsuc m else pos (half + half - 1 - m)

-- A cast to a signed integer type, whose values are from `-half` to `half - 1`
abbrev pub signed : ℕ → ℤ → ℤ
signed half (pos n) = wrap half (n % (half + half))
signed half (negsuc n) = wrap_negative half (n % (half + half))
