-- ===== src/Cpp/Statement/Columns.antt =====
-- The accessors of `PdoNuoDbStatement`: columns of the open result set, and parameters. The driver
-- counts from 0, the client library from 1.
use nuodb_drivers.Prelude.{
  ℕ, ◌+◌, ◌-◌, ◌%◌, ◌^◌, ltb, if◌then◌else◌, [], ◌∷◌, codes, Option, none, some, Bytes,
}
use nuodb_drivers.Prelude.Outcome.{
  ℤ, pos, negsuc, Exception, sql, unknown, ◌>>=◌, ◌>>◌, pure, deref, catch,
}
use nuodb_drivers.Client.{Client, ColumnType}
use nuodb_drivers.Machine.{Run, call, throw_zend, db, load}
use nuodb_drivers.Cpp.Statement.{on_results, hy000}

-- `PDO_NUODB_SQLTYPE_…`
abbrev pub sqltype_boolean : ℕ
sqltype_boolean = 1

abbrev pub sqltype_integer : ℕ
sqltype_integer = 2

abbrev pub sqltype_bigint : ℕ
sqltype_bigint = 3

abbrev pub sqltype_double : ℕ
sqltype_double = 4

abbrev pub sqltype_string : ℕ
sqltype_string = 5

abbrev pub sqltype_date : ℕ
sqltype_date = 6

abbrev pub sqltype_time : ℕ
sqltype_time = 7

abbrev pub sqltype_timestamp : ℕ
sqltype_timestamp = 8

abbrev pub sqltype_array : ℕ
sqltype_array = 9

abbrev pub sqltype_blob : ℕ
sqltype_blob = 10

abbrev pub sqltype_clob : ℕ
sqltype_clob = 11

-- The `switch` of `getSqlType`.
unfoldable pub sql_type_of : ColumnType → ℕ
sql_type_of ColumnType.boolean = sqltype_boolean
sql_type_of ColumnType.integer = sqltype_integer
sql_type_of ColumnType.smallint = sqltype_integer
sql_type_of ColumnType.tinyint = sqltype_integer
sql_type_of ColumnType.bigint = sqltype_bigint
sql_type_of ColumnType.double = sqltype_double
sql_type_of ColumnType.varchar = sqltype_string
sql_type_of ColumnType.date = sqltype_date
sql_type_of ColumnType.time = sqltype_time
sql_type_of ColumnType.timestamp = sqltype_timestamp
sql_type_of ColumnType.blob = sqltype_blob
sql_type_of ColumnType.clob = sqltype_clob
sql_type_of ColumnType.other = 0

-- A `long` passed as an `int`: its value modulo 2^32, read as a signed number.
residue : ℤ → ℕ
residue (pos n) = n % 2 ^ 32
residue (negsuc n) = 2 ^ 32 - 1 - n % 2 ^ 32

unfoldable pub to_int : ℤ → ℤ
unfolding residue
to_int v = if ltb (residue v) (2 ^ 31) then pos (residue v) else negsuc (2 ^ 32 - 1 - residue v)

module _ (client : Client) where
  unfoldable pub get_column_count : ℕ → Run client ℕ
  get_column_count p = on_results client p 0 (λ r. call client (client.column_count r))

  abbrev report : Exception → Run client (Option Bytes)
  report (sql code text) = throw_zend client hy000 code text >> pure none
  report unknown =
      throw_zend client hy000 (pos 0)
        (codes "UNKNOWN ERROR caught in doNuoDbStatement::getColumnName()")
      >> pure none

  unfoldable pub get_column_name : ℕ → ℕ → Run client (Option Bytes)
  get_column_name p column =
      on_results client p none
        (λ r. catch (call client (client.column_label r (column + 1))) report)

  unfoldable pub get_sql_type : ℕ → ℕ → Run client ℕ
  unfolding sql_type_of
  get_sql_type p column =
      on_results client p 0
        (λ r. do t ← call client (client.column_type r (column + 1)); pure (sql_type_of t))

  unfoldable pub get_string : ℕ → ℕ → Run client (Option Bytes)
  get_string p column =
      on_results client p none (λ r. call client (client.get_string r (column + 1)))

  unfoldable pub get_integer : ℕ → ℕ → Run client ℤ
  get_integer p column =
      on_results client p (pos 0) (λ r. call client (client.get_int r (column + 1)))

  unfoldable pub get_long : ℕ → ℕ → Run client ℤ
  get_long p column =
      on_results client p (pos 0) (λ r. call client (client.get_long r (column + 1)))

  unfoldable pub get_timestamp : ℕ → ℕ → Run client ℤ
  get_timestamp p column =
      on_results client p (pos 0) (λ r. call client (client.get_timestamp r (column + 1)) >>= deref)

  unfoldable pub get_time : ℕ → ℕ → Run client ℤ
  get_time p column =
      on_results client p (pos 0) (λ r. call client (client.get_time r (column + 1)) >>= deref)

  unfoldable pub get_date : ℕ → ℕ → Run client ℤ
  get_date p column =
      on_results client p (pos 0) (λ r. call client (client.get_date r (column + 1)) >>= deref)

  -- `*ptr` and `*len`: an empty value is a NULL pointer.
  abbrev non_empty : Bytes → Option Bytes
  non_empty [] = none
  non_empty (c ∷ cs) = some (c ∷ cs)

  unfoldable pub get_blob : ℕ → ℕ → Run client (Option Bytes)
  get_blob p column =
      on_results client p none
        (λ r. do b ← call client (client.get_blob r (column + 1)); pure (non_empty b))

  unfoldable pub get_clob : ℕ → ℕ → Run client (Option Bytes)
  get_clob p column =
      on_results client p none
        (λ r. do b ← call client (client.get_clob r (column + 1)); pure (non_empty b))

  -- A call on the prepared statement, if there is one.
  abbrev on_prepared : ℕ → (client.Prepared → Run client (Unit {0})) → Run client (Unit {0})
  on_prepared p f = do s ← load client p; elim s.stmt [ none ↦ pure tt | some q ↦ f q ]

  unfoldable pub set_integer : ℕ → ℕ → ℤ → Run client (Unit {0})
  unfolding to_int
  set_integer p index value =
      on_prepared p (λ q. call client (client.set_int q (index + 1) (to_int value)))

  unfoldable pub set_string : ℕ → ℕ → Bytes → Run client (Unit {0})
  set_string p index value =
      on_prepared p (λ q. call client (client.set_string q (index + 1) value))

  unfoldable pub set_blob : ℕ → ℕ → Option Bytes → Run client (Unit {0})
  set_blob p index value = on_prepared p (λ q. do
    h ← db client
    con ← deref h.con
    call client (client.set_blob con q (index + 1) value))

  unfoldable pub set_clob : ℕ → ℕ → Option Bytes → Run client (Unit {0})
  set_clob p index value = on_prepared p (λ q. do
    h ← db client
    con ← deref h.con
    call client (client.set_clob con q (index + 1) value))
