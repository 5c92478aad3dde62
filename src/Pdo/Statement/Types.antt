-- ===== src/Pdo/Statement/Types.antt =====
-- The types of columns and the values that are bound, from the client library to PDO.
use nuodb_drivers.Prelude.{
  ◌↔◌, ℕ, ◌+◌, ◌^◌, ◌<◌, ◌≤◌, true, Option, none, some, ◌≡◌, ◌≢◌, ◌⊎◌, refl, arith, get_elem?,
}
use nuodb_drivers.Prelude.Outcome.{ℤ, pos, negsuc, ok}
use nuodb_drivers.Zend.{HashTable}
use nuodb_drivers.Client.{Client, ColumnType, returns}
use nuodb_drivers.Machine.{to, Statement}
use nuodb_drivers.Session.{Stmt, Session}
use nuodb_drivers.Cpp.Statement.Columns.{sql_type_of, to_int}
use nuodb_drivers.Cpp.Jump.Columns
use nuodb_drivers.Pdo.Statement.Columns.{ParamType, described, stmt_get_col}

-- There is a description, for a code that is not 0.
abbrev pub CodeAndType : Option (ℕ × ParamType) → ℕ → Type 0
CodeAndType none t = ⊥
CodeAndType (some m) t = 0 < t

-- `getSqlType` gives every type of the client library that the driver names a code that is not 0,
-- and `nuodb_stmt_describe` describes a column with this code.
described_total :
    (t : ColumnType)
    → t ≢ ColumnType.other
    → CodeAndType (described (sql_type_of t)) (sql_type_of t)
unfolding described sql_type_of
described_total ColumnType.other h = absurd (h refl)
described_total _ h = omega arith

-- A value in the range of an `int` is bound as it is.
to_int_in_range :
    (v : ℤ)
    → ((n : ℕ) → v ≡ pos n → n < 2 ^ 31)
    → ((n : ℕ) → v ≡ negsuc n → n < 2 ^ 31)
    → to_int v ≡ v
unfolding to_int
to_int_in_range (pos n) h k = let lt = h n refl in ground arith
to_int_in_range (negsuc n) h k = let lt = k n refl in ground arith

-- A value outside of this range is bound as another value.
to_int_out_of_range :
    (n : ℕ) → 2 ^ 31 ≤ n → (to_int (pos n) ≢ pos n) × (to_int (negsuc n) ≢ negsuc n)
unfolding to_int
to_int_out_of_range n h = (ground arith, ground arith)

-- The range of an `int`
abbrev pub IsInt : ℤ → Type 0
IsInt (pos n) = n < 2 ^ 31
IsInt (negsuc n) = n < 2 ^ 31

-- A value is bound as it is if it is in the range of an `int`, and only then.
to_int_iff : (v : ℤ) → (to_int v ≡ v) ↔ IsInt v
to_int_iff (pos n) = ground (arith, to_int_out_of_range n, to_int_in_range (pos n))
to_int_iff (negsuc n) = ground (arith, to_int_out_of_range n, to_int_in_range (negsuc n))

module _ (client : Client) (zend : HashTable) where
  -- A column of type BOOLEAN or DOUBLE is read as NULL, with success, whatever its value: the
  -- client library is asked only for the type.
  stmt_get_col_lost :
      (x : Session client zend) (s : Stmt client zend) (p : ℕ) (cpp : Statement client)
      (r : client.Results) (colno : ℕ) (t : ColumnType) (w : client.World)
      → x.pdo.driver_data ≡ to s
      → s.stmt ≡ some p
      → get_elem? x.machine.heap p ≡ some (some cpp)
      → cpp.rs ≡ some r
      → client.column_type r (colno + 1) x.machine.world ≡ (returns t, w)
      → (t ≡ ColumnType.boolean) ⊎ (t ≡ ColumnType.double)
      → stmt_get_col client zend colno x
        ≡ (ok (true, none), record x { machine = record (x.machine) { world = w } })
  unfolding stmt_get_col Columns.get_sql_type
  stmt_get_col_lost x s p cpp r colno t w d e h rs ty k = ground arith
