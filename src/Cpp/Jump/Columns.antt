-- ===== src/Cpp/Jump/Columns.antt =====
-- The `extern "C"` functions `pdo_nuodb_stmt_get_…` and `pdo_nuodb_stmt_set_…`.
use nuodb_drivers.Prelude.{ℕ, Option, Bytes}
use nuodb_drivers.Prelude.Outcome.{ℤ}
use nuodb_drivers.Zend.{HashTable}
use nuodb_drivers.Client.{Client}
use nuodb_drivers.Session.{Act}
use nuodb_drivers.Cpp.Statement.Columns
use nuodb_drivers.Cpp.Jump.Stmt.{on_stmt}

module _ (client : Client) (zend : HashTable) where
  unfoldable pub get_column_name : ℕ → Act client zend (Option Bytes)
  unfolding Columns.get_column_name
  get_column_name colno = on_stmt client zend (λ p. Columns.get_column_name client p colno)

  unfoldable pub get_sql_type : ℕ → Act client zend ℕ
  unfolding Columns.get_sql_type
  get_sql_type colno = on_stmt client zend (λ p. Columns.get_sql_type client p colno)

  unfoldable pub get_string : ℕ → Act client zend (Option Bytes)
  unfolding Columns.get_string
  get_string colno = on_stmt client zend (λ p. Columns.get_string client p colno)

  unfoldable pub get_integer : ℕ → Act client zend ℤ
  unfolding Columns.get_integer
  get_integer colno = on_stmt client zend (λ p. Columns.get_integer client p colno)

  unfoldable pub get_long : ℕ → Act client zend ℤ
  unfolding Columns.get_long
  get_long colno = on_stmt client zend (λ p. Columns.get_long client p colno)

  unfoldable pub get_date : ℕ → Act client zend ℤ
  unfolding Columns.get_date
  get_date colno = on_stmt client zend (λ p. Columns.get_date client p colno)

  unfoldable pub get_time : ℕ → Act client zend ℤ
  unfolding Columns.get_time
  get_time colno = on_stmt client zend (λ p. Columns.get_time client p colno)

  unfoldable pub get_timestamp : ℕ → Act client zend ℤ
  unfolding Columns.get_timestamp
  get_timestamp colno = on_stmt client zend (λ p. Columns.get_timestamp client p colno)

  unfoldable pub get_blob : ℕ → Act client zend (Option Bytes)
  unfolding Columns.get_blob
  get_blob colno = on_stmt client zend (λ p. Columns.get_blob client p colno)

  unfoldable pub get_clob : ℕ → Act client zend (Option Bytes)
  unfolding Columns.get_clob
  get_clob colno = on_stmt client zend (λ p. Columns.get_clob client p colno)

  unfoldable pub set_integer : ℕ → ℤ → Act client zend (Unit {0})
  unfolding Columns.set_integer
  set_integer paramno value = on_stmt client zend (λ p. Columns.set_integer client p paramno value)

  unfoldable pub set_string : ℕ → Bytes → Act client zend (Unit {0})
  unfolding Columns.set_string
  set_string paramno value = on_stmt client zend (λ p. Columns.set_string client p paramno value)

  unfoldable pub set_blob : ℕ → Option Bytes → Act client zend (Unit {0})
  unfolding Columns.set_blob
  set_blob paramno value = on_stmt client zend (λ p. Columns.set_blob client p paramno value)

  unfoldable pub set_clob : ℕ → Option Bytes → Act client zend (Unit {0})
  unfolding Columns.set_clob
  set_clob paramno value = on_stmt client zend (λ p. Columns.set_clob client p paramno value)
