-- ===== src/Cpp/Statement.antt =====
-- The class `PdoNuoDbStatement`: one prepared statement with its result sets.
pub mod Columns
use nuodb_drivers.Prelude.{
  ℕ, zero, suc, ◌+◌, Bool, true, false, Option, none, some, Bytes, bytes_eq, codes, if◌then◌else◌,
}
use nuodb_drivers.Prelude.Outcome.{
  ℤ, pos, Exception, sql, unknown, Call, ◌>>=◌, ◌>>◌, pure, deref, catch, throw,
}
use nuodb_drivers.Client.{Client}
use nuodb_drivers.Sql.Kind.{Kind, select_kind, update_kind, insert_kind, statement_kind}
use nuodb_drivers.Sql.Kind
use nuodb_drivers.Machine.{
  Machine, Handle, Statement, Run, call, throw_zend, db, load, store, alloc, free,
}

-- An error of `prepareStatement` becomes an exception of PHP, and is not passed on.
abbrev pub hy000 : Bytes
hy000 = codes "HY000"

module _ (client : Client) where
  open client use {Prepared, Results}

  -- `PdoNuoDbStatement(PdoNuoDbHandle *)`
  unfoldable pub create : Run client ℕ
  create =
      alloc client (record {
        sql = none;
        stmt = none;
        stmt_type = Kind.unknown;
        rs = none;
        rs_gen_keys = none;
      })

  abbrev close_results : Option Results → Run client (Unit {0})
  close_results none = pure tt
  close_results (some r) = call client (client.close_results r)

  abbrev close_statement : Option Prepared → Run client (Unit {0})
  close_statement none = pure tt
  close_statement (some p) = call client (client.close_statement p)

  close_all : ℕ → Run client (Unit {0})
  close_all p = do
    s ← load client p
    close_results s.rs
    store client p (record s { rs = none })
    close_results s.rs_gen_keys
    store client p (record s { rs = none; rs_gen_keys = none })
    close_statement s.stmt

  -- `delete stmt`: the destructor closes what is open. The memory is released also if it throws.
  unfoldable pub destroy : ℕ → Run client (Unit {0})
  unfolding close_all
  destroy p = do catch (close_all p) (λ e. free client p >> throw e); free client p

  abbrev report : Bytes → Exception → Run client (Option Prepared)
  report where_ (sql code text) = do throw_zend client hy000 code text; pure none
  report where_ unknown = do throw_zend client hy000 (pos 0) where_; pure none

  abbrev keep : Prepared → Run client (Option Prepared)
  keep p = pure (some p)

  abbrev is_insert : Kind → Bool
  is_insert insert_kind = true
  is_insert _ = false

  -- The statement is prepared, with its generated keys if it is an insert.
  unfoldable pub prepare : ℕ → client.Connection → Bytes → Run client (Unit {0})
  prepare p con text = do
    s ← load client p
    kind ← deref (statement_kind text)
    store client p (record s { sql = some text; stmt_type = kind })
    made ←
        catch (call client (client.prepare con text (is_insert kind)) >>= keep)
          (report (codes "UNKNOWN ERROR caught in PdoNuoDbStatement::createStatement()"))
    store client p (record s { sql = some text; stmt_type = kind; stmt = made })

  prepare_on : ℕ → Option client.Connection → Bytes → Run client (Unit {0})
  unfolding prepare
  prepare_on p none text = do s ← load client p; store client p (record s { sql = some text })
  prepare_on p (some con) text = prepare p con text

  -- `createStatement`, whose result nothing uses
  unfoldable pub create_statement : ℕ → Option Bytes → Run client (Unit {0})
  unfolding prepare_on
  create_statement p none = pure tt
  create_statement p (some text) = do h ← db client; prepare_on p h.con text

  run_kind : ℕ → Statement client → Prepared → Kind → Run client (Unit {0})
  run_kind p s q select_kind = do
    r ← call client (client.execute_query q)
    store client p (record s { rs = some r })
  run_kind p s q update_kind = call client (client.execute_update q)
  run_kind p s q insert_kind = do
    call client (client.execute_update q)
    keys ← call client (client.generated_keys q)
    store client p (record s { rs_gen_keys = keys })
  run_kind p s q Kind.unknown = call client (client.execute q)

  run_prepared : ℕ → Statement client → Option Prepared → Run client (Unit {0})
  unfolding run_kind
  run_prepared p s none = pure tt
  run_prepared p s (some q) = run_kind p s q s.stmt_type

  unfoldable pub execute : ℕ → Run client (Unit {0})
  unfolding run_prepared
  execute p = do s ← load client p; run_prepared p s s.stmt

  query_prepared : ℕ → Statement client → Option Prepared → Run client (Unit {0})
  query_prepared p s none = pure tt
  query_prepared p s (some q) = do
    r ← call client (client.execute_query q)
    store client p (record s { rs = some r })

  unfoldable pub execute_query : ℕ → Run client (Unit {0})
  unfolding query_prepared
  execute_query p = do s ← load client p; query_prepared p s s.stmt

  abbrev is_some : {A : Type 0} → Option A → Bool
  is_some none = false
  is_some (some _) = true

  unfoldable pub has_result_set : ℕ → Run client Bool
  has_result_set p = do s ← load client p; pure (is_some s.rs)

  unfoldable pub has_generated_keys_result_set : ℕ → Run client Bool
  has_generated_keys_result_set p = do s ← load client p; pure (is_some s.rs_gen_keys)

  abbrev count_of : Option ℕ → ℕ
  count_of none = 0
  count_of (some n) = n

  abbrev count_parameters : Option Prepared → Run client ℕ
  count_parameters none = pure 0
  count_parameters (some q) = do n ← call client (client.parameter_count q); pure (count_of n)

  unfoldable pub get_number_of_parameters : ℕ → Run client ℕ
  get_number_of_parameters p = do s ← load client p; count_parameters s.stmt

  -- A call on the open result set, or a default if there is none.
  abbrev pub on_results : {A : Type 0} → ℕ → A → (Results → Run client A) → Run client A
  on_results p default f = do s ← load client p; elim s.rs [ none ↦ pure default | some r ↦ f r ]

  unfoldable pub next : ℕ → Run client Bool
  next p = on_results p false (λ r. call client (client.next r))

  -- The index of the column that is called `name`, from `i` on.
  unfoldable pub find_column : Results → Bytes → ℕ → ℕ → Run client (Option ℕ)
  find_column r name zero i = pure none
  find_column r name (suc left) i = do
    col_name ← call client (client.column_name r i)
    elim (bytes_eq col_name name) [ true ↦ pure (some i) | false ↦ find_column r name left (i + 1) ]

  -- `while (_rs_gen_keys->next()) id = _rs_gen_keys->getInt(col_idx);` `none` is that the fuel
  -- ran out.
  unfoldable pub last_key : ℕ → Results → ℕ → ℤ → Run client (Option ℤ)
  last_key zero r col_idx id = pure none
  last_key (suc fuel) r col_idx id = do
    more ← call client (client.next r)
    elim more [
      | true ↦ call client (client.get_int r col_idx) >>= λ id'. last_key fuel r col_idx id'
      | false ↦ pure (some id)
    ]

  abbrev key_column : Results → Option Bytes → Run client (Option ℕ)
  key_column r none = pure (some 1)
  key_column r (some name) = do n ← call client (client.column_count r); find_column r name n 1

  close_keys : ℕ → Statement client → Results → Option ℤ → Run client (Option ℤ)
  close_keys p s r none = pure none
  close_keys p s r (some id) = do
    call client (client.close_results r)
    store client p (record s { rs_gen_keys = none })
    pure (some id)

  read_key : ℕ → ℕ → Statement client → Results → Option ℕ → Run client (Option ℤ)
  unfolding last_key close_keys
  read_key fuel p s r none = pure (some (pos 0))
  read_key fuel p s r (some col_idx) = do id ← last_key fuel r col_idx (pos 0); close_keys p s r id

  generated_key : ℕ → ℕ → Statement client → Option Bytes → Option Results → Run client (Option ℤ)
  unfolding read_key find_column
  generated_key fuel p s name none = pure (some (pos 0))
  generated_key fuel p s name (some r) = do col ← key_column r name; read_key fuel p s r col

  -- `getGeneratedKeyLastId`
  unfoldable pub get_generated_key_last_id : ℕ → ℕ → Option Bytes → Run client (Option ℤ)
  unfolding generated_key
  get_generated_key_last_id fuel p name = do
    s ← load client p
    generated_key fuel p s name s.rs_gen_keys
