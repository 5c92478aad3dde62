-- ===== src/Pdo/Prepare.antt =====
-- php_pdo/pdo_nuodb/nuodb_driver.c: how a statement is prepared, `nuodb_alloc_prepare_stmt` and
-- `nuodb_handle_preparer`.
pub mod Parameters
use nuodb_drivers.Prelude.{
  ℕ, ◌+◌, Bool, true, false, not, ◌&&◌, Option, none, some, List, [], ◌∷◌, Bytes, length, set,
  replicate, terminated, codes, ltb, leb, if◌then◌else◌,
}
use nuodb_drivers.Prelude.Outcome.{pos, ◌>>=◌, ◌>>◌, pure, crash, deref, modify}
use nuodb_drivers.Zend.{HashTable}
use nuodb_drivers.Client.{Client}
use nuodb_drivers.Machine.{to, Machine, Run}
use nuodb_drivers.Session.{Param, Stmt, Session, Act, on_machine, update_pdo}
use nuodb_drivers.Sql.Rewrite.{Scan, rewrite}
use nuodb_drivers.Cpp.Jump
use nuodb_drivers.Pdo.Driver.{set_error_code, record_error, handle_begin}

abbrev pub max_sql_len : ℕ
max_sql_len = 0x100000

abbrev pub blank_param : Param
blank_param = record { sqltype = 0; col_name = []; col_name_length = 0; len = 0; bytes = none }

-- `char col_name[32]`
abbrev pub col_name_size : ℕ
col_name_size = 32

-- The loop over the names, which never moves `index`: each name is written to the first place.
unfoldable pub fill_params : List Bytes → List Param → Option (List Param)
fill_params [] params = some params
fill_params (key ∷ keys) params =
    let rest = fill_params keys (
      set params 0 (record {
        sqltype = 0;
        col_name = key;
        col_name_length = length key;
        len = 0;
        bytes = none;
      })) in
    if leb (length key + 1) col_name_size then rest else none

abbrev some_params : List Bytes → Option (Option (List Param))
some_params [] = some none
some_params (k ∷ ks) = elim (fill_params (k ∷ ks) (replicate (length (k ∷ ks)) blank_param)) [
  | none ↦ none
  | some ps ↦ some (some ps)
]

module _ (client : Client) (zend : HashTable) where
  begin_if_auto : Run client Bool
  unfolding handle_begin record_error
  begin_if_auto m =
      (if m.auto_commit && not m.in_txn
          then (do
            begun ← handle_begin client
            elim begun [
              | true ↦ (modify λ m'. record m' { in_txn = true }) >> pure true
              | false ↦ record_error client >> pure false
            ])
          else pure true)
        m

  -- `pdo_nuodb_db_handle_create_statement` gets the buffer as a C string.
  make_statement : Scan zend → Run client (Option (ℕ × zend.Table))
  unfolding Jump.create_statement record_error
  make_statement s = do
    made ← Jump.create_statement client (some (terminated s.out))
    elim made [ none ↦ record_error client >> pure none | some p ↦ pure (some (p, s.names)) ]

  rewritten : Bytes → Run client (Option (ℕ × zend.Table))
  unfolding rewrite make_statement
  rewritten text = do s ← deref (rewrite zend text); make_statement s

  -- `nuodb_alloc_prepare_stmt`: the statement that was made and its named parameters; `none` is the
  -- result 0.
  unfoldable pub alloc_prepare_stmt : Bytes → Run client (Option (ℕ × zend.Table))
  unfolding begin_if_auto rewritten
  alloc_prepare_stmt text =
      if ltb max_sql_len (length text)
      then set_error_code client (codes "01004") >> pure none
      else (do begun ← begin_if_auto; elim begun [ true ↦ rewritten text | false ↦ pure none ])

  -- `S->in_params`, or `none` at a write outside of `col_name`
  unfoldable pub input_params : zend.Table → Option (Option (List Param))
  unfolding fill_params
  input_params names = some_params (zend.keys names)

  prepared : Bytes → ℕ × zend.Table → Act client zend Bool
  unfolding input_params
  prepared text (p, names) = do
    in_params ← deref (input_params names)
    update_pdo client zend (λ q. record q {
      driver_data = to (record {
        stmt = some p;
        sql = some text;
        name = [];
        exhausted = false;
        cursor_open = false;
        named_params = names;
        error_code = pos 0;
        error_msg = none;
        in_params = in_params;
        out_params = none;
      });
    })
    pure true

  -- `nuodb_handle_preparer`. On failure it calls `nuodb_stmt_dtor` on a NULL pointer.
  unfoldable pub handle_preparer : Bytes → Act client zend Bool
  unfolding alloc_prepare_stmt prepared record_error
  handle_preparer text = do
    made ← on_machine client zend (alloc_prepare_stmt text)
    elim made [
      | none ↦ on_machine client zend (record_error client) >> crash
      | some m ↦ prepared text m
    ]
