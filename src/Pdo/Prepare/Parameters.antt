-- ===== src/Pdo/Prepare/Parameters.antt =====
-- The array of input parameters, and the limit on the length of a statement.
use nuodb_drivers.Prelude.{
  suc, ◌+◌, ◌≤◌, ◌<◌, none, some, List, [], ◌∷◌, ◌++◌, ◌≡◌, arith, Bytes, length, length-append,
  lt→ltb, replicate, codes,
}
use nuodb_drivers.Prelude.Outcome.{ok, fault}
use nuodb_drivers.Zend.{HashTable}
use nuodb_drivers.Client.{Client}
use nuodb_drivers.Machine.{Machine}
use nuodb_drivers.Session.{Param, Session}
use nuodb_drivers.Pdo.Driver.{record_error}
use nuodb_drivers.Pdo.Prepare.{
  max_sql_len, blank_param, col_name_size, fill_params, some_params, input_params,
  alloc_prepare_stmt, handle_preparer,
}

-- Each name fits into `col_name`, with the byte behind it that is copied too.
abbrev pub Fit : List Bytes → Type 0
Fit [] = Unit
Fit (k ∷ ks) = (length k + 1 ≤ col_name_size) × Fit ks

-- The parameter of a name before it is bound.
abbrev pub named_param : Bytes → Param
named_param k = record {
  sqltype = 0;
  col_name = k;
  col_name_length = length k;
  len = 0;
  bytes = none;
}

fill_params-last :
    (ks : List Bytes) (k : Bytes) (p : Param) (ps : List Param)
    → Fit (ks ++ k ∷ [])
    → fill_params (ks ++ k ∷ []) (p ∷ ps) ≡ some (named_param k ∷ ps)
unfolding fill_params
fill_params-last [] k p ps h = ground arith
fill_params-last (j ∷ ks) k p ps h = ground (arith, fill_params-last ks k (named_param j) ps h.1)

fill_params-overrun :
    (ks js : List Bytes) (k : Bytes) (ps : List Param)
    → col_name_size < length k + 1
    → fill_params (ks ++ k ∷ js) ps ≡ none
unfolding fill_params
fill_params-overrun [] js k ps h = ground arith
fill_params-overrun (j ∷ ks) js k (p ∷ ps) h =
    ground (arith, fill_params-overrun ks js k (named_param j ∷ ps) h)
fill_params-overrun (j ∷ ks) js k [] h = ground (arith, fill_params-overrun ks js k [] h)

some_params-last :
    (ks : List Bytes) (k : Bytes)
    → Fit (ks ++ k ∷ [])
    → some_params (ks ++ k ∷ []) ≡ some (some (named_param k ∷ replicate (length ks) blank_param))
some_params-last [] k h = ground (arith, fill_params-last [] k blank_param [] h)
some_params-last (j ∷ ks) k h =
    let size : length (ks ++ k ∷ []) ≡ suc (length ks) = omega (arith, length-append ks (k ∷ [])) in
    rw
      (
        fill_params-last (j ∷ ks) k blank_param (replicate (length (ks ++ k ∷ [])) blank_param) h,
        some_params,
      )
      (rw size)

some_params-overrun :
    (ks js : List Bytes) (k : Bytes)
    → col_name_size < length k + 1
    → some_params (ks ++ k ∷ js) ≡ none
some_params-overrun [] js k h =
    ground (arith, fill_params-overrun [] js k (blank_param ∷ replicate (length js) blank_param) h)
some_params-overrun (j ∷ ks) js k h = ground (
  arith,
  fill_params-overrun (j ∷ ks) js k (blank_param ∷ replicate (length (ks ++ k ∷ js)) blank_param) h,
)

module _ (client : Client) (zend : HashTable) where
  -- The array has a place for each named parameter, but only the first is filled, with the last
  -- name: the loop over the names never moves its index.
  input_params-last :
      (names : zend.Table) (ks : List Bytes) (k : Bytes)
      → zend.keys names ≡ ks ++ k ∷ []
      → Fit (ks ++ k ∷ [])
      → input_params client zend names
        ≡ some (some (named_param k ∷ replicate (length ks) blank_param))
  unfolding input_params
  input_params-last names ks k e h = rw e (some_params-last ks k h)

  -- A name of 31 bytes or more with its colon, which `pname` still holds, is copied past the end of
  -- `col_name`.
  input_params_overrun :
      (names : zend.Table) (ks js : List Bytes) (k : Bytes)
      → zend.keys names ≡ ks ++ k ∷ js
      → col_name_size < length k + 1
      → input_params client zend names ≡ none
  unfolding input_params
  input_params_overrun names ks js k e h = rw e (some_params-overrun ks js k h)

  -- A statement of more than 1 MiB is refused with SQLSTATE 01004: nothing is prepared and no
  -- transaction is begun.
  pub alloc_prepare_stmt_long :
      (text : Bytes) (m : Machine client)
      → max_sql_len < length text
      → alloc_prepare_stmt client zend text m ≡ (ok none, record m { error_code = codes "01004" })
  unfolding alloc_prepare_stmt
  alloc_prepare_stmt_long text m h = rw (lt→ltb _ _ h)

  -- Whenever nothing could be prepared, `nuodb_handle_preparer` runs into the NULL pointer.
  handle_preparer_failed :
      (text : Bytes) (x : Session client zend) (m : Machine client)
      → alloc_prepare_stmt client zend text x.machine ≡ (ok none, m)
      → (handle_preparer client zend text x).0 ≡ fault
  unfolding handle_preparer record_error
  handle_preparer_failed text x m e = ground arith
