-- ===== src/Dbi/Statement.antt =====
-- perl_dbi/dbdimp.cpp: the functions of a statement. FALSE is `false`, a NULL pointer `none`.
use nuodb_drivers.Prelude.{
  ℕ, zero, suc, ◌+◌, Bool, true, false, ◌||◌, Option, none, some, List, [], ◌∷◌, Bytes, codes,
  terminated, ◌==◌, if◌then◌else◌,
}
use nuodb_drivers.Prelude.Outcome.{negsuc, ◌>>=◌, ◌>>◌, pure, deref}
use nuodb_drivers.Dbi.Library.{Library}
use nuodb_drivers.Dbi.Handles.{Run, call, reads, set_sth, catch_sql, failing}
use nuodb_drivers.Dbi.Connection.{with_connection}

-- `memchr(value_str, 0, value_len)`
abbrev pub has_nul : Bytes → Bool
has_nul [] = false
has_nul (c ∷ cs) = c == 0 || has_nul cs

-- What `dbd_bind_ph` does: it croaks, or returns.
pub data Bound : Type 0 where
  croaks : Bound
  answers : Bool → Bound

module _ (lib : Library) where
  open lib use {Connection, Statement, ResultSet}

  unfoldable pub prepare_on : Bytes → Connection → Run lib Bool
  prepare_on text c = do
    st ← call lib (lib.prepare_statement c text)
    set_sth lib (λ h. record h { pstmt = some st; impset = true })
    n ← call lib (lib.parameter_count st)
    set_sth lib (λ h. record h { num_params = n })
    pure true

  -- `dbd_st_prepare_sv`
  unfoldable pub prepare : Bytes → Run lib Bool
  unfolding failing prepare_on
  prepare text =
      with_connection lib false (λ c. catch_sql lib (prepare_on text c) (failing lib false))

  unfoldable pub count_fields : Option ResultSet → Run lib Bool
  count_fields none = pure false
  count_fields (some rs) = do
    n ← call lib (lib.column_count rs)
    set_sth lib (λ h. record h { num_fields = n })
    pure true

  unfoldable pub run_statement : Statement → Run lib Bool
  unfolding count_fields
  run_statement st = do
    set_sth lib (λ h. record h { active = false; rs = none })
    is_query ← call lib (lib.execute st)
    rs ← if is_query then call lib (lib.get_result_set st) else call lib (lib.get_generated_keys st)
    set_sth lib (λ h. record h { rs = rs })
    count_fields rs

  unfoldable pub execute_prepared : Option Statement → Run lib Bool
  unfolding run_statement failing
  execute_prepared none = failing lib false (negsuc 0) (codes "Statement was not prepared.")
  execute_prepared (some st) = catch_sql lib (run_statement st) (failing lib false)

  -- `dbd_st_execute`
  unfoldable pub execute : Run lib Bool
  unfolding execute_prepared failing
  execute =
      with_connection lib false (λ c. do st ← reads lib (λ s. s.sth.pstmt); execute_prepared st)

  -- A field: `SvOK_off`, or a copy of the C string
  unfoldable pub field : ResultSet → ℕ → Run lib (Option Bytes)
  field rs i = do
    str ← call lib (lib.get_string rs i)
    is_null ← call lib (lib.was_null rs)
    if is_null then pure none else (deref str >>= λ v. pure (some (terminated v)))

  -- The fields that are left, from the number `i` on
  unfoldable pub fields : ResultSet → ℕ → ℕ → Run lib (List (Option Bytes))
  unfolding field
  fields rs zero i = pure []
  fields rs (suc left) i = do v ← field rs i; vs ← fields rs left (i + 1); pure (v ∷ vs)

  -- Whether there is a row. After an SQL error the function goes on.
  unfoldable pub next_row : ResultSet → Run lib Bool
  unfolding failing
  next_row rs = catch_sql lib (call lib (lib.next rs)) (failing lib true)

  unfoldable pub fetch_from : Option ResultSet → Run lib (Option (List (Option Bytes)))
  unfolding next_row fields
  fetch_from none = pure none
  fetch_from (some rs) = do
    n ← reads lib (λ s. s.sth.num_fields)
    more ← next_row rs
    if more
        then (fields rs n 1 >>= λ vs. pure (some vs))
        else (set_sth lib (λ h. record h { active = false }) >> pure none)

  -- `dbd_st_fetch`
  unfoldable pub fetch : Run lib (Option (List (Option Bytes)))
  unfolding fetch_from failing
  fetch = with_connection lib none (λ c. do rs ← reads lib (λ s. s.sth.rs); fetch_from rs)

  unfoldable pub close_results : Option Connection → Option ResultSet → Run lib (Unit {0})
  close_results (some c) (some rs) = call lib (lib.close_results rs)
  close_results _ _ = pure tt

  unfoldable pub close_statement : Option Connection → Option Statement → Run lib (Unit {0})
  close_statement (some c) (some st) = call lib (lib.close_statement st)
  close_statement _ _ = pure tt

  -- `dbd_st_destroy`
  unfoldable pub destroy : Run lib (Unit {0})
  unfolding close_results close_statement failing
  destroy = do
    catch_sql lib
        (do
          s ← reads lib (λ s. s)
          close_results s.dbh.conn s.sth.rs
          close_statement s.dbh.conn s.sth.pstmt)
        (failing lib tt)
    set_sth lib (λ h. record h { impset = false })

  unfoldable pub analyze_prepared : Option Statement → Run lib (Option Bytes)
  unfolding failing
  analyze_prepared none = failing lib none (negsuc 0) (codes "Statement was not prepared.")
  analyze_prepared (some st) =
      catch_sql lib (do text ← call lib (lib.analyze st 2); pure (some text)) (failing lib none)

  -- `dbd_st_analyze`
  unfoldable pub analyze : Run lib (Option Bytes)
  unfolding analyze_prepared
  analyze = do st ← reads lib (λ s. s.sth.pstmt); analyze_prepared st

  -- `setString` gets a C string.
  unfoldable pub send : Statement → ℕ → Bytes → Run lib (Unit {0})
  send st param value =
      if has_nul value
      then call lib (lib.set_bytes st param value)
      else call lib (lib.set_string st param (terminated value))

  unfoldable pub bind_prepared : Option Statement → ℕ → Bytes → Run lib Bound
  unfolding send failing
  bind_prepared none param value = pure (answers false)
  bind_prepared (some st) param value =
      catch_sql lib (send st param value >> pure (answers true)) (failing lib (answers false))

  -- `dbd_bind_ph`; the flag is `is_inout`.
  unfoldable pub bind_ph : Bool → ℕ → Bytes → Run lib Bound
  unfolding bind_prepared
  bind_ph true param value = pure croaks
  bind_ph false param value = do st ← reads lib (λ s. s.sth.pstmt); bind_prepared st param value
