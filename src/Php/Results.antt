-- ===== src/Php/Results.antt =====
-- php/nuodb_php.cpp: how results are registered and freed.
use nuodb_drivers.Prelude.{
  ℕ, zero, suc, Bool, true, false, Option, none, some, List, [], ◌∷◌, if◌then◌else◌,
}
use nuodb_drivers.Prelude.Outcome.{◌>>=◌, ◌>>◌, pure, crash, catch, deref}
use nuodb_drivers.Php.Library.{Library}
use nuodb_drivers.Php.Registry.{
  Run, call, reads, update, at, load_conn, load_result, store_conn, store_result, delete_result,
  invalidate,
}

-- The vector without its element at a place, which must be one of its places.
abbrev pub without : List ℕ → ℕ → Option (List ℕ)
without [] i = none
without (x ∷ xs) zero = some xs
without (x ∷ xs) (suc i) = elim (without xs i) [ none ↦ none | some ys ↦ some (x ∷ ys) ]

module _ (lib : Library) where
  -- `r->nc->r.erase(r->it)`
  unfoldable pub erase_result : ℕ → Run lib (Unit {0})
  erase_result r = do
    v ← load_result lib r
    c ← load_conn lib v.nc
    i ← deref v.it
    rest ← deref (without c.r i)
    store_conn lib v.nc (record c { r = rest })
    invalidate lib v.nc i

  unfoldable pub close_results : ℕ → Run lib (Unit {0})
  close_results r = do
    v ← load_result lib r
    elim v.rs [
      | none ↦ pure tt
      | some rs ↦ call lib (lib.close_results rs) >> store_result lib r (record v { rs = none })
    ]

  unfoldable pub close_statement : ℕ → Run lib (Unit {0})
  close_statement r = do
    v ← load_result lib r
    elim v.stmt [
      | none ↦ pure tt
      | some st ↦ call lib (lib.close_statement st) >> store_result lib r (record v { stmt = none })
    ]

  unfoldable pub commit_result : ℕ → Run lib (Unit {0})
  commit_result r = do
    v ← load_result lib r
    c ← load_conn lib v.nc
    if c.autocommit then call lib (lib.commit c.c) else pure tt

  unfoldable pub forget_result : ℕ → Bool → Run lib (Unit {0})
  unfolding erase_result
  forget_result r total_delete = do
    if total_delete then erase_result r else pure tt
    update lib (λ t. record t { results_map = at lib t.results_map r false })
    delete_result lib r

  -- The block under `try`, and what is left after an exception in it
  unfoldable pub release_result : ℕ → Bool → Run lib (Unit {0})
  unfolding close_results commit_result close_statement forget_result
  release_result r total_delete =
      close_results r >> commit_result r >> close_statement r >> forget_result r total_delete

  -- A registered result is only freed if its connection has results at all.
  unfoldable pub free_known : ℕ → Bool → Run lib (Unit {0})
  unfolding release_result
  free_known r total_delete = do
    v ← load_result lib r
    c ← load_conn lib v.nc
    elim c.r [ [] ↦ pure tt | x ∷ xs ↦ catch (release_result r total_delete) (λ e. pure tt) ]

  -- The function `nuodb_free_result`
  unfoldable pub free_result : ℕ → Bool → Run lib (Unit {0})
  unfolding free_known
  free_result r total_delete = do
    known ← reads lib (λ t. t.results_map r)
    if known then free_known r total_delete else pure tt

  unfoldable pub free_all : List ℕ → Run lib (Unit {0})
  free_all [] = pure tt
  free_all (r ∷ rs) = free_result r false >> free_all rs

  -- `nuodb_free_results`
  unfoldable pub free_results : ℕ → Run lib (Unit {0})
  unfolding free_all
  free_results a = do
    c ← load_conn lib a
    free_all c.r
    c' ← load_conn lib a
    store_conn lib a (record c' { r = [] })
    invalidate lib a 0

  -- `nuodb_add_result`: the insertion comes first, and a NULL result is then written to.
  unfoldable pub add_result : ℕ → Option ℕ → Run lib (Unit {0})
  add_result a none = crash
  add_result a (some r) = do
    c ← load_conn lib a
    invalidate lib a 0
    store_conn lib a (record c { r = r ∷ c.r })
    v ← load_result lib r
    store_result lib r (record v { it = some 0 })
    update lib (λ t. record t { results_map = at lib t.results_map r true })
