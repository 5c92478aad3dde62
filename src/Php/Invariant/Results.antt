-- ===== src/Php/Invariant/Results.antt =====
-- Registering and freeing results keeps the tables consistent.
use nuodb_drivers.Prelude.{ℕ, Bool, true, false, Option, none, some, List, [], ◌∷◌, arith}
use nuodb_drivers.Prelude.Outcome.{◌>>=◌, ◌>>◌, pure}
use nuodb_drivers.Php.Library.{Library}
use nuodb_drivers.Php.Registry.{Tables, put_result, at, load_conn, store_conn, invalidate}
use nuodb_drivers.Php.Results.{
  close_results, close_statement, commit_result, erase_result, forget_result, release_result,
  free_known, free_result, free_all, free_results, add_result,
}
use nuodb_drivers.Php.Invariant.{
  Kept, Keeps, Alive, Kept-put_conn, Kept-put_result, Kept-invalidate, Keeps-bind, Keeps-catch,
  Keeps-pure, Keeps-if,
}

module _ (lib : Library) (d x : Option ℕ) where
  close_results-Keeps : (r : ℕ) → Keeps lib d x (close_results lib r)
  unfolding close_results
  close_results-Keeps r s k = grind (arith, Kept-put_result lib d x)

  commit_result-Keeps : (r : ℕ) → Keeps lib d x (commit_result lib r)
  unfolding commit_result
  commit_result-Keeps r s k = ground arith

  close_statement-Keeps : (r : ℕ) → Keeps lib d x (close_statement lib r)
  unfolding close_statement
  close_statement-Keeps r s k = grind (arith, Kept-put_result lib d x)

  Kept-forget :
      (t : Tables lib) (r : ℕ)
      → Kept lib d x t
      → Kept lib d x
          (put_result lib r none (record t { results_map = at lib t.results_map r false }))
  Kept-forget t r k = record {
    default_is = k.default_is;
    default_alive = k.default_alive;
    mapped = k.mapped;
    known = λ q f. ground (arith, k.known q);
    fresh_conns = k.fresh_conns;
    fresh_results = λ q f. ground (arith, k.fresh_results q f);
  }

  erase_result-Keeps : (r : ℕ) → Keeps lib d x (erase_result lib r)
  unfolding erase_result
  erase_result-Keeps r s k = grind (arith, Kept-put_conn lib d x, Kept-invalidate lib d x)

  forget_result-Keeps : (r : ℕ) (total : Bool) → Keeps lib d x (forget_result lib r total)
  unfolding forget_result
  forget_result-Keeps r total =
      Keeps-bind lib d x _ _
        (Keeps-if lib d x total _ _ (erase_result-Keeps r) (Keeps-pure lib d x tt))
        (λ a s k. Kept-forget s.tables r k)

  release_result-Keeps : (r : ℕ) (total : Bool) → Keeps lib d x (release_result lib r total)
  unfolding release_result
  release_result-Keeps r total =
      Keeps-bind lib d x _ _
        (Keeps-bind lib d x _ _
          (Keeps-bind lib d x _ _ (close_results-Keeps r) (λ a. commit_result-Keeps r))
          (λ a. close_statement-Keeps r))
        (λ a. forget_result-Keeps r total)

  free_known-Keeps : (r : ℕ) (total : Bool) → Keeps lib d x (free_known lib r total)
  unfolding free_known
  free_known-Keeps r total s k = ground (
    arith,
    Keeps-catch lib d x (release_result lib r total) (λ e. pure tt) (release_result-Keeps r total)
        (λ e. Keeps-pure lib d x tt) s k,
  )

  pub free_result-Keeps : (r : ℕ) (total : Bool) → Keeps lib d x (free_result lib r total)
  unfolding free_result
  free_result-Keeps r total s k = ground (arith, free_known-Keeps r total s k)

  free_all-Keeps : (rs : List ℕ) → Keeps lib d x (free_all lib rs)
  unfolding free_all
  free_all-Keeps [] = Keeps-pure lib d x tt
  free_all-Keeps (r ∷ rs) =
      Keeps-bind lib d x _ _ (free_result-Keeps r false) (λ a. free_all-Keeps rs)

  clear-Keeps :
      (a : ℕ)
      → Keeps lib d x
          (do c' ← load_conn lib a; store_conn lib a (record c' { r = [] }); invalidate lib a 0)
  clear-Keeps a s k = grind (arith, Kept-put_conn lib d x, Kept-invalidate lib d x)

  load_conn-Keeps : (a : ℕ) → Keeps lib d x (load_conn lib a)
  load_conn-Keeps a s k = ground arith

  pub free_results-Keeps : (a : ℕ) → Keeps lib d x (free_results lib a)
  unfolding free_results
  free_results-Keeps a =
      Keeps-bind lib d x _ _ (load_conn-Keeps a)
        (λ c. Keeps-bind lib d x _ _ (free_all-Keeps c.r) (λ u. clear-Keeps a))

  Kept-register :
      (t : Tables lib) (r : ℕ)
      → Alive (t.results r)
      → Kept lib d x t
      → Kept lib d x (record t { results_map = at lib t.results_map r true })
  Kept-register t r alive k = record {
    default_is = k.default_is;
    default_alive = k.default_alive;
    mapped = k.mapped;
    known = λ q f. ground (arith, k.known q);
    fresh_conns = k.fresh_conns;
    fresh_results = k.fresh_results;
  }

  pub add_result-Keeps : (a : ℕ) (r : Option ℕ) → Keeps lib d x (add_result lib a r)
  unfolding add_result
  add_result-Keeps a none s k = tt
  add_result-Keeps a (some r) s k = grind (
    arith,
    Kept-put_conn lib d x,
    Kept-put_result lib d x,
    Kept-invalidate lib d x,
    Kept-register,
  )
