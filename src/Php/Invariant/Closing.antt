-- ===== src/Php/Invariant/Closing.antt =====
-- Closing connections keeps the tables consistent.
use nuodb_drivers.Prelude.{ℕ, Option, none, some, ◌≡◌, ◌≢◌, refl, arith, Bytes, bytes_eq_iff}
use nuodb_drivers.Prelude.Outcome.{Ends, Ends-recover, Ends-weaken, pure}
use nuodb_drivers.Php.Library.{Library}
use nuodb_drivers.Php.Registry.{Conn, Tables, Process, put_conn, at_key}
use nuodb_drivers.Php.Connections.{set_error, close_and_delete, free_connection, disconnect}
use nuodb_drivers.Php.Invariant.{
  Kept, Keeps, Consistent, Preserves, Kept-Consistent, Kept-put_conn, Keeps-bind,
}
use nuodb_drivers.Php.Invariant.Results.{free_results-Keeps}

module _ (lib : Library) (d x : Option ℕ) where
  pub set_error-Keeps : (a : Option ℕ) (err : Bytes) → Keeps lib d x (set_error lib a err)
  unfolding set_error
  set_error-Keeps none err s k = ground arith
  set_error-Keeps (some a) err s k = grind (arith, Kept-put_conn lib d x)

module _ (lib : Library) (d : Option ℕ) where
  Kept-remove :
      (t : Tables lib) (a : ℕ) (c : Conn lib)
      → t.conns a ≡ some c
      → Kept lib d (some a) t
      → Kept lib d
          (some a)
          (put_conn lib a none (record t { conn_map = at_key lib t.conn_map c.hash none }))
  Kept-remove t a c e k = record {
    default_is = k.default_is;
    default_alive = λ b f. ground (arith, k.default_alive b f);
    mapped = λ j b f. ground (arith, k.mapped j b, bytes_eq_iff c.hash j);
    known = k.known;
    fresh_conns = λ b f. ground (arith, k.fresh_conns b f);
    fresh_results = k.fresh_results;
  }

  close_and_delete-Keeps : (a : ℕ) → Keeps lib d (some a) (close_and_delete lib a)
  unfolding close_and_delete
  close_and_delete-Keeps a =
      Keeps-bind lib d (some a) _ _ (free_results-Keeps lib d (some a) a)
        (λ u s k. grind (arith, Kept-remove))

  -- `nuodb_free_connection` lets no exception through.
  pub free_connection-Ends :
      (a : ℕ) (s : Process lib)
      → Kept lib d (some a) s.tables
      → Ends (λ u s'. Kept lib d (some a) s'.tables) (λ e s'. ⊥) (free_connection lib a s)
  unfolding free_connection
  free_connection-Ends a s k =
      Ends-recover (λ u s'. Kept lib d (some a) s'.tables) (λ e s'. Kept lib d (some a) s'.tables)
        (λ e s'. ⊥) (λ e. pure tt) (close_and_delete lib a s) (close_and_delete-Keeps a s k)
        (λ e s' h. h)

  pub Kept-doom : (a : ℕ) (t : Tables lib) → Kept lib d none t → Kept lib d (some a) t
  Kept-doom a t k = record {
    default_is = k.default_is;
    default_alive = λ b f. ground (arith, k.default_alive b f);
    mapped = k.mapped;
    known = k.known;
    fresh_conns = k.fresh_conns;
    fresh_results = k.fresh_results;
  }

  Kept-spare : (a : ℕ) (t : Tables lib) → d ≢ some a → Kept lib d (some a) t → Kept lib d none t
  Kept-spare a t ne k = record {
    default_is = k.default_is;
    default_alive = λ b f. ground (arith, k.default_alive b f);
    mapped = k.mapped;
    known = k.known;
    fresh_conns = k.fresh_conns;
    fresh_results = k.fresh_results;
  }

  -- A connection that is not the default one can be freed.
  pub free_connection-Keeps : (a : ℕ) → d ≢ some a → Keeps lib d none (free_connection lib a)
  free_connection-Keeps a ne s k =
      Ends-weaken (λ r s'. Kept lib d (some a) s'.tables) (λ r s'. Kept lib d none s'.tables)
        (λ e s'. ⊥) (λ e s'. Kept lib d none s'.tables) (free_connection lib a s)
        (free_connection-Ends a s (Kept-doom a s.tables k)) (λ r s' h. Kept-spare a s'.tables ne h)
        (λ e s' h. absurd h)

module _ (lib : Library) where
  -- With no default connection there is none that could have been deleted.
  pub Kept-no_default :
      (d x : Option ℕ) (t : Tables lib)
      → Kept lib d x t
      → Kept lib none none (record t { default_connection = none })
  Kept-no_default d x t k = record {
    default_is = refl;
    default_alive = λ b e. cc;
    mapped = k.mapped;
    known = k.known;
    fresh_conns = k.fresh_conns;
    fresh_results = k.fresh_results;
  }

  free_other :
      (a : ℕ) (d : Option ℕ) (s : Process lib)
      → d ≢ some a
      → Kept lib d none s.tables
      → Ends (λ u s'. Consistent lib s') (λ e s'. Consistent lib s') (free_connection lib a s)
  free_other a d s ne k =
      Ends-weaken (λ r s'. Kept lib d none s'.tables) (λ r s'. Consistent lib s')
        (λ e s'. Kept lib d none s'.tables) (λ e s'. Consistent lib s') (free_connection lib a s)
        (free_connection-Keeps lib d a ne s k) (λ r s' h. Kept-Consistent lib d s' h)
        (λ e s' h. Kept-Consistent lib d s' h)

  pub disconnect-Preserves : (a : ℕ) → Preserves lib (disconnect lib a)
  unfolding disconnect
  disconnect-Preserves a s c =
      let t = s.tables in
      let s0 : Process lib = record s { tables = record t { default_connection = none } } in
      ground (
        arith,
        free_other a none s0 (λ e. cc) (Kept-no_default t.default_connection none t c),
        free_other a t.default_connection s,
      )
