-- ===== src/Php/Invariant/Histories.antt =====
-- The tables are consistent after any calls of a script.
use nuodb_drivers.Prelude.{ℕ, true, none, some, refl, subst, inl, inr, Option-cases, arith}
use nuodb_drivers.Prelude.Outcome.{Ends, Ends-continue, Ends-weaken, Keeping-bind, ◌>>◌}
use nuodb_drivers.Php.Library.{Library}
use nuodb_drivers.Php.Registry.{Process, update}
use nuodb_drivers.Php.Connections.{free_connection}
use nuodb_drivers.Php.Query.{free_resource}
use nuodb_drivers.Php.Requests.{
  Event, connects, disconnects, queries, frees, fetches, asks_error, next_request, initial,
  free_default, request, perform, Step, returns, throws, Reach, here, next,
}
use nuodb_drivers.Php.Invariant.{Kept, Consistent, Preserves, Keeps-Preserves}
use nuodb_drivers.Php.Invariant.Results.{free_result-Keeps}
use nuodb_drivers.Php.Invariant.Connections.{connect-Preserves}
use nuodb_drivers.Php.Invariant.Closing.{
  disconnect-Preserves, Kept-no_default, Kept-doom, free_connection-Ends,
}
use nuodb_drivers.Php.Invariant.Queries.{query-Keeps, error-Keeps, fetch-Keeps}

module _ (lib : Library) where
  initial-Consistent : (w : lib.World) → Consistent lib (record { tables = initial lib; world = w })
  initial-Consistent w = record {
    default_is = refl;
    default_alive = λ a e. cc;
    mapped = λ k a e. cc;
    known = λ r e. cc;
    fresh_conns = λ a h. refl;
    fresh_results = λ r h. refl;
  }

  free_default-Consistent :
      (d : ℕ) (s : Process lib)
      → Kept lib (some d) none s.tables
      → Ends
          (λ u s'. Consistent lib s')
          (λ e s'. Consistent lib s')
          ((free_connection lib d >> update lib (λ t. record t { default_connection = none })) s)
  free_default-Consistent d s k =
      Ends-continue (λ u s'. Kept lib (some d) (some d) s'.tables) (λ u s'. Consistent lib s')
        (λ e s'. Consistent lib s') (λ u. update lib (λ t. record t { default_connection = none }))
        (free_connection lib d s)
        (Ends-weaken (λ u s'. Kept lib (some d) (some d) s'.tables)
          (λ u s'. Kept lib (some d) (some d) s'.tables) (λ e s'. ⊥) (λ e s'. Consistent lib s')
          (free_connection lib d s)
          (free_connection-Ends lib (some d) d s (Kept-doom lib (some d) d s.tables k))
          (λ u s' h. h) (λ e s' h. absurd h))
        (λ u s' h. Kept-no_default lib (some d) (some d) s'.tables h)

  request-Preserves : Preserves lib (request lib)
  unfolding request free_default
  request-Preserves s c = elim (Option-cases s.tables.default_connection) [
    | inl e ↦ ground (arith, Kept-no_default lib s.tables.default_connection none s.tables c)
    | inr (d, e) ↦
        ground (arith, free_default-Consistent d s (subst (λ o. Kept lib o none s.tables) e c))
  ]

  perform-Preserves : (e : Event) → Preserves lib (perform lib e)
  unfolding perform free_resource
  perform-Preserves (connects p) =
      Keeping-bind (Consistent lib) _ _ (connect-Preserves lib p) (λ r s c. c)
  perform-Preserves (disconnects a) = disconnect-Preserves lib a
  perform-Preserves (queries text link) =
      Keeping-bind (Consistent lib) _ _
        (Keeps-Preserves lib _ (λ d. query-Keeps lib d none text link)) (λ r s c. c)
  perform-Preserves (frees r) = Keeps-Preserves lib _ (λ d. free_result-Keeps lib d none r true)
  perform-Preserves (fetches r mode) =
      Keeping-bind (Consistent lib) _ _ (Keeps-Preserves lib _ (λ d. fetch-Keeps lib d none r mode))
        (λ r s c. c)
  perform-Preserves (asks_error link) =
      Keeping-bind (Consistent lib) _ _ (Keeps-Preserves lib _ (λ d. error-Keeps lib d none link))
        (λ r s c. c)
  perform-Preserves next_request = request-Preserves

  Step-Consistent : {s s' : Process lib} → Step lib s s' → Consistent lib s → Consistent lib s'
  Step-Consistent {s} {s'} (returns e h) c =
      subst (Ends (λ u t. Consistent lib t) (λ x t. Consistent lib t)) h (perform-Preserves e s c)
  Step-Consistent {s} {s'} (throws e x h) c =
      subst (Ends (λ u t. Consistent lib t) (λ x t. Consistent lib t)) h (perform-Preserves e s c)

  Reach-Consistent : {s s' : Process lib} → Consistent lib s → Reach lib s s' → Consistent lib s'
  Reach-Consistent c here = c
  Reach-Consistent c (next r st) = Step-Consistent st (Reach-Consistent c r)

  -- Over the whole life of the process, whatever scripts call and whatever the client library
  -- does, as long as no call runs into undefined behaviour: the default connection, the connections
  -- that `conn_map` finds and the registered results have not been deleted, and `conn_map` finds
  -- each connection by its own hash.
  pub Reach-initial :
      (w : lib.World) (s : Process lib)
      → Reach lib (record { tables = initial lib; world = w }) s
      → Consistent lib s
  Reach-initial w s r = Reach-Consistent (initial-Consistent w) r
