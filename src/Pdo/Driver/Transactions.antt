-- ===== src/Pdo/Driver/Transactions.antt =====
-- The transaction state of a connection under the methods of nuodb_driver.c.
use nuodb_drivers.Prelude.{
  ℕ, Bool, true, false, ◌≡◌, ◌≢◌, refl, arith, Bytes, if◌then◌else◌, List, [], ◌∷◌, ◌++◌, Option,
  some, length, get_elem?, set,
}
use nuodb_drivers.Prelude.Outcome.{
  pure, ok, fault, ◌>>◌, Exception, Ends, Ends-continue, Ends-recover, Ends-any, Ends-map,
}
use nuodb_drivers.Client.{Client}
use nuodb_drivers.Machine.{Machine, Handle, DbHandle, Statement, to, load, db}
use nuodb_drivers.Sql.Kind.{Kind, statement_kind}
use nuodb_drivers.Cpp.Statement.{create, create_statement, execute}
use nuodb_drivers.Cpp.Jump
use nuodb_drivers.Cpp.Jump.Doer.{doer, do_statement, report_failure}
use nuodb_drivers.Pdo.Driver.{record_error, handle_doer}

module _ (client : Client) where
  abbrev Never : Exception → Machine client → Type 0
  Never e m = ⊥

  report_failure-Ends :
      (b : Bool) (e : Exception) (m : Machine client)
      → Ends (λ r m'. (r ≡ false) × (m'.in_txn ≡ b)) Never (report_failure client b e m)
  unfolding report_failure Jump.set_last_app_error
  report_failure-Ends b e m = ground arith

  doer-Ends :
      (text : Bytes) (b auto : Bool) (m : Machine client)
      → Ends (λ r m'. m'.in_txn ≡ b) Never (doer client text b auto m)
  unfolding doer
  doer-Ends text b auto m =
      Ends-recover (λ r m'. m'.in_txn ≡ b) (λ e m'. Unit) Never (report_failure client b) _
        (Ends-continue (λ a m'. m'.in_txn ≡ b) (λ r m'. m'.in_txn ≡ b) (λ e m'. Unit) _ _
          (Ends-continue (λ a m'. Unit) (λ a m'. m'.in_txn ≡ b) (λ e m'. Unit) _
            (do_statement client text b auto m) (Ends-any (do_statement client text b auto m))
            (λ a m' h. refl))
          (λ a m' h. h))
        (λ e m' h.
          Ends-map (λ r m''. (r ≡ false) × (m''.in_txn ≡ b)) (λ r m''. m''.in_txn ≡ b) Never _
            (report_failure-Ends b e m') (λ r m'' k. k.1))

  handle_doer-in_txn :
      (text : Bytes) (m : Machine client)
      → Ends (λ r m'. m'.in_txn ≡ m.in_txn) Never (handle_doer client text m)
  unfolding handle_doer record_error
  handle_doer-in_txn text m =
      Ends-continue (λ r m'. m'.in_txn ≡ m.in_txn) _ Never _ _
        (doer-Ends text m.in_txn m.auto_commit m)
        (λ done m' h.
          elim done
            as (λ d.
              Ends (λ r m''. m''.in_txn ≡ m.in_txn) Never
                ((if d then pure true else (record_error client >> pure false)) m')) [
                  | true ↦ h
                  | false ↦ h
                ])

  -- A new statement stands at the end of the heap.
  get_elem?-append :
      (xs : List (Option (Statement client))) (y : Option (Statement client))
      → get_elem? (xs ++ y ∷ []) (length xs) ≡ some y
  get_elem?-append [] y = refl
  get_elem?-append (x ∷ xs) y = ground (arith, get_elem?-append xs y)

  set-append :
      (xs : List (Option (Statement client))) (y z : Option (Statement client))
      → set (xs ++ y ∷ []) (length xs) z ≡ xs ++ z ∷ []
  set-append [] y z = refl
  set-append (x ∷ xs) y z = rw (set-append xs y z)

  -- The handle is open, and a statement is at the place `p` of the heap.
  abbrev Alive : ℕ → Machine client → Type 0
  Alive p m = ((load client p m).0 ≢ fault) × ((db client m).0 ≢ fault)

  create_statement-Alive :
      (text : Bytes) (k : Kind) (m : Machine client) (h : DbHandle client) (d : Handle client)
      → m.driver_data ≡ to h
      → h.db ≡ some d
      → statement_kind text ≡ some k
      → ((Jump.create_statement client (some text) m).0 ≡ ok (some (length m.heap)))
        × Alive (length m.heap) (Jump.create_statement client (some text) m).1
  unfolding Jump.create_statement create create_statement
  create_statement-Alive text k m h d e f g = grind (arith, get_elem?-append, set-append)

  execute-fault :
      (p : ℕ) (m : Machine client)
      → Alive p m
      → ((execute client p m).0 ≢ fault) × ((db client (execute client p m).1).0 ≢ fault)
  unfolding execute
  execute-fault p m a = ground arith

  commit_if_auto-fault :
      (b auto : Bool) (m : Machine client)
      → (db client m).0 ≢ fault
      → ((Jump.commit_if_auto client b auto m).0 ≢ fault)
        × ((db client (Jump.commit_if_auto client b auto m).1).0 ≢ fault)
  unfolding Jump.commit_if_auto Jump.commit Jump.rollback
  commit_if_auto-fault b auto m a = ground arith

  Alive-set_in_txn :
      (p : ℕ) (b : Bool) (m : Machine client) → Alive p m → Alive p (record m { in_txn = b })
  Alive-set_in_txn p b m a = ground arith

  do_statement-fault :
      (text : Bytes) (b auto : Bool) (k : Kind) (m : Machine client) (h : DbHandle client)
      (d : Handle client)
      → m.driver_data ≡ to h
      → h.db ≡ some d
      → statement_kind text ≡ some k
      → ((do_statement client text b auto m).0 ≢ fault)
        × ((db client (do_statement client text b auto m).1).0 ≢ fault)
  unfolding do_statement
  do_statement-fault text b auto k m h d e f g =
      let made = (Jump.create_statement client (some text) m).1 in
      let start = record made { in_txn = true } in
      let c = create_statement-Alive text k m h d e f g in
      let x =
        execute-fault (length m.heap) start (Alive-set_in_txn (length m.heap) true made c.1) in
      ground (arith, c, x, commit_if_auto-fault b auto (execute client (length m.heap) start).1 x.1)

  report_failure-fault :
      (b : Bool) (x : Exception) (m : Machine client)
      → (db client m).0 ≢ fault
      → (report_failure client b x m).0 ≢ fault
  unfolding report_failure Jump.set_last_app_error
  report_failure-fault b x m a = ground arith

  doer-fault :
      (text : Bytes) (b auto : Bool) (k : Kind) (m : Machine client) (h : DbHandle client)
      (d : Handle client)
      → m.driver_data ≡ to h
      → h.db ≡ some d
      → statement_kind text ≡ some k
      → (doer client text b auto m).0 ≢ fault
  unfolding doer
  doer-fault text b auto k m h d e f g =
      let (o, n) = do_statement-fault text b auto k m h d e f g in
      grind (arith, o, n, report_failure-fault)

  handle_doer-fault :
      (text : Bytes) (k : Kind) (m : Machine client) (h : DbHandle client) (d : Handle client)
      → m.driver_data ≡ to h
      → h.db ≡ some d
      → statement_kind text ≡ some k
      → (handle_doer client text m).0 ≢ fault
  unfolding handle_doer record_error
  handle_doer-fault text k m h d e f g =
      ground (arith, doer-fault text m.in_txn m.auto_commit k m h d e f g)

  -- On an open handle, and with a text whose kind is read within its bounds, `nuodb_handle_doer`
  -- returns, and the transaction flag of the connection is then as it was, on success and on failure.
  -- No exception gets through and no pointer is followed that is NULL or dangling, whatever the
  -- client library does.
  pub handle_doer-Ends :
      (text : Bytes) (k : Kind) (m : Machine client) (h : DbHandle client) (d : Handle client)
      → m.driver_data ≡ to h
      → h.db ≡ some d
      → statement_kind text ≡ some k
      → Ends (λ r m'. m'.in_txn ≡ m.in_txn) Never (handle_doer client text m)
        × ((handle_doer client text m).0 ≢ fault)
  handle_doer-Ends text k m h d e f g =
      (handle_doer-in_txn text m, handle_doer-fault text k m h d e f g)
