-- ===== src/Pdo/Driver/AutoCommit.antt =====
-- The attributes of a connection that can be set, and the end of a transaction by a commit or a rollback.
use nuodb_drivers.Prelude.{Bool, true, false, some, ◌≡◌, ◌≢◌, refl, arith}
use nuodb_drivers.Prelude.Outcome.{Exception, fault, Ends, Ends-continue}
use nuodb_drivers.Client.{Client}
use nuodb_drivers.Machine.{Machine, Handle, DbHandle, to}
use nuodb_drivers.Cpp.Jump
use nuodb_drivers.Pdo.Driver.{
  record_error, handle_commit, end_transaction, refuse_auto_commit, fail, set_attribute, Attribute,
  autocommit, connection_status, client_version, server_version, server_info, fetch_table_names,
  other,
}

module _ (client : Client) where
  abbrev Never : Exception → Machine client → Type 0
  Never e m = ⊥

  -- The flags of the connection are as they were.
  abbrev SameFlags : Machine client → Machine client → Type 0
  SameFlags m m' = (m'.in_txn ≡ m.in_txn) × (m'.auto_commit ≡ m.auto_commit)

  commit-Ends : (m : Machine client) → Ends (λ r m'. SameFlags m m') Never (Jump.commit client m)
  unfolding Jump.commit
  commit-Ends m = ground arith

  handle_commit-Ends :
      (m : Machine client) → Ends (λ r m'. SameFlags m m') Never (handle_commit client m)
  unfolding handle_commit record_error
  handle_commit-Ends m =
      Ends-continue (λ r m'. SameFlags m m') (λ r m'. SameFlags m m') Never _ _ (commit-Ends m)
        (λ r m' h. ground arith)

  -- A result of 1 is a flag at the requested value, a result of 0 is no change.
  abbrev Switched : Machine client → Bool → Bool → Machine client → Type 0
  Switched m val true m' = m'.auto_commit ≡ val
  Switched m val false m' = SameFlags m m'

  fail-Ends :
      (m m' : Machine client) (val : Bool)
      → SameFlags m m'
      → Ends (Switched m val) Never (fail client m')
  unfolding fail
  fail-Ends m m' val h = h

  refuse_auto_commit-Ends :
      (m : Machine client) → Ends (Switched m true) Never (refuse_auto_commit client m)
  unfolding refuse_auto_commit
  refuse_auto_commit-Ends m = ground arith

  end_transaction-Ends :
      (m : Machine client) → Ends (Switched m false) Never (end_transaction client m)
  unfolding end_transaction
  end_transaction-Ends m =
      Ends-continue (λ r m'. SameFlags m m') (Switched m false) Never _ _ (handle_commit-Ends m)
        (elim [ true ↦ λ m' h. refl | false ↦ λ m' h. fail-Ends m m' false h ])

  handle_commit-fault :
      (m : Machine client) (h : DbHandle client) (d : Handle client)
      → m.driver_data ≡ to h
      → h.db ≡ some d
      → (handle_commit client m).0 ≢ fault
  unfolding handle_commit Jump.commit record_error
  handle_commit-fault m h d e f = ground arith

  set_attribute-fault :
      (val : Bool) (m : Machine client) (h : DbHandle client) (d : Handle client)
      → m.driver_data ≡ to h
      → h.db ≡ some d
      → (set_attribute client autocommit val m).0 ≢ fault
  unfolding set_attribute record_error
  set_attribute-fault val m h d e f = ground (arith, handle_commit-fault m h d e f)

  set_attribute-Switched :
      (val : Bool) (m : Machine client)
      → Ends (Switched m val) Never (set_attribute client autocommit val m)
  unfolding set_attribute
  set_attribute-Switched true m = ground (arith, refuse_auto_commit-Ends m)
  set_attribute-Switched false m = ground (arith, end_transaction-Ends m)

  -- What `nuodb_handle_set_attribute` promises for an attribute: it sets the flag of the auto-commit or
  -- leaves both flags as they are, it sets `fetch_table_names` of the handle, and refuses any other.
  abbrev pub Answers :
      Attribute → Machine client → DbHandle client → Bool → Bool → Machine client → Type 0
  Answers autocommit m h val done m' = Switched m val done m'
  Answers fetch_table_names m h val done m' =
      (done ≡ true) × (m'.driver_data ≡ to (record h { fetch_table_names = val })) × SameFlags m m'
  Answers _ m h val done m' = (done ≡ false) × SameFlags m m'

  -- On an open handle, what `nuodb_handle_set_attribute` says of its success is true, whatever the
  -- client library does. For PDO_ATTR_AUTOCOMMIT it returns 1 with the flag at the new value, or 0 with
  -- both flags of the connection as they were. For the attribute of the table names it returns 1 with
  -- the new value in the handle, for any other attribute 0, and both leave the flags of the connection.
  -- It lets no exception through and follows no NULL pointer.
  pub set_attribute-Ends :
      (a : Attribute) (val : Bool) (m : Machine client) (h : DbHandle client) (d : Handle client)
      → m.driver_data ≡ to h
      → h.db ≡ some d
      → Ends (Answers a m h val) Never (set_attribute client a val m)
        × ((set_attribute client a val m).0 ≢ fault)
  unfolding set_attribute fail record_error
  set_attribute-Ends autocommit val m h d e f =
      (set_attribute-Switched val m, set_attribute-fault val m h d e f)
  set_attribute-Ends fetch_table_names val m h d e f = ground (arith, e)
  set_attribute-Ends connection_status val m h d e f = ground arith
  set_attribute-Ends client_version val m h d e f = ground arith
  set_attribute-Ends server_version val m h d e f = ground arith
  set_attribute-Ends server_info val m h d e f = ground arith
  set_attribute-Ends other val m h d e f = ground arith
