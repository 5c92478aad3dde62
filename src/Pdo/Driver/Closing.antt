-- ===== src/Pdo/Driver/Closing.antt =====
-- How a connection is closed.
use nuodb_drivers.Prelude.{Bytes, ℕ, Bool, true, false, some, ◌≡◌, arith, ◌&&◌}
use nuodb_drivers.Prelude.Outcome.{ok}
use nuodb_drivers.Client.{Client, returns}
use nuodb_drivers.Machine.{Machine, Handle, DbHandle, to, dangling}
use nuodb_drivers.Cpp.Statement.{execute}
use nuodb_drivers.Cpp.Jump
use nuodb_drivers.Cpp.Jump.Doer.{do_statement, doer}
use nuodb_drivers.Pdo.Driver.{commit_if_auto, handle_closer, handle_doer}

module _ (client : Client) where
  -- `_commit_if_auto` of nuodb_driver.c, which reads the flags of the connection, does the same as
  -- `pdo_nuodb_db_handle_commit_if_auto`, which is given them, and has the same result.
  commit_if_auto-eq :
      (m : Machine client)
      → commit_if_auto client m ≡ Jump.commit_if_auto client m.in_txn m.auto_commit m
  unfolding commit_if_auto Jump.commit_if_auto
  commit_if_auto-eq m = ground arith

  commit_if_auto_lem :
      (m : Machine client) (h : DbHandle client) (d : Handle client)
      → m.driver_data ≡ to h
      → h.db ≡ some d
      → (r : Bool) × ((commit_if_auto client m).0 ≡ ok r)
        × ((commit_if_auto client m).1.driver_data ≡ to h)
  unfolding commit_if_auto Jump.commit Jump.rollback
  commit_if_auto_lem m h d e f = (m.in_txn && m.auto_commit, ground arith, ground arith)

  -- The client's world after the transaction that is open, if one is, has been ended.
  abbrev pub ended : Bool → Bool → client.Connection → client.World → client.World
  ended false auto con w = w
  ended true true con w = (client.commit con w).1
  ended true false con w = (client.rollback con w).1

  commit_if_auto-ended :
      (m : Machine client) (h : DbHandle client) (d : Handle client) (con : client.Connection)
      → m.driver_data ≡ to h
      → h.db ≡ some d
      → d.con ≡ some con
      → (commit_if_auto client m).1 ≡ record m { world = ended m.in_txn m.auto_commit con m.world }
  unfolding commit_if_auto Jump.commit Jump.rollback
  commit_if_auto-ended m h d con e f g = ground arith

  -- Closing a connection ends an open transaction first, by a commit with auto-commit and by a
  -- rollback without. Also if that fails the connection is then closed, if the client library can
  -- close it: the result is 1 and the driver's data are freed.
  pub handle_closer_lem :
      (m : Machine client) (h : DbHandle client) (d : Handle client) (con : client.Connection)
      (w : client.World)
      → m.driver_data ≡ to h
      → h.db ≡ some d
      → d.con ≡ some con
      → client.close_connection con (ended m.in_txn m.auto_commit con m.world) ≡ (returns tt, w)
      → ((handle_closer client m).0 ≡ ok true)
        × ((handle_closer client m).1 ≡ record m { driver_data = dangling; world = w })
  unfolding handle_closer Jump.close_connection Jump.delete_handle
  handle_closer_lem m h d con w e f g c =
      ground (arith, commit_if_auto_lem m h d e f, commit_if_auto-ended m h d con e f g)

  -- Without any assumption on the client library, closing an open handle returns 1 and frees the
  -- driver's data.
  handle_closer_total :
      (m : Machine client) (h : DbHandle client) (d : Handle client)
      → m.driver_data ≡ to h
      → h.db ≡ some d
      → ((handle_closer client m).0 ≡ ok true) × ((handle_closer client m).1.driver_data ≡ dangling)
  unfolding handle_closer Jump.close_connection Jump.delete_handle
  handle_closer_total m h d e f = ground (arith, commit_if_auto_lem m h d e f)

  jump_commit_if_auto-ended :
      (auto : Bool) (m : Machine client) (h : DbHandle client) (d : Handle client)
      (con : client.Connection)
      → m.driver_data ≡ to h
      → h.db ≡ some d
      → d.con ≡ some con
      → Jump.commit_if_auto client true auto m
        ≡ (ok auto, record m { world = ended true auto con m.world })
  unfolding Jump.commit_if_auto Jump.commit Jump.rollback
  jump_commit_if_auto-ended true m h d con e f g = ground arith
  jump_commit_if_auto-ended false m h d con e f g = ground arith

  do_statement-ended :
      (text : Bytes) (auto : Bool) (m made ran : Machine client) (p : ℕ) (h : DbHandle client)
      (d : Handle client) (con : client.Connection)
      → Jump.create_statement client (some text) m ≡ (ok (some p), made)
      → execute client p (record made { in_txn = true }) ≡ (ok tt, ran)
      → ran.driver_data ≡ to h
      → h.db ≡ some d
      → d.con ≡ some con
      → do_statement client text true auto m
        ≡ (ok true, record ran { world = ended true auto con ran.world })
  unfolding do_statement
  do_statement-ended text auto m made ran p h d con c x e f g =
      ground (arith, jump_commit_if_auto-ended auto ran h d con e f g)

  -- A statement that is executed at once, with success, inside of an open transaction ends the
  -- transaction, though the flag says that it is still open: the client library commits it with
  -- auto-commit, and without auto-commit it rolls it back, this statement included.
  pub handle_doer-ended :
      (text : Bytes) (m made ran : Machine client) (p : ℕ) (h : DbHandle client) (d : Handle client)
      (con : client.Connection)
      → m.in_txn ≡ true
      → Jump.create_statement client (some text) m ≡ (ok (some p), made)
      → execute client p (record made { in_txn = true }) ≡ (ok tt, ran)
      → ran.driver_data ≡ to h
      → h.db ≡ some d
      → d.con ≡ some con
      → handle_doer client text m
        ≡ (ok true, record ran { in_txn = true; world = ended true m.auto_commit con ran.world })
  unfolding handle_doer doer
  handle_doer-ended text m made ran p h d con t c x e f g =
      ground (arith, do_statement-ended text m.auto_commit m made ran p h d con c x e f g)
