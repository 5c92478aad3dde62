-- ===== src/Tests/Driver.antt =====
-- The methods of a connection, at a machine with an open transaction.
use nuodb_drivers.Prelude.{
  ℕ, zero, suc, ◌+◌, true, false, none, some, [], ◌∷◌, ◌++◌, ◌≡◌, ◌≢◌, refl, arith, Bytes, codes,
  replicate, length, ◌<◌,
}
use nuodb_drivers.Prelude.Outcome.{Ends, ok, fault, pos}
use nuodb_drivers.Machine.{Machine, dangling}
use nuodb_drivers.Cpp.Jump
use nuodb_drivers.Cpp.Statement.{execute, create, create_statement}
use nuodb_drivers.Sql.Kind.{Kind, statement_kind, upper_loop, classify}
use nuodb_drivers.Pdo.Driver.{set_attribute, autocommit, handle_closer, handle_doer, handle_last_id}
use nuodb_drivers.Pdo.Driver.Transactions.{handle_doer-Ends}
use nuodb_drivers.Pdo.Driver.AutoCommit.{set_attribute-Ends, Answers}
use nuodb_drivers.Pdo.Driver.Closing.{handle_closer_lem, handle_doer-ended}
use nuodb_drivers.Pdo.Driver.LastId.{done, key, last_id-last_id}
use nuodb_drivers.Tests.Samples.{table, fake, db_handle, handle, statement, machine, unsigned_long}

-- An open transaction with auto-commit, and one without.
abbrev auto : Machine fake
auto = machine true true (statement [] none)

abbrev manual : Machine fake
manual = machine true false (statement [] none)

handle_doer-Ends_example :
    Ends (λ r m'. m'.in_txn ≡ true) (λ e m'. ⊥) (handle_doer fake (codes "FAIL") auto)
    × ((handle_doer fake (codes "FAIL") auto).0 ≢ fault)
unfolding statement_kind upper_loop classify
handle_doer-Ends_example =
    handle_doer-Ends fake (codes "FAIL") Kind.unknown auto db_handle handle refl refl refl

set_attribute-Ends_example :
    Ends
      (Answers fake autocommit manual db_handle true)
      (λ e m'. ⊥)
      (set_attribute fake autocommit true manual)
    × ((set_attribute fake autocommit true manual).0 ≢ fault)
set_attribute-Ends_example =
    set_attribute-Ends fake autocommit true manual db_handle handle refl refl

handle_closer_lem_example :
    ((handle_closer fake manual).0 ≡ ok true)
    × ((handle_closer fake manual).1
        ≡ record manual { driver_data = dangling; world = record { rows = 2; calls = 2 ∷ 4 ∷ [] } })
handle_closer_lem_example =
    handle_closer_lem fake manual db_handle handle 7 (record { rows = 2; calls = 2 ∷ 4 ∷ [] }) refl
      refl refl refl

-- The runs of `create_statement` and `execute` inside the transaction.
abbrev made : Machine fake
made = (Jump.create_statement fake (some (codes "DELETE FROM t")) manual).1

abbrev ran : Machine fake
ran = (execute fake 1 (record made { in_txn = true })).1

handle_doer-ended_example : handle_doer fake (codes "DELETE FROM t") manual ≡ (
  ok true,
  record ran { in_txn = true; world = record (ran.world) { calls = 4 ∷ ran.world.calls } },
)
unfolding Jump.create_statement execute create create_statement statement_kind upper_loop classify
handle_doer-ended_example =
    handle_doer-ended fake (codes "DELETE FROM t") manual made ran 1
      (record db_handle { db = some (record handle { last_stmt = some 1 }) })
      (record handle { last_stmt = some 1 }) 7 refl refl refl refl refl refl

abbrev names : table.Table
names = (codes ":a" ++ 0 ∷ [], 0) ∷ (codes ":b" ++ 0 ∷ [], 1) ∷ []

abbrev long_key : Bytes
long_key = b':' ∷ (replicate 31 b'x' ++ 0 ∷ [])

repeated : ℕ → Bytes
repeated zero = []
repeated (suc n) = b'x' ∷ repeated n

length-repeated : (n : ℕ) → length (repeated n) ≡ n
unfolding repeated
length-repeated zero = refl
length-repeated (suc n) = omega (arith, length-repeated n)

-- A statement of one byte over the limit.
longer : (n : ℕ) → n < length (repeated (n + 1))
longer n = omega (arith, length-repeated (n + 1))

-- A statement that has generated two keys.
abbrev inserted : Machine fake
inserted = machine true true (record (statement [] none) { rs_gen_keys = some 2 })

abbrev read_keys : Machine fake
read_keys = record (machine true true (statement [] none)) {
  world = record { rows = 0; calls = 14 ∷ 20 ∷ 20 ∷ [] };
}

last_id-last_id_example :
    (handle_last_id fake unsigned_long 3 none inserted ≡ (ok (some (some 5)), read_keys))
    × (handle_last_id fake unsigned_long 3 none read_keys ≡ (ok (some none), read_keys))
last_id-last_id_example =
    last_id-last_id fake unsigned_long 3 0 inserted db_handle handle
      (record (statement [] none) { rs_gen_keys = some 2 }) 2 (pos 5 ∷ pos 5 ∷ [])
      (record { rows = 0; calls = 20 ∷ 20 ∷ [] }) (record { rows = 0; calls = 14 ∷ 20 ∷ 20 ∷ [] })
      refl refl refl refl refl (key refl refl (key refl refl (done refl))) refl (omega arith)
