-- ===== src/Pdo/Statement/Binding.antt =====
-- The parameters of a statement under `nuodb_stmt_param_hook`.
use nuodb_drivers.Prelude.{
  ℕ, zero, suc, ◌+◌, ◌≤◌, ◌<◌, true, false, none, some, List, [], ◌∷◌, ◌++◌, ◌≡◌, ap, ◌≢◌, ◌⊎◌,
  refl, arith, Bytes, length, get_elem?, set, codes,
}
use nuodb_drivers.Prelude.Outcome.{ℤ, ok, fault}
use nuodb_drivers.Zend.{HashTable}
use nuodb_drivers.Client.{Client, returns}
use nuodb_drivers.Machine.{to, Statement, DbHandle}
use nuodb_drivers.Session.{Param, Stmt, Session}
use nuodb_drivers.Cpp.Statement.Columns.{to_int, sqltype_integer}
use nuodb_drivers.Cpp.Jump.Columns
use nuodb_drivers.Cpp.Jump
use nuodb_drivers.Pdo.Statement.Columns.{int_param}
use nuodb_drivers.Pdo.Statement.Lifetime.{get_elem?-set_self}
use nuodb_drivers.Pdo.Statement.Hook.{
  Event, alloc, exec_pre, normalize, free, integer, BoundParam, stmt_param_hook,
}

lt-length-set {ℓ} :
    {A : Type ℓ} (xs : List A) (i : ℕ) (v : A) {a : A}
    → get_elem? xs i ≡ some a
    → i < length (set xs i v)
lt-length-set [] i v h = cc
lt-length-set (x ∷ xs) zero v h = omega arith
lt-length-set (x ∷ xs) (suc i) v h = omega (arith, lt-length-set xs i v h)

module _ (client : Client) (zend : HashTable) where
  -- A parameter whose number is not below the number of parameters is refused at each event but
  -- the last: SQLSTATE HY093 is set, and the client library is not called.
  hook_out_of_range :
      (b : BoundParam) (event : Event) (x : Session client zend) (s : Stmt client zend)
      (h : DbHandle client) (ps : List Param) (n : ℕ)
      → x.pdo.driver_data ≡ to s
      → x.machine.driver_data ≡ to h
      → b.is_param ≡ true
      → s.in_params ≡ some ps
      → b.paramno ≡ some n
      → length ps ≤ n
      → event ≢ free
      → stmt_param_hook client zend b event x ≡ (
        ok (false, b),
        record x {
          machine = record (x.machine) {
            driver_data = to (record h { last_app_error = some (codes "Invalid parameter index") });
          };
          pdo = record (x.pdo) { error_code = codes "HY093" };
        },
      )
  unfolding stmt_param_hook Jump.set_last_app_error
  hook_out_of_range b free x s h ps n d e i p q le ne = absurd (ne refl)
  hook_out_of_range b _ x s h ps n d e i p q le ne = ground arith

  -- Without an array of input parameters, which is what `nuodb_handle_preparer` leaves to a
  -- statement that has no named one, a parameter with a number cannot be bound: at the events
  -- `alloc`, `normalize` and `exec_pre` the hook follows a NULL pointer.
  hook_positional :
      (b : BoundParam) (x : Session client zend) (s : Stmt client zend) (n : ℕ) (event : Event)
      → x.pdo.driver_data ≡ to s
      → b.is_param ≡ true
      → s.in_params ≡ none
      → b.paramno ≡ some n
      → (event ≡ alloc) ⊎ ((event ≡ normalize) ⊎ (event ≡ exec_pre))
      → (stmt_param_hook client zend b event x).0 ≡ fault
  unfolding stmt_param_hook
  hook_positional b x s n event d i p q k = ground arith

  -- A named integer parameter: `normalize` looks up its number and makes it an integer in the array.
  hook_normalize :
      (b : BoundParam) (x : Session client zend) (s : Stmt client zend) (ps : List Param) (n : ℕ)
      (name : Bytes) (v : Param)
      → x.pdo.driver_data ≡ to s
      → b.is_param ≡ true
      → b.paramno ≡ none
      → b.name ≡ some name
      → b.param_type ≡ int_param
      → zend.find (name ++ 0 ∷ []) s.named_params ≡ some n
      → s.in_params ≡ some ps
      → get_elem? ps n ≡ some v
      → stmt_param_hook client zend b normalize x ≡ (
        ok (true, record b { paramno = some n }),
        record x {
          pdo = record (x.pdo) {
            driver_data =
                to (record s {
                  in_params = some (set ps n (record v { sqltype = sqltype_integer }));
                });
          };
        },
      )
  unfolding stmt_param_hook
  hook_normalize b x s ps n name v d i p q t f ip g = ground arith

  hook_exec_pre :
      (b : BoundParam) (x : Session client zend) (s : Stmt client zend) (ps : List Param) (n p : ℕ)
      (v : Param) (z : ℤ) (cpp : Statement client) (q : client.Prepared) (w : client.World)
      → x.pdo.driver_data ≡ to s
      → b.is_param ≡ true
      → b.paramno ≡ some n
      → b.parameter ≡ integer z
      → s.in_params ≡ some ps
      → get_elem? ps n ≡ some v
      → v.sqltype ≡ sqltype_integer
      → n < length ps
      → s.stmt ≡ some p
      → get_elem? x.machine.heap p ≡ some (some cpp)
      → cpp.stmt ≡ some q
      → client.set_int q (n + 1) (to_int z) x.machine.world ≡ (returns tt, w)
      → stmt_param_hook client zend b exec_pre x
        ≡ (ok (true, b), record x { machine = record (x.machine) { world = w } })
  unfolding stmt_param_hook Columns.set_integer
  hook_exec_pre b x s ps n p v z cpp q w d i pn val ip g ty lt st hp cs e = ground arith

  -- Binding an integer by name and executing: the event `normalize` finds the number of the
  -- parameter, and at `exec_pre` the client library gets the value, as an `int`, for this parameter
  -- counted from 1.
  pub bind_named_integer :
      (b : BoundParam) (x : Session client zend) (s : Stmt client zend) (ps : List Param) (n p : ℕ)
      (name : Bytes) (v : Param) (z : ℤ) (cpp : Statement client) (q : client.Prepared)
      (w : client.World)
      → x.pdo.driver_data ≡ to s
      → b.is_param ≡ true
      → b.paramno ≡ none
      → b.name ≡ some name
      → b.param_type ≡ int_param
      → b.parameter ≡ integer z
      → zend.find (name ++ 0 ∷ []) s.named_params ≡ some n
      → s.in_params ≡ some ps
      → get_elem? ps n ≡ some v
      → s.stmt ≡ some p
      → get_elem? x.machine.heap p ≡ some (some cpp)
      → cpp.stmt ≡ some q
      → client.set_int q (n + 1) (to_int z) x.machine.world ≡ (returns tt, w)
      → let b' = record b { paramno = some n } in
        let x' = (stmt_param_hook client zend b normalize x).1 in
        ((stmt_param_hook client zend b normalize x).0 ≡ ok (true, b'))
        × ((stmt_param_hook client zend b' exec_pre x').0 ≡ ok (true, b'))
        × ((stmt_param_hook client zend b' exec_pre x').1.machine.world ≡ w)
  bind_named_integer b x s ps n p name v z cpp q w d i pn nm ty val f ip g st hp cs e =
      let v' = record v { sqltype = sqltype_integer } in
      let ps' = set ps n v' in
      let b' = record b { paramno = some n } in
      let s' = record s { in_params = some ps' } in
      let x' = record x { pdo = record (x.pdo) { driver_data = to s' } } in
      let first = hook_normalize b x s ps n name v d i pn nm ty f ip g in
      let second =
        hook_exec_pre b' x' s' ps' n p v' z cpp q w refl i refl val refl
          (get_elem?-set_self ps n v' g) refl (lt-length-set ps n v' g) st hp cs e in
      (
        ap (λ r. r.0) first,
        rw first (ap (λ r. r.0) second),
        rw first (ap (λ r. r.1.machine.world) second),
      )
