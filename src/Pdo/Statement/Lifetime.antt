-- ===== src/Pdo/Statement/Lifetime.antt =====
-- What is left of a statement after it was deleted.
use nuodb_drivers.Prelude.{
  ℕ, zero, suc, Option, none, some, List, [], ◌∷◌, ◌≡◌, ◌∙◌, ap, refl, arith, Bytes, get_elem?, set,
}
use nuodb_drivers.Prelude.Outcome.{ℤ, fault}
use nuodb_drivers.Zend.{HashTable}
use nuodb_drivers.Client.{Client}
use nuodb_drivers.Machine.{to, Machine, Handle, DbHandle, Statement}
use nuodb_drivers.Session.{Stmt, Session}
use nuodb_drivers.Cpp.Statement.{destroy, get_generated_key_last_id}
use nuodb_drivers.Cpp.Jump.Stmt.{delete_stmt, keep_error}
use nuodb_drivers.Pdo.Driver.{handle_last_id}
use nuodb_drivers.Pdo.Statement.{stmt_dtor}

pub get_elem?-set_self {ℓ} :
    {A : Type ℓ} (xs : List A) (i : ℕ) (v : A) {a : A}
    → get_elem? xs i ≡ some a
    → get_elem? (set xs i v) i ≡ some v
get_elem?-set_self [] i v h = cc
get_elem?-set_self (x ∷ xs) zero v h = refl
get_elem?-set_self (x ∷ xs) (suc i) v h = get_elem?-set_self xs i v h

pub set-set {ℓ} : {A : Type ℓ} (xs : List A) (i : ℕ) (u v : A) → set (set xs i u) i v ≡ set xs i v
set-set [] i u v = refl
set-set (x ∷ xs) zero u v = refl
set-set (x ∷ xs) (suc i) u v = rw (set-set xs i u v)

module _ (client : Client) where
  -- `delete` frees the place of the statement and leaves the handle as it is, whether or not the
  -- client library throws.
  destroy_lem :
      (p : ℕ) (m : Machine client) (cpp : Statement client)
      → get_elem? m.heap p ≡ some (some cpp)
      → ((destroy client p m).1.heap ≡ set m.heap p none)
        × ((destroy client p m).1.driver_data ≡ m.driver_data)
  unfolding destroy
  destroy_lem p m cpp e = grind (arith, set-set)

  last_id_dangling :
      (lu : ℤ → ℕ) (fuel p : ℕ) (name : Option Bytes) (m : Machine client) (h : DbHandle client)
      (d : Handle client)
      → m.driver_data ≡ to h
      → h.db ≡ some d
      → d.last_stmt ≡ some p
      → get_elem? m.heap p ≡ some none
      → (handle_last_id client lu fuel name m).0 ≡ fault
  unfolding handle_last_id get_generated_key_last_id
  last_id_dangling lu fuel p name m h d e f g gone = ground arith

module _ (client : Client) (zend : HashTable) where
  delete_stmt_machine :
      (x : Session client zend) (s : Stmt client zend) (p : ℕ)
      → x.pdo.driver_data ≡ to s
      → s.stmt ≡ some p
      → (delete_stmt client zend x).1.machine ≡ (destroy client p x.machine).1
  unfolding delete_stmt keep_error
  delete_stmt_machine x s p e f = ground arith

  stmt_dtor_machine :
      (x : Session client zend) (s : Stmt client zend) (p : ℕ)
      → x.pdo.driver_data ≡ to s
      → s.stmt ≡ some p
      → (stmt_dtor client zend x).1.machine ≡ (destroy client p x.machine).1
  unfolding stmt_dtor
  stmt_dtor_machine x s p e f = ground (arith, delete_stmt_machine x s p e f)

  -- The connection keeps a pointer to the last statement that was made. Once this statement has
  -- been destroyed, asking for the last insert id follows the dangling pointer.
  pub last_id-stmt_dtor :
      (lu : ℤ → ℕ) (fuel : ℕ) (name : Option Bytes) (x : Session client zend) (s : Stmt client zend)
      (p : ℕ) (cpp : Statement client) (h : DbHandle client) (d : Handle client)
      → x.pdo.driver_data ≡ to s
      → s.stmt ≡ some p
      → get_elem? x.machine.heap p ≡ some (some cpp)
      → x.machine.driver_data ≡ to h
      → h.db ≡ some d
      → d.last_stmt ≡ some p
      → (handle_last_id client lu fuel name (stmt_dtor client zend x).1.machine).0 ≡ fault
  last_id-stmt_dtor lu fuel name x s p cpp h d e f g k l n =
      let kept = destroy_lem client p x.machine cpp g in
      let m' = (destroy client p x.machine).1 in
      rw (stmt_dtor_machine x s p e f) (
        last_id_dangling client lu fuel p name m' h d (kept.1 ∙ k) l n
          (ap (λ l. get_elem? l p) kept.0 ∙ get_elem?-set_self x.machine.heap p none g))
