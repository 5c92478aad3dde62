-- ===== src/Php/Invariant.antt =====
-- What stays true of the tables of php/nuodb_php.cpp, and the rules by which calls keep it.
pub mod Results
pub mod Closing
pub mod Connections
pub mod Queries
pub mod Histories
use nuodb_drivers.Prelude.{
  ℕ, ◌+◌, ◌≤◌, Bool, true, false, Option, none, some, ◌≡◌, refl, sym, ◌∙◌, ◌⊎◌, inl, inr, arith,
  Bytes, bytes_eq, bytes_eq_iff, ◌==◌, if◌then◌else◌,
}
use nuodb_drivers.Prelude.Outcome.{
  Exception, Outcome, Ends, Ends-weaken, Keeping, Keeping-bind, Keeping-catch, ◌>>=◌, ◌>>◌, pure,
  catch,
}
use nuodb_drivers.Client.{Attempt}
use nuodb_drivers.Php.Library.{Library}
use nuodb_drivers.Php.Registry.{
  Conn, Result, Tables, Process, Run, call, put_conn, put_result, invalidate, at, at_key,
}

abbrev pub Alive : {A : Type 0} → Option A → Type 0
Alive none = ⊥
Alive (some a) = Unit

module _ (lib : Library) where
  abbrev pub Hashed : Bytes → Option (Conn lib) → Type 0
  Hashed k none = ⊥
  Hashed k (some c) = c.hash ≡ k

  -- The default connection is `d`. It has not been deleted, unless it is `doomed`; nor has any that
  -- `conn_map` finds, which has the hash of its key, nor any registered result.
  pub record Kept (d doomed : Option ℕ) (t : Tables lib) : Type 0 where
    pub default_is : t.default_connection ≡ d
    pub default_alive : (a : ℕ) → d ≡ some a → (doomed ≡ some a) ⊎ Alive (t.conns a)
    pub mapped : (k : Bytes) (a : ℕ) → t.conn_map k ≡ some a → Hashed k (t.conns a)
    pub known : (r : ℕ) → t.results_map r ≡ true → Alive (t.results r)
    pub fresh_conns : (a : ℕ) → t.next_conn ≤ a → t.conns a ≡ none
    pub fresh_results : (r : ℕ) → t.next_result ≤ r → t.results r ≡ none

module _ (lib : Library) (d x : Option ℕ) where
  pub Kept-put_conn :
      (t : Tables lib) (a : ℕ) (c c' : Conn lib)
      → t.conns a ≡ some c
      → c'.hash ≡ c.hash
      → Kept lib d x t
      → Kept lib d x (put_conn lib a (some c') t)
  Kept-put_conn t a c c' e h k = record {
    default_is = k.default_is;
    default_alive = λ b f. ground (arith, k.default_alive b f);
    mapped = λ j b f. ground (arith, k.mapped j b f);
    known = k.known;
    fresh_conns = λ b f. ground (arith, k.fresh_conns b f);
    fresh_results = k.fresh_results;
  }

  pub Kept-put_result :
      (t : Tables lib) (r : ℕ) (v v' : Result lib)
      → t.results r ≡ some v
      → Kept lib d x t
      → Kept lib d x (put_result lib r (some v') t)
  Kept-put_result t r v v' e k = record {
    default_is = k.default_is;
    default_alive = k.default_alive;
    mapped = k.mapped;
    known = λ q f. ground (arith, k.known q f);
    fresh_conns = k.fresh_conns;
    fresh_results = λ q f. ground (arith, k.fresh_results q f);
  }

  abbrev pub Good : Process lib → Type 0
  Good s = Kept lib d x s.tables

  abbrev pub Keeps : {A : Type 0} → Run lib A → Type 0
  Keeps f = Keeping Good f

  pub Keeps-bind :
      {A B : Type 0} (m : Run lib A) (f : A → Run lib B)
      → Keeps m
      → ((a : A) → Keeps (f a))
      → Keeps (m >>= f)
  Keeps-bind = Keeping-bind Good

  pub Keeps-catch :
      {A : Type 0} (m : Run lib A) (f : Exception → Run lib A)
      → Keeps m
      → ((e : Exception) → Keeps (f e))
      → Keeps (catch m f)
  Keeps-catch = Keeping-catch Good

  pub Keeps-pure : {A : Type 0} (a : A) → Keeps (pure a)
  Keeps-pure a s g = g

  pub Keeps-call : {A : Type 0} (f : lib.World → Attempt A × lib.World) → Keeps (call lib f)
  Keeps-call f s g = ground arith

  pub Keeps-if :
      {A : Type 0} (b : Bool) (m n : Run lib A) → Keeps m → Keeps n → Keeps (if b then m else n)
  Keeps-if true m n h k = h
  Keeps-if false m n h k = k

  pub Kept-invalidate : (a i : ℕ) → Keeps (invalidate lib a i)
  Kept-invalidate a i s k = record {
    default_is = k.default_is;
    default_alive = k.default_alive;
    mapped = k.mapped;
    known = λ q f. ground (arith, k.known q f);
    fresh_conns = k.fresh_conns;
    fresh_results = λ q f. ground (arith, k.fresh_results q f);
  }

module _ (lib : Library) where
  -- No default connection, no connection that `conn_map` finds and no registered result has been
  -- deleted, and `conn_map` finds each connection by its own hash.
  abbrev pub Consistent : Process lib → Type 0
  Consistent s = Kept lib s.tables.default_connection none s.tables

  abbrev pub Preserves : {A : Type 0} → Run lib A → Type 0
  Preserves f =
      (s : Process lib) → Consistent s → Ends (λ r s'. Consistent s') (λ e s'. Consistent s') (f s)

  pub Kept-Consistent : (d : Option ℕ) (s : Process lib) → Kept lib d none s.tables → Consistent s
  Kept-Consistent d s k = record {
    default_is = refl;
    default_alive = λ a e. k.default_alive a (sym k.default_is ∙ e);
    mapped = k.mapped;
    known = k.known;
    fresh_conns = k.fresh_conns;
    fresh_results = k.fresh_results;
  }

  pub Keeps-Preserves :
      {A : Type 0} (f : Run lib A) → ((d : Option ℕ) → Keeps lib d none f) → Preserves f
  Keeps-Preserves f h s c =
      let d = s.tables.default_connection in
      Ends-weaken (λ r s'. Kept lib d none s'.tables) (λ r s'. Consistent s')
        (λ e s'. Kept lib d none s'.tables) (λ e s'. Consistent s') (f s) (h d s c)
        (λ r s' k. Kept-Consistent d s' k) (λ e s' k. Kept-Consistent d s' k)
