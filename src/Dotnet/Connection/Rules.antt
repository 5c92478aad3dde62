-- ===== src/Dotnet/Connection/Rules.antt =====
-- dotnet/nuodb/connection.cpp: rules for the calls of the client library and the tests of a method.
use nuodb_drivers.Prelude.{
  Bool, true, false, Option, none, some, List, Bytes, [], ◌∷◌, ◌≡◌, ◌≢◌, refl,
}
use nuodb_drivers.Prelude.Outcome.{sql, unknown}
use nuodb_drivers.Client.{Attempt, returns, throws}
use nuodb_drivers.Dotnet.Calls.{continue, unguarded, guarded, Post, ◌>>=◌, ◌>>◌, throw_if, Error}
use nuodb_drivers.Dotnet.Library.{Library}
use nuodb_drivers.Dotnet.Objects.{State, Act, call, try_call, settle}
use nuodb_drivers.Dotnet.Connection.{open_or, require, refuse, finished, tests}

pub some-none : {A : Type 0} (a : A) → some a ≢ none
some-none a = λ e. cc

pub true-false : true ≢ false
true-false = λ e. cc

module _ {lib : Library} where
  pub call-Post :
      {A B : Type 0} (Q : B → State lib → Type 0) (E : State lib → Type 0)
      (g : lib.World → Attempt A × lib.World) (f : A → Act lib B) (s : State lib)
      → ((a : A) (w : lib.World) → Post Q E (f a (record s { world = w })))
      → ((w : lib.World) → E (record s { world = w }))
      → Post Q E ((call g >>= f) s)
  call-Post {A} Q E g f s k l = go (g s.world)
    where
      go : (r : Attempt A × lib.World) → Post Q E (continue f (settle unguarded r s))
      go (returns a, w) = k a w
      go (throws e, w) = l w

  pub try-Post :
      {A B : Type 0} (Q : B → State lib → Type 0) (E : State lib → Type 0)
      (g : lib.World → Attempt A × lib.World) (f : A → Act lib B) (s : State lib)
      → ((a : A) (w : lib.World) → Post Q E (f a (record s { world = w })))
      → ((w : lib.World) → E (record s { world = w }))
      → Post Q E ((try_call g >>= f) s)
  try-Post {A} Q E g f s k l = go (g s.world)
    where
      go : (r : Attempt A × lib.World) → Post Q E (continue f (settle guarded r s))
      go (returns a, w) = k a w
      go (throws (sql c t), w) = l w
      go (throws unknown, w) = l w

  pub open-Post :
      {B : Type 0} (Q : B → State lib → Type 0) (E : State lib → Type 0) (text : Bytes)
      (f : lib.Connection → Act lib B) (s : State lib)
      → ((c : lib.Connection) → s.conn.connection ≡ some c → Post Q E (f c s))
      → (s.conn.connection ≡ none → E s)
      → Post Q E ((open_or lib text >>= f) s)
  open-Post Q E text f s k l = go s.conn.connection refl
    where
      go :
          (o : Option lib.Connection)
          → s.conn.connection ≡ o
          → Post Q E (continue f (require lib text o s))
      go none e = l e
      go (some c) e = k c e

  pub throw_if-Post :
      {B : Type 0} (Q : B → State lib → Type 0) (E : State lib → Type 0) (t : Bool) (e : Error)
      (f : Act lib B) (s : State lib)
      → (t ≡ false → Post Q E (f s))
      → E s
      → Post Q E ((throw_if t e >> f) s)
  throw_if-Post Q E true e f s k l = l
  throw_if-Post Q E false e f s k l = k refl

  pub call-End :
      {A : Type 0} (Q : A → State lib → Type 0) (E : State lib → Type 0)
      (g : lib.World → Attempt A × lib.World) (s : State lib)
      → ((a : A) (w : lib.World) → Q a (record s { world = w }))
      → ((w : lib.World) → E (record s { world = w }))
      → Post Q E (call g s)
  call-End {A} Q E g s k l = go (g s.world)
    where
      go : (r : Attempt A × lib.World) → Post Q E (settle unguarded r s)
      go (returns a, w) = k a w
      go (throws e, w) = l w

  pub try-End :
      {A : Type 0} (Q : A → State lib → Type 0) (E : State lib → Type 0)
      (g : lib.World → Attempt A × lib.World) (s : State lib)
      → ((a : A) (w : lib.World) → Q a (record s { world = w }))
      → ((w : lib.World) → E (record s { world = w }))
      → Post Q E (try_call g s)
  try-End {A} Q E g s k l = go (g s.world)
    where
      go : (r : Attempt A × lib.World) → Post Q E (settle guarded r s)
      go (returns a, w) = k a w
      go (throws (sql c t), w) = l w
      go (throws unknown, w) = l w

  pub finished-Post :
      (Q : Unit {0} → State lib → Type 0) (E : State lib → Type 0) (t : Bool)
      (m : Act lib (Unit {0})) (s : State lib)
      → (t ≡ true → Post Q E (m s))
      → (t ≡ false → Q tt s)
      → Post Q E (finished lib t m s)
  finished-Post Q E true m s k l = k refl
  finished-Post Q E false m s k l = l refl

  pub refuse-Post :
      (tests : List (Bool × Error)) (s : State lib)
      → Post (λ _ s'. s' ≡ s) (λ s'. s' ≡ s) (refuse lib tests s)
  refuse-Post [] s = refl
  refuse-Post ((true, e) ∷ tests) s = refl
  refuse-Post ((false, e) ∷ tests) s = refuse-Post tests s
