-- ===== src/Prelude/Outcome.antt =====
-- Calls that may throw a C++ exception or run into undefined behaviour, over an explicit state.
use Prim.Native.Nat.{ℕ}
use mathlib.Core.Option.{Option, none, some}
use mathlib.Core.Path.{refl}
use mathlib.Core.Logic.{◌≢◌}
use nuodb_drivers.Prelude.Lists.{Bytes}

-- A signed error code; `negsuc n` is -(n + 1).
pub data ℤ : Type 0 where
  pos : ℕ → ℤ
  negsuc : ℕ → ℤ

-- `sql` is a `NuoDB::SQLException` with its code and its text, `unknown` any other exception.
pub data Exception : Type 0 where
  sql : ℤ → Bytes → Exception
  unknown : Exception

-- `fault` is undefined behaviour: a NULL or dangling pointer, an index outside of an array.
pub data Outcome (A : Type 0) : Type 0 where
  ok : A → Outcome A
  raise : Exception → Outcome A
  fault : Outcome A

-- A call on the state `S`. What was written before an exception stays written.
abbrev pub Call : Type 0 → Type 0 → Type 0
Call S A = S → Outcome A × S

abbrev pub continue : {S A B : Type 0} → (A → Call S B) → Outcome A × S → Outcome B × S
continue f (ok a, s) = f a s
continue f (raise e, s) = (raise e, s)
continue f (fault, s) = (fault, s)

infixl 5 ◌>>=◌ ◌>>◌
abbrev pub ◌>>=◌ : {S A B : Type 0} → Call S A → (A → Call S B) → Call S B
◌>>=◌ m f s = continue f (m s)

abbrev pub ◌>>◌ : {S A B : Type 0} → Call S A → Call S B → Call S B
m >> k = m >>= λ _. k

abbrev pub pure : {S A : Type 0} → A → Call S A
pure a s = (ok a, s)

abbrev pub crash : {S A : Type 0} → Call S A
crash s = (fault, s)

abbrev pub throw : {S A : Type 0} → Exception → Call S A
throw e s = (raise e, s)

abbrev pub gets : {S A : Type 0} → (S → A) → Call S A
gets f s = (ok (f s), s)

abbrev pub modify : {S : Type 0} → (S → S) → Call S (Unit {0})
modify f s = (ok tt, f s)

-- The target of a pointer that must not be NULL.
abbrev pub deref : {S A : Type 0} → Option A → Call S A
deref none = crash
deref (some a) = pure a

abbrev pub recover : {S A : Type 0} → (Exception → Call S A) → Outcome A × S → Outcome A × S
recover handler (ok a, s) = (ok a, s)
recover handler (raise e, s) = handler e s
recover handler (fault, s) = (fault, s)

-- `try { m } catch (…) { handler }`; undefined behaviour is not caught.
abbrev pub catch : {S A : Type 0} → Call S A → (Exception → Call S A) → Call S A
catch m handler s = recover handler (m s)

abbrev pub attempted :
    {S A B : Type 0} → (A → Call S B) → (Exception → Call S B) → Outcome A × S → Outcome B × S
attempted f handler (ok a, s) = f a s
attempted f handler (raise e, s) = handler e s
attempted f handler (fault, s) = (fault, s)

-- One step of a longer `try` block: `f` goes on with its value, and `handler` catches what it throws.
abbrev pub attempt :
    {S A B : Type 0} → Call S A → (A → Call S B) → (Exception → Call S B) → Call S B
attempt m f handler s = attempted f handler (m s)

-- How a call ends: with a value that satisfies `Q`, with an exception that satisfies `E`, or in
-- undefined behaviour.
abbrev pub Ends :
    {S A : Type 0} → (A → S → Type 0) → (Exception → S → Type 0) → Outcome A × S → Type 0
Ends Q E (ok a, s) = Q a s
Ends Q E (raise e, s) = E e s
Ends Q E (fault, s) = Unit

pub Ends-continue :
    {S A B : Type 0} (P : A → S → Type 0) (Q : B → S → Type 0) (E : Exception → S → Type 0)
    (f : A → Call S B) (p : Outcome A × S)
    → Ends P E p
    → ((a : A) (s : S) → P a s → Ends Q E (f a s))
    → Ends Q E (continue f p)
Ends-continue P Q E f (ok a, s) h k = k a s h
Ends-continue P Q E f (raise e, s) h k = h
Ends-continue P Q E f (fault, s) h k = h

pub Ends-recover :
    {S A : Type 0} (Q : A → S → Type 0) (D E : Exception → S → Type 0)
    (handler : Exception → Call S A) (p : Outcome A × S)
    → Ends Q D p
    → ((e : Exception) (s : S) → D e s → Ends Q E (handler e s))
    → Ends Q E (recover handler p)
Ends-recover Q D E handler (ok a, s) h k = h
Ends-recover Q D E handler (raise e, s) h k = k e s h
Ends-recover Q D E handler (fault, s) h k = h

-- Nothing is known of how a call ends.
pub Ends-any : {S A : Type 0} (p : Outcome A × S) → Ends (λ a s. Unit {0}) (λ e s. Unit {0}) p
Ends-any (ok a, s) = tt
Ends-any (raise e, s) = tt
Ends-any (fault, s) = tt

pub Ends-map :
    {S A : Type 0} (P Q : A → S → Type 0) (E : Exception → S → Type 0) (p : Outcome A × S)
    → Ends P E p
    → ((a : A) (s : S) → P a s → Q a s)
    → Ends Q E p
Ends-map P Q E (ok a, s) h k = k a s h
Ends-map P Q E (raise e, s) h k = h
Ends-map P Q E (fault, s) h k = h

pub Ends-weaken :
    {S A : Type 0} (P Q : A → S → Type 0) (D E : Exception → S → Type 0) (p : Outcome A × S)
    → Ends P D p
    → ((a : A) (s : S) → P a s → Q a s)
    → ((e : Exception) (s : S) → D e s → E e s)
    → Ends Q E p
Ends-weaken P Q D E (ok a, s) h k l = k a s h
Ends-weaken P Q D E (raise e, s) h k l = l e s h
Ends-weaken P Q D E (fault, s) h k l = h

-- What a call keeps, however it ends.
abbrev pub Keeping : {S A : Type 0} → (S → Type 0) → Call S A → Type 0
Keeping {S} P f = (s : S) → P s → Ends (λ a s'. P s') (λ e s'. P s') (f s)

pub Keeping-bind :
    {S A B : Type 0} (P : S → Type 0) (m : Call S A) (f : A → Call S B)
    → Keeping P m
    → ((a : A) → Keeping P (f a))
    → Keeping P (m >>= f)
Keeping-bind P m f h k s p =
    Ends-continue (λ a s'. P s') (λ b s'. P s') (λ e s'. P s') f (m s) (h s p) (λ a s' q. k a s' q)

pub Keeping-catch :
    {S A : Type 0} (P : S → Type 0) (m : Call S A) (f : Exception → Call S A)
    → Keeping P m
    → ((e : Exception) → Keeping P (f e))
    → Keeping P (catch m f)
Keeping-catch P m f h k s p =
    Ends-recover (λ a s'. P s') (λ e s'. P s') (λ e s'. P s') f (m s) (h s p) (λ e s' q. k e s' q)

pub Keeping-attempt :
    {S A B : Type 0} (P : S → Type 0) (m : Call S A) (f : A → Call S B) (g : Exception → Call S B)
    → Keeping P m
    → ((a : A) → Keeping P (f a))
    → ((e : Exception) → Keeping P (g e))
    → Keeping P (attempt m f g)
Keeping-attempt {S} {A} {B} P m f g h k l s p = go (m s) (h s p)
  where
    go :
        (r : Outcome A × S)
        → Ends (λ a s'. P s') (λ e s'. P s') r
        → Ends (λ b s'. P s') (λ e s'. P s') (attempted f g r)
    go (ok a, s') q = k a s' q
    go (raise e, s') q = l e s' q
    go (fault, s') q = q

-- A call that never runs into undefined behaviour.
abbrev pub Defined : {S A : Type 0} → Call S A → Type 0
Defined {S} f = (s : S) → (f s).0 ≢ fault

pub Defined-bind :
    {S A B : Type 0} (m : Call S A) (f : A → Call S B)
    → Defined m
    → ((a : A) → Defined (f a))
    → Defined (m >>= f)
Defined-bind {S} {A} {B} m f h k s = go (m s) (h s)
  where
    go : (p : Outcome A × S) → p.0 ≢ fault → (continue f p).0 ≢ fault
    go (ok a, s') n = k a s'
    go (raise e, s') n = λ x. cc
    go (fault, s') n = λ x. absurd (n refl)

pub Defined-catch :
    {S A : Type 0} (m : Call S A) (f : Exception → Call S A)
    → Defined m
    → ((e : Exception) → Defined (f e))
    → Defined (catch m f)
Defined-catch {S} {A} m f h k s = go (m s) (h s)
  where
    go : (p : Outcome A × S) → p.0 ≢ fault → (recover f p).0 ≢ fault
    go (ok a, s') n = n
    go (raise e, s') n = k e s'
    go (fault, s') n = λ x. absurd (n refl)

-- A call returns, with a value and a state that satisfy `Q`.
abbrev pub Succeeds : {S A : Type 0} → (A → S → Type 0) → Outcome A × S → Type 0
Succeeds Q (ok a, s) = Q a s
Succeeds Q (raise e, s) = ⊥
Succeeds Q (fault, s) = ⊥

pub Succeeds-continue :
    {S A B : Type 0} (P : A → S → Type 0) (Q : B → S → Type 0) (f : A → Call S B)
    (p : Outcome A × S)
    → Succeeds P p
    → ((a : A) (s : S) → P a s → Succeeds Q (f a s))
    → Succeeds Q (continue f p)
Succeeds-continue P Q f (ok a, s) h k = k a s h
Succeeds-continue P Q f (raise e, s) h k = absurd h
Succeeds-continue P Q f (fault, s) h k = absurd h

pub Succeeds-weaken :
    {S A : Type 0} (P Q : A → S → Type 0) (p : Outcome A × S)
    → Succeeds P p
    → ((a : A) (s : S) → P a s → Q a s)
    → Succeeds Q p
Succeeds-weaken P Q (ok a, s) h k = k a s h
Succeeds-weaken P Q (raise e, s) h k = absurd h
Succeeds-weaken P Q (fault, s) h k = absurd h
