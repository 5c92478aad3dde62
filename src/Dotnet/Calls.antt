-- ===== src/Dotnet/Calls.antt =====
-- Calls of the .NET driver (dotnet/nuodb): they return, throw an exception of .NET, or use a native
-- NULL pointer.
use nuodb_drivers.Prelude.{
  ℕ, Bool, true, false, Option, none, some, [], ◌∷◌, Bytes, ltb, if◌then◌else◌,
}
use nuodb_drivers.Prelude.Outcome.{ℤ, pos, negsuc, sql, unknown}
use nuodb_drivers.Client.{Attempt, returns, throws}

-- `nuodb` is a `NuoDbException` with a message alone, `error_code` one that is made of an
-- `ErrorCodeException`, and `native` a C++ exception that gets through.
pub data Error : Type 0 where
  nuodb : Bytes → Error
  error_code : ℤ → Bytes → Error
  argument_null argument index_out_of_range argument_out_of_range : Error
  invalid_cast not_supported null_reference overflow native : Error

pub data Result (A : Type 0) : Type 0 where
  ok : A → Result A
  raises : Error → Result A
  undefined : Result A

abbrev pub Run : Type 0 → Type 0 → Type 0
Run S A = S → Result A × S

abbrev pub continue : {S A B : Type 0} → (A → Run S B) → Result A × S → Result B × S
continue f (ok a, s) = f a s
continue f (raises e, s) = (raises e, s)
continue f (undefined, s) = (undefined, s)

infixl 5 ◌>>=◌ ◌>>◌
abbrev pub ◌>>=◌ : {S A B : Type 0} → Run S A → (A → Run S B) → Run S B
◌>>=◌ m f s = continue f (m s)

abbrev pub ◌>>◌ : {S A B : Type 0} → Run S A → Run S B → Run S B
m >> k = m >>= λ _. k

abbrev pub pure : {S A : Type 0} → A → Run S A
pure a s = (ok a, s)

abbrev pub throw : {S A : Type 0} → Error → Run S A
throw e s = (raises e, s)

abbrev pub gets : {S A : Type 0} → (S → A) → Run S A
gets f s = (ok (f s), s)

abbrev pub modify : {S : Type 0} → (S → S) → Run S (Unit {0})
modify f s = (ok tt, f s)

-- `if (test) throw …;`
abbrev pub throw_if : {S : Type 0} → Bool → Error → Run S (Unit {0})
throw_if true e = throw e
throw_if false e = pure tt

-- What is behind a native pointer
abbrev pub native_of : {S A : Type 0} → Option A → Run S A
native_of none s = (undefined, s)
native_of (some a) s = (ok a, s)

-- The answer of the native library outside of a `try`, and in the block of one that makes a
-- `NuoDbException` of an `ErrorCodeException`
abbrev pub unguarded : {A : Type 0} → Attempt A → Result A
unguarded (returns a) = ok a
unguarded (throws e) = raises native

abbrev pub guarded : {A : Type 0} → Attempt A → Result A
guarded (returns a) = ok a
guarded (throws (sql code text)) = raises (error_code code text)
guarded (throws unknown) = raises native

-- How a call ends: with a value and a state that satisfy `Q`, or else in a state that satisfies `E`.
abbrev pub Post : {S A : Type 0} → (A → S → Type 0) → (S → Type 0) → Result A × S → Type 0
Post Q E (ok a, s) = Q a s
Post Q E (raises e, s) = E s
Post Q E (undefined, s) = E s

pub Post-continue :
    {S A B : Type 0} (P : A → S → Type 0) (D : S → Type 0) (Q : B → S → Type 0) (E : S → Type 0)
    (f : A → Run S B) (r : Result A × S)
    → Post P D r
    → ((a : A) (s : S) → P a s → Post Q E (f a s))
    → ((s : S) → D s → E s)
    → Post Q E (continue f r)
Post-continue P D Q E f (ok a, s) h k l = k a s h
Post-continue P D Q E f (raises e, s) h k l = l s h
Post-continue P D Q E f (undefined, s) h k l = l s h

pub Post-weaken :
    {S A : Type 0} (P Q : A → S → Type 0) (D E : S → Type 0) (r : Result A × S)
    → Post P D r
    → ((a : A) (s : S) → P a s → Q a s)
    → ((s : S) → D s → E s)
    → Post Q E r
Post-weaken P Q D E (ok a, s) h k l = k a s h
Post-weaken P Q D E (raises e, s) h k l = l s h
Post-weaken P Q D E (undefined, s) h k l = l s h

-- `i >= 0` of a place, and `p != NULL` of a pointer
abbrev pub is_some : {A : Type 0} → Option A → Bool
is_some none = false
is_some (some a) = true

-- A `String^`, which may be null
abbrev pub String : Type 0
String = Option Bytes

-- `String::IsNullOrEmpty`
abbrev pub is_null_or_empty : String → Bool
is_null_or_empty none = true
is_null_or_empty (some []) = true
is_null_or_empty (some (c ∷ cs)) = false

-- `index < 0 || index >= count`, or the index
abbrev pub in_range : ℤ → ℕ → Option ℕ
in_range (pos n) count = if ltb n count then some n else none
in_range (negsuc n) count = none

abbrev pub checked : {S A : Type 0} → Option A → Error → Run S A
checked none e = throw e
checked (some a) e = pure a
