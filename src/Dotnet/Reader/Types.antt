-- ===== src/Dotnet/Reader/Types.antt =====
-- dotnet/nuodb/datareader.cpp: the types of the values that a reader returns.
use nuodb_drivers.Prelude.{
  ℕ, Bool, true, false, Option, none, some, length, get_elem?, codes, ◌≡◌, refl, subst, arith,
}
use nuodb_drivers.Prelude.Outcome.{ℤ}
use nuodb_drivers.Dotnet.Calls.{
  Result, ok, raises, undefined, continue, nuodb, index_out_of_range, Post, Post-continue, ◌>>=◌,
  ◌>>◌, pure, in_range, checked, throw_if,
}
use nuodb_drivers.Dotnet.Library.{Library}
use nuodb_drivers.Dotnet.Parameters.{NuodbType}
use nuodb_drivers.Dotnet.Objects.{Column, State, Act}
use nuodb_drivers.Dotnet.Command.{Value}
use nuodb_drivers.Dotnet.Reader.{refuse_closed, column_at}
use nuodb_drivers.Dotnet.Reader.Values.{
  ClrType, clr_type, get_field_type, get_item, value_at, read_with, date_at, string_at,
}

module _ {lib : Library} where
  abbrev pub value_type : Value lib → ClrType
  value_type (Value.boolean b) = ClrType.boolean
  value_type (Value.integer n) = ClrType.int32
  value_type (Value.big_int n) = ClrType.int64
  value_type (Value.double x) = ClrType.double
  value_type (Value.date_time d) = ClrType.date_time
  value_type (Value.string b) = ClrType.string

  abbrev Always : {A : Type 0} → A → State lib → Type 0
  Always _ _ = Unit

  abbrev Typed : NuodbType → Value lib → State lib → Type 0
  Typed t v _ = value_type v ≡ clr_type t

  abbrev Nothing : State lib → Type 0
  Nothing _ = Unit

  any-Post : {A : Type 0} (r : Result A × State lib) → Post Always Nothing r
  any-Post (ok a, s) = tt
  any-Post (raises e, s) = tt
  any-Post (undefined, s) = tt

  made-Post :
      {A : Type 0} (t : NuodbType) (f : A → Value lib) (m : Act lib A) (s : State lib)
      → ((a : A) → value_type (f a) ≡ clr_type t)
      → Post (Typed t) Nothing ((m >>= λ a. pure (f a)) s)
  made-Post t f m s h =
      Post-continue Always Nothing (Typed t) Nothing (λ a. pure (f a)) (m s) (any-Post (m s))
        (λ a s' _. h a) (λ s' _. tt)

  value_at-Typed :
      (t : NuodbType) (i : ℕ) (s : State lib) → Post (Typed t) Nothing (value_at lib t i s)
  unfolding value_at
  value_at-Typed NuodbType.boolean i s =
      made-Post NuodbType.boolean Value.boolean (read_with lib lib.get_boolean i) s (λ a. refl)
  value_at-Typed NuodbType.integer i s =
      made-Post NuodbType.integer Value.integer (read_with lib lib.get_integer i) s (λ a. refl)
  value_at-Typed NuodbType.big_int i s =
      made-Post NuodbType.big_int Value.big_int (read_with lib lib.get_long i) s (λ a. refl)
  value_at-Typed NuodbType.double i s =
      made-Post NuodbType.double Value.double (read_with lib lib.get_double i) s (λ a. refl)
  value_at-Typed NuodbType.date i s =
      made-Post NuodbType.date Value.date_time (date_at lib i) s (λ a. refl)
  value_at-Typed NuodbType.time i s =
      made-Post NuodbType.time Value.date_time (date_at lib i) s (λ a. refl)
  value_at-Typed NuodbType.date_time i s =
      made-Post NuodbType.date_time Value.date_time (date_at lib i) s (λ a. refl)
  value_at-Typed NuodbType.string i s =
      made-Post NuodbType.string Value.string (string_at lib i) s (λ a. refl)

  pub closed-Post :
      {B : Type 0} (Q : B → State lib → Type 0) (E : State lib → Type 0) (f : Act lib B)
      (s : State lib)
      → (s.reader.is_closed ≡ false → Post Q E (f s))
      → E s
      → Post Q E ((refuse_closed >> f) s)
  closed-Post {B} Q E f s k l = go s.reader.is_closed refl
    where
      go :
          (b : Bool)
          → s.reader.is_closed ≡ b
          → Post Q E (continue (λ _. f) (throw_if b (nuodb (codes "The reader is closed.")) s))
      go true e = l
      go false e = k e

  pub column-Post :
      {B : Type 0} (Q : B → State lib → Type 0) (E : State lib → Type 0)
      (f : ℕ × Column → Act lib B) (o : ℤ) (s : State lib)
      → ((i : ℕ) (c : Column)
          → in_range o (length s.reader.columns) ≡ some i
          → get_elem? s.reader.columns i ≡ some c
          → Post Q E (f (i, c) s))
      → E s
      → Post Q E ((column_at o >>= f) s)
  column-Post {B} Q E f o s k l = go (in_range o (length s.reader.columns)) refl
    where
      at :
          (i : ℕ)
          → in_range o (length s.reader.columns) ≡ some i
          → (d : Option Column) → get_elem? s.reader.columns i ≡ d
          → Post Q E (continue f (continue (λ c. pure (i, c)) (checked d index_out_of_range s)))
      at i e none g = l
      at i e (some c) g = k i c e g

      go :
          (d : Option ℕ)
          → in_range o (length s.reader.columns) ≡ d
          → Post Q E (
              continue f (
                continue
                  (λ i.
                    checked (get_elem? s.reader.columns i) index_out_of_range >>= λ c. pure (i, c))
                  (checked d index_out_of_range s)))
      go none e = l
      go (some i) e = at i e (get_elem? s.reader.columns i) refl

  -- Where `GetFieldType` returns a type for a column, the value that the indexer returns for it in the
  -- same state, if it returns one, has that type.
  pub get_item-Typed :
      (o : ℤ) (t : ClrType) (s : State lib)
      → get_field_type lib o s ≡ (ok t, s)
      → Post (λ v s'. value_type v ≡ t) (λ s'. Unit) (get_item lib o s)
  unfolding get_item get_field_type
  get_item-Typed o t s h =
      closed-Post (λ v s'. value_type v ≡ t) (λ s'. Unit) _ s
        (λ e.
          column-Post (λ v s'. value_type v ≡ t) (λ s'. Unit) _ o s
            (λ i c a b.
              subst (λ u. Post (λ v s'. value_type v ≡ u) (λ s'. Unit) (value_at lib c.type i s))
                (ground (arith, e, a, b, h)) (value_at-Typed c.type i s))
            tt)
        tt
