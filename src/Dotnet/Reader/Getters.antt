-- ===== src/Dotnet/Reader/Getters.antt =====
-- dotnet/nuodb/datareader.cpp: the methods for one type, and the indexer.
use nuodb_drivers.Prelude.{ℕ, Bool, not, true, false, ◌≡◌, refl, sym, ◌∙◌, arith}
use nuodb_drivers.Prelude.Outcome.{ℤ}
use nuodb_drivers.Dotnet.Calls.{
  Result, throw_if, invalid_cast, ok, raises, undefined, continue, Post, ◌>>=◌, ◌>>◌, pure,
}
use nuodb_drivers.Dotnet.Library.{Library}
use nuodb_drivers.Dotnet.Parameters.{NuodbType}
use nuodb_drivers.Dotnet.Objects.{Column, State, Act}
use nuodb_drivers.Dotnet.Command.{Value}
use nuodb_drivers.Dotnet.Reader.{refuse_closed, column_at, expect}
use nuodb_drivers.Dotnet.Reader.Values.{
  get_item, value_at, read_with, date_at, string_at, get_int32, get_int64, get_double, get_string,
  get_date_time, is_integer, is_big_int, is_double, is_string, is_date_time,
}
use nuodb_drivers.Dotnet.Connection.Rules.{true-false}
use nuodb_drivers.Dotnet.Reader.Types.{closed-Post, column-Post}

module _ {lib : Library} where
  -- Where the first call returns a value, the second returns the same value, as one of its type, and
  -- leaves the same state.
  abbrev pub Agrees :
      {A : Type 0}
      → (A → Value lib)
      → Result A × State lib
      → Result (Value lib) × State lib
      → Type 0
  Agrees f r q = Post (λ a s'. q ≡ (ok (f a), s')) (λ s'. Unit) r

  agree :
      {A : Type 0} (f : A → Value lib) (r : Result A × State lib)
      (q : Result (Value lib) × State lib)
      → q ≡ continue (λ a. pure (f a)) r
      → Agrees f r q
  agree f (ok a, s) q e = e
  agree f (raises x, s) q e = tt
  agree f (undefined, s) q e = tt

  -- The method tests the type of the column, and then does what the indexer does for it.
  getter-Agrees :
      {A : Type 0} (f : A → Value lib) (test : NuodbType → Bool) (m : ℕ → Act lib A) (o : ℤ)
      (s : State lib)
      → ((t : NuodbType) (i : ℕ)
          → test t ≡ true
          → value_at lib t i s ≡ continue (λ a. pure (f a)) (m i s))
      → Agrees f
          ((refuse_closed >> (column_at o >>= λ c. expect test c.1 >> m c.0)) s)
          (get_item lib o s)
  unfolding get_item
  getter-Agrees {A} f test m o s h =
      closed-Post Q (λ s'. Unit) _ s
        (λ e.
          column-Post Q (λ s'. Unit) _ o s
            (λ i c a b. go i c (ground (arith, e, a, b)) (test c.type) refl) tt)
        tt
    where
      Q : A → State lib → Type 0
      Q a s' = get_item lib o s ≡ (ok (f a), s')

      go :
          (i : ℕ) (c : Column)
          → get_item lib o s ≡ value_at lib c.type i s
          → (b : Bool) → test c.type ≡ b
          → Post Q (λ s'. Unit) (continue (λ _. m i) (throw_if (not b) invalid_cast s))
      go i c e true t = agree f (m i s) (get_item lib o s) (e ∙ h c.type i t)
      go i c e false t = tt

  int32-value :
      (s : State lib) (t : NuodbType) (i : ℕ)
      → is_integer t ≡ true
      → value_at lib t i s
        ≡ continue (λ a. pure (Value.integer a)) (read_with lib lib.get_integer i s)
  unfolding value_at
  int32-value s NuodbType.boolean i h = absurd (true-false (sym h))
  int32-value s NuodbType.integer i h = refl
  int32-value s NuodbType.big_int i h = absurd (true-false (sym h))
  int32-value s NuodbType.double i h = absurd (true-false (sym h))
  int32-value s NuodbType.string i h = absurd (true-false (sym h))
  int32-value s NuodbType.date i h = absurd (true-false (sym h))
  int32-value s NuodbType.time i h = absurd (true-false (sym h))
  int32-value s NuodbType.date_time i h = absurd (true-false (sym h))

  int64-value :
      (s : State lib) (t : NuodbType) (i : ℕ)
      → is_big_int t ≡ true
      → value_at lib t i s ≡ continue (λ a. pure (Value.big_int a)) (read_with lib lib.get_long i s)
  unfolding value_at
  int64-value s NuodbType.boolean i h = absurd (true-false (sym h))
  int64-value s NuodbType.integer i h = absurd (true-false (sym h))
  int64-value s NuodbType.big_int i h = refl
  int64-value s NuodbType.double i h = absurd (true-false (sym h))
  int64-value s NuodbType.string i h = absurd (true-false (sym h))
  int64-value s NuodbType.date i h = absurd (true-false (sym h))
  int64-value s NuodbType.time i h = absurd (true-false (sym h))
  int64-value s NuodbType.date_time i h = absurd (true-false (sym h))

  double-value :
      (s : State lib) (t : NuodbType) (i : ℕ)
      → is_double t ≡ true
      → value_at lib t i s
        ≡ continue (λ a. pure (Value.double a)) (read_with lib lib.get_double i s)
  unfolding value_at
  double-value s NuodbType.boolean i h = absurd (true-false (sym h))
  double-value s NuodbType.integer i h = absurd (true-false (sym h))
  double-value s NuodbType.big_int i h = absurd (true-false (sym h))
  double-value s NuodbType.double i h = refl
  double-value s NuodbType.string i h = absurd (true-false (sym h))
  double-value s NuodbType.date i h = absurd (true-false (sym h))
  double-value s NuodbType.time i h = absurd (true-false (sym h))
  double-value s NuodbType.date_time i h = absurd (true-false (sym h))

  string-value :
      (s : State lib) (t : NuodbType) (i : ℕ)
      → is_string t ≡ true
      → value_at lib t i s ≡ continue (λ a. pure (Value.string a)) (string_at lib i s)
  unfolding value_at
  string-value s NuodbType.boolean i h = absurd (true-false (sym h))
  string-value s NuodbType.integer i h = absurd (true-false (sym h))
  string-value s NuodbType.big_int i h = absurd (true-false (sym h))
  string-value s NuodbType.double i h = absurd (true-false (sym h))
  string-value s NuodbType.string i h = refl
  string-value s NuodbType.date i h = absurd (true-false (sym h))
  string-value s NuodbType.time i h = absurd (true-false (sym h))
  string-value s NuodbType.date_time i h = absurd (true-false (sym h))

  date_time-value :
      (s : State lib) (t : NuodbType) (i : ℕ)
      → is_date_time t ≡ true
      → value_at lib t i s ≡ continue (λ a. pure (Value.date_time a)) (date_at lib i s)
  unfolding value_at
  date_time-value s NuodbType.boolean i h = absurd (true-false (sym h))
  date_time-value s NuodbType.integer i h = absurd (true-false (sym h))
  date_time-value s NuodbType.big_int i h = absurd (true-false (sym h))
  date_time-value s NuodbType.double i h = absurd (true-false (sym h))
  date_time-value s NuodbType.string i h = absurd (true-false (sym h))
  date_time-value s NuodbType.date i h = absurd (true-false (sym h))
  date_time-value s NuodbType.time i h = absurd (true-false (sym h))
  date_time-value s NuodbType.date_time i h = refl

  -- Where GetInt32, GetInt64, GetDouble, GetString or GetDateTime returns a value, the indexer returns it too, as a value of that
  -- type, and does the same to the state.
  pub get_int32-get_item :
      (o : ℤ) (s : State lib)
      → Agrees Value.integer (get_int32 lib o s) (get_item lib o s)
        × Agrees Value.big_int (get_int64 lib o s) (get_item lib o s)
        × Agrees Value.double (get_double lib o s) (get_item lib o s)
        × Agrees Value.string (get_string lib o s) (get_item lib o s)
        × Agrees Value.date_time (get_date_time lib o s) (get_item lib o s)
  unfolding get_int32 get_int64 get_double get_string get_date_time
  get_int32-get_item o s = (
    getter-Agrees Value.integer is_integer (read_with lib lib.get_integer) o s (int32-value s),
    getter-Agrees Value.big_int is_big_int (read_with lib lib.get_long) o s (int64-value s),
    getter-Agrees Value.double is_double (read_with lib lib.get_double) o s (double-value s),
    getter-Agrees Value.string is_string (string_at lib) o s (string-value s),
    getter-Agrees Value.date_time is_date_time (date_at lib) o s (date_time-value s),
  )
