-- ===== src/Ruby/Explained.antt =====
-- How a method of ruby/nuodb/ext/nuodb/nuodb.cpp that is called in a given world can end.
use nuodb_drivers.Prelude.{
  ◌-◌, Option, none, some, ◌≡◌, ◌++◌, refl, Bytes, Bool, true, false, ◌⊎◌, inl, inr,
}
use nuodb_drivers.Prelude.Outcome.{ℤ, sql, unknown}
use nuodb_drivers.Client.{Attempt, returns, throws}
use nuodb_drivers.Ruby.Library.{Library, Value, Op, Result, truth}
use nuodb_drivers.Ruby.Asked.{
  Target, uint_then, int_then, double_then, string_then, pointer_then, time_then, then,
}
use nuodb_drivers.Ruby.Calls.{
  Run, Reply, value, nuodb_error, ruby_error, escapes, undefined, guarded, settled, raised,
  answered, with_uint, with_int, with_double, with_string, with_pointer, with_time, text_value,
  wrapped, given, pinged, int32, milliseconds, uint32, cut,
}

module _ (lib : Library) where
  -- The call `op` returned in the world `w`.
  abbrev pub Returned : Op lib.handles → lib.World → lib.World → Type 0
  Returned op w w' = (a : Result lib.handles op) × (lib.call op w ≡ (returns a, w'))

  -- The call `op` threw an SQL exception.
  abbrev pub Threw : Op lib.handles → ℤ → Bytes → lib.World → lib.World → Type 0
  Threw op code why w w' = lib.call op w ≡ (throws (sql code why), w')

  -- The call `op` let a method end with the value `v`. One that is `quiet` says in it whether the call
  -- returned.
  abbrev pub Gave : Bool → Op lib.handles → Value lib.handles → lib.World → lib.World → Type 0
  Gave false op v w w' = Returned op w w'
  Gave true op v w w' =
      ((v ≡ truth true) × Returned op w w')
      ⊎ ((v ≡ truth false) × (code : ℤ) × (why : Bytes) × Threw op code why w w')

  -- Why a method that is there for the call `o` and was called in the world `w` ends like this: `head`
  -- are the words at the head of its errors, and `U` is when it is undefined.
  abbrev pub Explained :
      Target lib → Bool → Bytes → Type 0 → lib.World → Reply lib × lib.World → Type 0
  Explained o quiet head U w (value v, w') =
      (op : Op lib.handles) × (o ≡ some op) × Gave quiet op v w w'
  Explained o quiet head U w (nuodb_error n text, w') =
      (op : Op lib.handles) × (o ≡ some op)
      × (code : ℤ) × (why : Bytes) × (rest : Bytes) × Threw op code why w w'
      × (n ≡ uint32 code)
      × (text ≡ cut (lib.bufsiz - 1) ((head ++ rest) ++ why))
  Explained o quiet head U w (ruby_error, w') =
      ((o ≡ none) × (w' ≡ w)) ⊎ ((op : Op lib.handles) × (o ≡ some op) × Returned op w w')
  Explained o quiet head U w (escapes, w') =
      (op : Op lib.handles) × (o ≡ some op) × (lib.call op w ≡ (throws unknown, w'))
  Explained o quiet head U w (undefined, w') = U × (o ≡ none) × (w' ≡ w)

  abbrev Plain : Reply lib → Type 0
  Plain (value v) = Unit
  Plain (nuodb_error n text) = ⊥
  Plain ruby_error = Unit
  Plain escapes = ⊥
  Plain undefined = ⊥

  -- A method is explained in every world.
  unfoldable pub Fine : Target lib → Bool → Bytes → Type 0 → Run lib → Type 0
  Fine o quiet head U f = (w : lib.World) → Explained o quiet head U w (f w)

  pub guarded-Fine :
      (U : Type 0) (op : Op lib.handles) (head rest : Bytes)
      (conv : Result lib.handles op → Reply lib)
      → ((a : Result lib.handles op) → Plain (conv a))
      → Fine (some op) false head U (guarded lib op (head ++ rest) conv)
  unfolding Fine guarded settled raised
  guarded-Fine U op head rest conv plain w = go (lib.call op w) refl
    where
      kept :
          (r : Reply lib) (w' : lib.World)
          → Plain r
          → Returned op w w'
          → Explained (some op) false head U w (r, w')
      kept (value v) w' p g = (op, refl, g)
      kept (nuodb_error n text) w' p g = absurd p
      kept ruby_error w' p g = inr (op, refl, g)
      kept escapes w' p g = absurd p
      kept undefined w' p g = absurd p

      go :
          (r : Attempt (Result lib.handles op) × lib.World)
          → lib.call op w ≡ r
          → Explained (some op) false head U w (settled lib (head ++ rest) conv r)
      go (returns a, w') e = kept (conv a) w' (plain a) (a, e)
      go (throws (sql code why), w') e = (op, refl, code, why, rest, e, refl, refl)
      go (throws unknown, w') e = (op, refl, e)

  pub answered-Fine :
      (head : Bytes) (U : Type 0) (op : Op lib.handles)
      → Fine (some op) true head U (answered lib op)
  unfolding Fine answered pinged
  answered-Fine head U op w = go (lib.call op w) refl
    where
      go :
          (r : Attempt (Result lib.handles op) × lib.World)
          → lib.call op w ≡ r
          → Explained (some op) true head U w (pinged lib r)
      go (returns a, w') e = (op, refl, inl (refl, (a, e)))
      go (throws (sql code why), w') e = (op, refl, inr (refl, code, why, e))
      go (throws unknown, w') e = (op, refl, e)

  given-Fine :
      {A : Type 0} (q : Bool) (head : Bytes) (U : Type 0) (a : Option A) (g : A → Target lib)
      (f : A → Run lib)
      → ((a : A) → Fine (g a) q head U (f a))
      → Fine (then lib a g) q head U (given lib a ruby_error f)
  unfolding Fine
  given-Fine q head U none g f h w = inl (refl, refl)
  given-Fine q head U (some a) g f h w = h a w

  pub with_uint-Fine :
      (q : Bool) (head : Bytes) (U : Type 0) (v : Value lib.handles) (g : ℤ → Target lib)
      (f : ℤ → Run lib)
      → ((a : ℤ) → Fine (g a) q head U (f a))
      → Fine (uint_then lib v g) q head U (with_uint lib v f)
  unfolding with_uint uint_then
  with_uint-Fine q head U v g f h =
      given-Fine q head U (lib.num2uint v) (λ a. g (int32 a)) _ (λ a. h (int32 a))

  pub with_int-Fine :
      (q : Bool) (head : Bytes) (U : Type 0) (v : Value lib.handles) (g : ℤ → Target lib)
      (f : ℤ → Run lib)
      → ((a : ℤ) → Fine (g a) q head U (f a))
      → Fine (int_then lib v g) q head U (with_int lib v f)
  unfolding with_int int_then
  with_int-Fine q head U v g f h = given-Fine q head U (lib.num2int v) g _ h

  pub with_double-Fine :
      (q : Bool) (head : Bytes) (U : Type 0) (v : Value lib.handles)
      (g : lib.handles.Double → Target lib) (f : lib.handles.Double → Run lib)
      → ((a : lib.handles.Double) → Fine (g a) q head U (f a))
      → Fine (double_then lib v g) q head U (with_double lib v f)
  unfolding with_double double_then
  with_double-Fine q head U v g f h = given-Fine q head U (lib.num2dbl v) g _ h

  pub with_string-Fine :
      (q : Bool) (head : Bytes) (U : Type 0) (v : Value lib.handles) (g : Bytes → Target lib)
      (f : Bytes → Run lib)
      → ((a : Bytes) → Fine (g a) q head U (f a))
      → Fine (string_then lib v g) q head U (with_string lib v f)
  unfolding with_string string_then
  with_string-Fine q head U v g f h = given-Fine q head U (lib.string_value_ptr v) g _ h

  pub with_time-Fine :
      (q : Bool) (head : Bytes) (U : Type 0) (v : Value lib.handles) (g : ℤ → Target lib)
      (f : ℤ → Run lib)
      → ((a : ℤ) → Fine (g a) q head U (f a))
      → Fine (time_then lib v g) q head U (with_time lib v f)
  unfolding with_time time_then
  with_time-Fine q head U v g f h =
      given-Fine q head U (lib.time_timeval v) (λ a. g (milliseconds a.0 a.1)) _
        (λ a. h (milliseconds a.0 a.1))

  pub with_pointer-Fine :
      (q : Bool) (head : Bytes) (v : Value lib.handles) (g : Bytes → Target lib)
      (f : Bytes → Run lib)
      → ((a : Bytes) → Fine (g a) q head (lib.rstring_ptr v ≡ none) (f a))
      → Fine (pointer_then lib v g) q head (lib.rstring_ptr v ≡ none) (with_pointer lib v f)
  unfolding Fine with_pointer pointer_then
  with_pointer-Fine q head v g f h w = go (lib.rstring_ptr v) refl
    where
      go :
          (r : Option Bytes)
          → lib.rstring_ptr v ≡ r
          → Explained (then lib r g) q head (lib.rstring_ptr v ≡ none) w (given lib r undefined f w)
      go none e = (e, refl, refl)
      go (some a) e = h a w

  pub text_value-Plain : (b : Option Bytes) → Plain (text_value lib b)
  text_value-Plain none = tt
  text_value-Plain (some b) = tt

  pub wrapped-Plain :
      {A : Type 0} (f : A → Value lib.handles) (a : Option A) → Plain (wrapped lib f a)
  wrapped-Plain f none = tt
  wrapped-Plain f (some a) = tt
