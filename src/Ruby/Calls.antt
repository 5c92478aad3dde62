-- ===== src/Ruby/Calls.antt =====
-- ruby/nuodb/ext/nuodb/nuodb.cpp: the frame of every method, with the mapping of exceptions and the
-- conversions between C and Ruby.
use nuodb_drivers.Prelude.{
  ℕ, zero, suc, ◌+◌, ◌-◌, ◌*◌, ◌/◌, ◌%◌, ◌^◌, Bool, true, false, Option, none, some, [], ◌∷◌, ◌++◌,
  Bytes, ltb, if◌then◌else◌,
}
use nuodb_drivers.Prelude.Outcome.{ℤ, pos, negsuc, sql, unknown}
use nuodb_drivers.Client.{Attempt, returns, throws}
use nuodb_drivers.Ruby.Library.{
  Library, Handles, Value, Op, Result, nil, truth, number, real, string, results, columns,
  statement, prepared, database, connection,
}

-- `int column = NUM2UINT(…)`: 32 bits read as a signed number
unfoldable pub int32 : ℕ → ℤ
int32 n = let r = n % 2 ^ 32 in if ltb r (2 ^ 31) then pos r else negsuc (2 ^ 32 - 1 - r)

-- `UINT2NUM` of an `int`
unfoldable pub uint32 : ℤ → ℕ
uint32 (pos n) = n % 2 ^ 32
uint32 (negsuc n) = 2 ^ 32 - 1 - n % 2 ^ 32

-- `vsnprintf` into a buffer: what fits
abbrev pub cut : ℕ → Bytes → Bytes
cut zero t = []
cut (suc n) [] = []
cut (suc n) (c ∷ cs) = c ∷ cut n cs

-- Milliseconds of seconds and microseconds
unfoldable pub milliseconds : ℤ → ℕ → ℤ
milliseconds (pos s) u = pos (s * 1000 + u / 1000)
milliseconds (negsuc s) u =
    if ltb (u / 1000) ((s + 1) * 1000)
    then negsuc ((s + 1) * 1000 - u / 1000 - 1)
    else pos (u / 1000 - (s + 1) * 1000)

abbrev pub bit : Bool → ℕ
bit true = 1
bit false = 0

module _ (handles : Handles) where
  -- `!(RB_TYPE_P(v, T_FALSE) || RB_TYPE_P(v, T_NIL))`
  abbrev pub ruby_truth : Value handles → Bool
  ruby_truth nil = false
  ruby_truth (truth b) = b
  ruby_truth _ = true

  -- `v ? true : false`: of all values only `Qfalse` is 0.
  abbrev pub c_truth : Value handles → Bool
  c_truth (truth b) = b
  c_truth _ = true

module _ (lib : Library) where
  open lib use {World, handles}

  -- How a method ends: with a value, with a `NuoDB::Error`, with an error of the Ruby interpreter,
  -- with a C++ exception that gets through to the interpreter, or in undefined behaviour.
  pub data Reply : Type 0 where
    value : Value handles → Reply
    nuodb_error : ℕ → Bytes → Reply
    ruby_error : Reply
    escapes : Reply
    undefined : Reply

  abbrev pub Run : Type 0
  Run = World → Reply × World

  -- `rb_raise_nuodb_error`
  unfoldable pub raised : ℤ → Bytes → Bytes → Reply
  unfolding uint32
  raised code message text = nuodb_error (uint32 code) (cut (lib.bufsiz - 1) (message ++ text))

  unfoldable pub settled : {A : Type 0} → Bytes → (A → Reply) → Attempt A × World → Reply × World
  unfolding raised
  settled message conv (returns a, w) = (conv a, w)
  settled message conv (throws (sql code text), w) = (raised code message text, w)
  settled message conv (throws unknown, w) = (escapes, w)

  -- `try { return conv(op); } catch (SQLException & e) { rb_raise_nuodb_error(…); }`
  unfoldable pub guarded : (op : Op handles) → Bytes → (Result handles op → Reply) → Run
  unfolding settled
  guarded op message conv w = settled message conv (lib.call op w)

  unfoldable pub pinged : {A : Type 0} → Attempt A × World → Reply × World
  pinged (returns a, w) = (value (truth true), w)
  pinged (throws (sql code text), w) = (value (truth false), w)
  pinged (throws unknown, w) = (escapes, w)

  -- The same, but an exception is an answer of `false`
  unfoldable pub answered : Op handles → Run
  unfolding pinged
  answered op w = pinged (lib.call op w)

  -- A conversion of an argument, which may raise
  abbrev pub given : {A : Type 0} → Option A → Reply → (A → Run) → Run
  given none reply f w = (reply, w)
  given (some a) reply f w = f a w

  unfoldable pub with_uint : Value handles → (ℤ → Run) → Run
  unfolding int32
  with_uint v f = given (lib.num2uint v) ruby_error (λ n. f (int32 n))

  unfoldable pub with_int : Value handles → (ℤ → Run) → Run
  with_int v f = given (lib.num2int v) ruby_error f

  unfoldable pub with_double : Value handles → (handles.Double → Run) → Run
  with_double v f = given (lib.num2dbl v) ruby_error f

  unfoldable pub with_string : Value handles → (Bytes → Run) → Run
  with_string v f = given (lib.string_value_ptr v) ruby_error f

  unfoldable pub with_pointer : Value handles → (Bytes → Run) → Run
  with_pointer v f = given (lib.rstring_ptr v) undefined f

  unfoldable pub with_time : Value handles → (ℤ → Run) → Run
  unfolding milliseconds
  with_time v f = given (lib.time_timeval v) ruby_error (λ tv. f (milliseconds tv.0 tv.1))

  abbrev pub nil_value : Unit {0} → Reply
  nil_value u = value nil

  abbrev pub truth_value : Bool → Reply
  truth_value b = value (truth b)

  abbrev pub int_value : ℤ → Reply
  int_value z = value (number z)

  abbrev pub uint_value : ℤ → Reply
  uint_value z = value (number (pos (uint32 z)))

  abbrev pub float_value : handles.Double → Reply
  float_value d = value (real d)

  -- `rb_str_new2`, which raises an error for a NULL pointer
  abbrev pub text_value : Option Bytes → Reply
  text_value none = ruby_error
  text_value (some b) = value (string b)

  -- `wrap`
  abbrev pub wrapped : {A : Type 0} → (A → Value handles) → Option A → Reply
  wrapped f none = value nil
  wrapped f (some a) = value (f a)

  abbrev pub results_value : Option handles.ResultSet → Reply
  results_value = wrapped results

  abbrev pub columns_value : Option handles.ResultSetMetaData → Reply
  columns_value = wrapped columns

  abbrev pub statement_value : Option handles.Statement → Reply
  statement_value = wrapped statement

  abbrev pub prepared_value : Option handles.PreparedStatement → Reply
  prepared_value = wrapped prepared

  abbrev pub database_value : Option handles.DatabaseMetaData → Reply
  database_value = wrapped database

  abbrev pub connection_value : Option handles.Connection → Reply
  connection_value = wrapped connection
