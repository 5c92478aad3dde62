-- ===== src/Dotnet/Reader/Values.antt =====
-- dotnet/nuodb/datareader.cpp: the methods of `NuoDbDataReader` that return a value or a type.
use nuodb_drivers.Prelude.{
  ℕ, zero, suc, ◌^◌, Bool, true, false, Option, some, List, [], ◌∷◌, Bytes, codes, length, set, ltb,
}
use nuodb_drivers.Prelude.Outcome.{ℤ, pos}
use nuodb_drivers.Client.{Attempt}
use nuodb_drivers.Dotnet.Calls.{
  ◌>>=◌, ◌>>◌, pure, throw_if, gets, argument_null, argument, native_of, String, is_null_or_empty,
  checked,
}
use nuodb_drivers.Dotnet.Library.{Library}
use nuodb_drivers.Dotnet.Parameters.{NuodbType}
use nuodb_drivers.Dotnet.Objects.{Act, call, converted}
use nuodb_drivers.Dotnet.Command.{Value, text_of}
use nuodb_drivers.Dotnet.Reader.{refuse_closed, results, column_at, expect, get_ordinal, signed}

-- The types of .NET that a column can have
pub data ClrType : Type 0 where
  boolean int32 int64 double date_time string : ClrType

abbrev pub clr_type : NuodbType → ClrType
clr_type NuodbType.boolean = ClrType.boolean
clr_type NuodbType.integer = ClrType.int32
clr_type NuodbType.big_int = ClrType.int64
clr_type NuodbType.double = ClrType.double
clr_type NuodbType.date = ClrType.date_time
clr_type NuodbType.time = ClrType.date_time
clr_type NuodbType.date_time = ClrType.date_time
clr_type NuodbType.string = ClrType.string

-- `FullName`
abbrev pub full_name : ClrType → Bytes
full_name ClrType.boolean = codes "System.Boolean"
full_name ClrType.int32 = codes "System.Int32"
full_name ClrType.int64 = codes "System.Int64"
full_name ClrType.double = codes "System.Double"
full_name ClrType.date_time = codes "System.DateTime"
full_name ClrType.string = codes "System.String"

-- The tests of a column's type
abbrev pub is_string : NuodbType → Bool
is_string NuodbType.string = true
is_string _ = false

abbrev pub is_date_time : NuodbType → Bool
is_date_time NuodbType.date_time = true
is_date_time _ = false

abbrev pub is_double : NuodbType → Bool
is_double NuodbType.double = true
is_double _ = false

abbrev pub is_integer : NuodbType → Bool
is_integer NuodbType.integer = true
is_integer _ = false

abbrev pub is_big_int : NuodbType → Bool
is_big_int NuodbType.big_int = true
is_big_int _ = false

abbrev pub is_integral : NuodbType → Bool
is_integral NuodbType.integer = true
is_integral NuodbType.big_int = true
is_integral _ = false

module _ (lib : Library) where
  unfoldable pub get_field_type : ℤ → Act lib ClrType
  get_field_type ordinal = do refuse_closed; c ← column_at ordinal; pure (clr_type c.1.type)

  unfoldable pub get_data_type_name : ℤ → Act lib Bytes
  get_data_type_name ordinal = do
    refuse_closed
    c ← column_at ordinal
    pure (full_name (clr_type c.1.type))

  unfoldable pub get_provider_specific_field_type : ℤ → Act lib ClrType
  get_provider_specific_field_type ordinal = refuse_closed >> get_field_type ordinal

  -- `gcnew String(m_results->ref()->getString(ordinal))`
  abbrev pub string_at : ℕ → Act lib Bytes
  string_at i = do r ← results; b ← call (lib.get_string r i); pure (text_of b)

  -- `epoch.AddMilliseconds((double)d.ref()->getTime())`
  abbrev pub date_at : ℕ → Act lib lib.DateTime
  date_at i = do
    r ← results
    time ← call (lib.get_date r i)
    t ← native_of time
    converted (lib.after_epoch t)

  abbrev pub read_with :
      {A : Type 0} → (lib.Results → ℕ → lib.World → Attempt A × lib.World) → ℕ → Act lib A
  read_with f i = do r ← results; call (f r i)

  -- The `switch` of `default[int]`
  unfoldable pub value_at : NuodbType → ℕ → Act lib (Value lib)
  value_at NuodbType.boolean i = read_with lib.get_boolean i >>= λ b. pure (Value.boolean b)
  value_at NuodbType.integer i = read_with lib.get_integer i >>= λ n. pure (Value.integer n)
  value_at NuodbType.big_int i = read_with lib.get_long i >>= λ n. pure (Value.big_int n)
  value_at NuodbType.double i = read_with lib.get_double i >>= λ x. pure (Value.double x)
  value_at NuodbType.date i = date_at i >>= λ d. pure (Value.date_time d)
  value_at NuodbType.time i = date_at i >>= λ d. pure (Value.date_time d)
  value_at NuodbType.date_time i = date_at i >>= λ d. pure (Value.date_time d)
  value_at NuodbType.string i = string_at i >>= λ b. pure (Value.string b)

  -- `default[int]`
  unfoldable pub get_item : ℤ → Act lib (Value lib)
  get_item ordinal = do refuse_closed; c ← column_at ordinal; value_at c.1.type c.0

  -- `default[String^]`
  unfoldable pub get_named : String → Act lib (Value lib)
  get_named name = do
    throw_if (is_null_or_empty name) argument_null
    i ← get_ordinal name
    get_item (pos i)

  unfoldable pub get_boolean : ℤ → Act lib Bool
  get_boolean ordinal = do refuse_closed; c ← column_at ordinal; read_with lib.get_boolean c.0

  abbrev pub first_char : Bytes → ℕ
  first_char [] = 48
  first_char (c ∷ cs) = c

  unfoldable pub get_char : ℤ → Act lib ℕ
  get_char ordinal = do
    refuse_closed
    c ← column_at ordinal
    expect is_string c.1
    b ← string_at c.0
    pure (first_char b)

  abbrev pub copy_chars : Bytes → ℤ → Option Bytes → ℤ → ℤ → Act lib (ℤ × Option Bytes)
  copy_chars [] offset buffer at length = pure (pos 0, buffer)
  copy_chars (b ∷ bs) offset buffer at length = do
    copied ← converted (lib.copy_to (b ∷ bs) offset buffer at length)
    pure (length, some copied)

  -- It does not ask whether the reader is closed. It returns a number and leaves its array changed.
  unfoldable pub get_chars : ℤ → ℤ → Option Bytes → ℤ → ℤ → Act lib (ℤ × Option Bytes)
  get_chars ordinal offset buffer at length = do
    c ← column_at ordinal
    expect is_string c.1
    b ← string_at c.0
    copy_chars b (signed (2 ^ 31) offset) buffer at length

  unfoldable pub get_date_time : ℤ → Act lib lib.DateTime
  get_date_time ordinal = do
    refuse_closed
    c ← column_at ordinal
    expect is_date_time c.1
    date_at c.0

  unfoldable pub get_double : ℤ → Act lib lib.Double
  get_double ordinal = do
    refuse_closed
    c ← column_at ordinal
    expect is_double c.1
    read_with lib.get_double c.0

  unfoldable pub get_decimal : ℤ → Act lib lib.Decimal
  get_decimal ordinal = do
    refuse_closed
    c ← column_at ordinal
    expect is_double c.1
    x ← read_with lib.get_double c.0
    converted (lib.decimal x)

  unfoldable pub get_float : ℤ → Act lib lib.Single
  get_float ordinal = do
    refuse_closed
    c ← column_at ordinal
    expect is_double c.1
    x ← read_with lib.get_double c.0
    pure (lib.single x)

  unfoldable pub get_int16 : ℤ → Act lib ℤ
  get_int16 ordinal = do
    refuse_closed
    c ← column_at ordinal
    expect is_integral c.1
    n ← read_with lib.get_integer c.0
    pure (signed (2 ^ 15) n)

  unfoldable pub get_int32 : ℤ → Act lib ℤ
  get_int32 ordinal = do
    refuse_closed
    c ← column_at ordinal
    expect is_integer c.1
    read_with lib.get_integer c.0

  unfoldable pub get_int64 : ℤ → Act lib ℤ
  get_int64 ordinal = do
    refuse_closed
    c ← column_at ordinal
    expect is_big_int c.1
    read_with lib.get_long c.0

  unfoldable pub get_string : ℤ → Act lib Bytes
  get_string ordinal = do refuse_closed; c ← column_at ordinal; expect is_string c.1; string_at c.0

  -- `GetValue`
  unfoldable pub get_value : ℤ → Act lib (Value lib)
  get_value ordinal = do refuse_closed; c ← column_at ordinal; get_item ordinal

  -- `GetProviderSpecificValue`
  unfoldable pub get_provider_specific_value : ℤ → Act lib (Value lib)
  get_provider_specific_value ordinal = refuse_closed >> get_item ordinal

  -- The loop of `GetValues`, from column `i` on
  unfoldable pub fill : ℕ → ℕ → List (Option (Value lib)) → Act lib (List (Option (Value lib)))
  fill zero i values = pure values
  fill (suc n) i values = do v ← get_item (pos i); fill n (suc i) (set values i (some v))

  abbrev pub fill_array : List (Option (Value lib)) → Act lib (ℕ × List (Option (Value lib)))
  fill_array values = do
    columns ← gets (λ s. s.reader.columns)
    throw_if (ltb (length values) (length columns)) argument
    filled ← fill (length columns) 0 values
    pure (length columns, filled)

  -- It returns the number of columns and leaves its array changed.
  unfoldable pub get_values :
      Option (List (Option (Value lib))) → Act lib (ℕ × List (Option (Value lib)))
  get_values values = do refuse_closed; a ← checked values argument_null; fill_array a
