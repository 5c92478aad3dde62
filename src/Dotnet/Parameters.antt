-- ===== src/Dotnet/Parameters.antt =====
-- dotnet/nuodb/parameter.cpp and parameter.h: a parameter and the collection of them. Parameters are
-- objects on a heap, which a program can also change after it has added them.
use nuodb_drivers.Prelude.{
  ℕ, zero, suc, ◌+◌, Bool, true, false, Option, none, some, List, [], ◌∷◌, ◌++◌, map, Bytes,
  bytes_eq, length, get_elem?, set, ◌==◌, if◌then◌else◌,
}
use nuodb_drivers.Prelude.Outcome.{ℤ, pos}
use nuodb_drivers.Dotnet.Calls.{
  Run, ok, ◌>>=◌, ◌>>◌, pure, throw, gets, modify, throw_if, argument_null, argument,
  index_out_of_range, null_reference, String, is_null_or_empty, is_some, in_range, checked, Error,
}
pub mod Editing
pub mod Requests
pub mod Names
pub mod Lists
pub mod Invariant
pub mod Keeping
pub mod Histories

-- `NuoDbType`
pub data NuodbType : Type 0 where
  boolean integer big_int double string date time date_time : NuodbType

-- `System::Data::DbType`: the members that the driver names, and any other
pub data DbType : Type 0 where
  boolean int32 int64 double string date time date_time : DbType
  other : ℕ → DbType

-- `DataRowVersion`: the members that the driver names, and any other
pub data Version : Type 0 where
  original current : Version
  other : ℕ → Version

-- `ParameterDirection`
pub data Direction : Type 0 where
  input : Direction
  other : ℕ → Direction

unfoldable pub db_type_of : NuodbType → DbType
db_type_of NuodbType.boolean = DbType.boolean
db_type_of NuodbType.integer = DbType.int32
db_type_of NuodbType.big_int = DbType.int64
db_type_of NuodbType.double = DbType.double
db_type_of NuodbType.date = DbType.date
db_type_of NuodbType.time = DbType.time
db_type_of NuodbType.date_time = DbType.date_time
db_type_of NuodbType.string = DbType.string

unfoldable pub nuodb_type_of : DbType → Option NuodbType
nuodb_type_of DbType.boolean = some NuodbType.boolean
nuodb_type_of DbType.int32 = some NuodbType.integer
nuodb_type_of DbType.int64 = some NuodbType.big_int
nuodb_type_of DbType.double = some NuodbType.double
nuodb_type_of DbType.string = some NuodbType.string
nuodb_type_of DbType.date = some NuodbType.date
nuodb_type_of DbType.time = some NuodbType.time
nuodb_type_of DbType.date_time = some NuodbType.date_time
nuodb_type_of (DbType.other n) = none

-- The first place of a name; the code has -1 for `none`.
abbrev pub place : Bytes → List Bytes → Option ℕ
place n [] = none
place n (m ∷ ms) =
    if bytes_eq m n then some 0 else elim (place n ms) [ none ↦ none | some i ↦ some (i + 1) ]

-- An argument of type `Object^`: null, the list that the collection keeps, another object that is not
-- a parameter, or a parameter, by its address.
pub data Argument : Type 0 where
  nullptr itself foreign : Argument
  parameter : ℕ → Argument

-- `NuoDbParameter`
pub record Parameter (Object : Type 0) : Type 0 where
  pub type : NuodbType
  pub direction : Direction
  pub nullable : Bool
  pub name : Bytes
  pub size : ℤ
  pub source : String
  pub source_null_mapping : Bool
  pub version : Version
  pub value : Option Object

-- The heap and the list of `NuoDbParameterCollection`
pub record Collection (Object : Type 0) : Type 0 where
  pub heap : ℕ → Parameter Object
  pub fresh : ℕ
  pub items : List ℕ

abbrev pub Act : Type 0 → Type 0 → Type 0
Act Object A = Run (Collection Object) A

module _ {Object : Type 0} where
  -- The constructor of a parameter
  abbrev pub new_parameter : Parameter Object
  new_parameter = record {
    type = NuodbType.string;
    direction = Direction.input;
    nullable = true;
    name = [];
    size = pos 0;
    source = some [];
    source_null_mapping = false;
    version = original;
    value = none;
  }

  abbrev pub change :
      ℕ → (Parameter Object → Parameter Object) → Collection Object → Collection Object
  change p f c = record c { heap = λ q. if p == q then f (c.heap q) else c.heap q }

  -- The setters of a parameter
  unfoldable pub set_nuodb_type : ℕ → NuodbType → Act Object (Unit {0})
  set_nuodb_type p t = modify (change p (λ x. record x { type = t; version = current }))

  unfoldable pub get_db_type : ℕ → Act Object DbType
  unfolding db_type_of
  get_db_type p = gets (λ c. db_type_of (c.heap p).type)

  unfoldable pub set_db_type : ℕ → DbType → Act Object (Unit {0})
  unfolding nuodb_type_of
  set_db_type p value = do
    t ← checked (nuodb_type_of value) argument
    modify (change p (λ x. record x { type = t; version = current }))

  unfoldable pub set_parameter_name : ℕ → String → Act Object (Unit {0})
  set_parameter_name p none = throw argument_null
  set_parameter_name p (some []) = throw argument_null
  set_parameter_name p (some (c ∷ cs)) = modify (change p (λ x. record x { name = c ∷ cs }))

  unfoldable pub set_value : ℕ → Option Object → Act Object (Unit {0})
  set_value p v = modify (change p (λ x. record x { version = current; value = v }))

  unfoldable pub reset_db_type : ℕ → Act Object (Unit {0})
  reset_db_type p = modify (change p (λ x. record x { version = current; type = NuodbType.string }))

  unfoldable pub set_direction : ℕ → Direction → Act Object (Unit {0})
  set_direction p v = modify (change p (λ x. record x { direction = v }))

  unfoldable pub set_nullable : ℕ → Bool → Act Object (Unit {0})
  set_nullable p v = modify (change p (λ x. record x { nullable = v }))

  unfoldable pub set_size : ℕ → ℤ → Act Object (Unit {0})
  set_size p v = modify (change p (λ x. record x { size = v }))

  unfoldable pub set_source_column : ℕ → String → Act Object (Unit {0})
  set_source_column p v = modify (change p (λ x. record x { source = v }))

  unfoldable pub set_source_null_mapping : ℕ → Bool → Act Object (Unit {0})
  set_source_null_mapping p v = modify (change p (λ x. record x { source_null_mapping = v }))

  unfoldable pub set_source_version : ℕ → Version → Act Object (Unit {0})
  set_source_version p v = modify (change p (λ x. record x { version = v }))

  -- The names of the parameters, in the order of the collection
  abbrev pub names : Collection Object → List Bytes
  names c = map (λ p. (c.heap p).name) c.items

  -- `IndexOf(String^)`
  unfoldable pub index_of : String → Act Object (Option ℕ)
  index_of none = throw argument_null
  index_of (some []) = throw argument_null
  index_of (some (c ∷ cs)) = gets (λ s. place (c ∷ cs) (names s))

  -- `if (IndexOf(name) >= 0) throw …`
  unfoldable pub refuse_known : String → Act Object (Unit {0})
  unfolding index_of
  refuse_known name = do i ← index_of name; throw_if (is_some i) argument

  -- A parameter of the heap, by its name
  abbrev pub name_of : ℕ → Act Object String
  name_of p = gets (λ c. some (c.heap p).name)

  abbrev pub append : ℕ → Act Object (Unit {0})
  append p = modify (λ c. record c { items = c.items ++ p ∷ [] })

  -- `gcnew NuoDbParameter()`
  abbrev pub make : Act Object ℕ
  make c = (
    ok c.fresh,
    record c { fresh = suc c.fresh; heap = λ q. if c.fresh == q then new_parameter else c.heap q },
  )

  -- `Add(String^, NuoDbType)`
  unfoldable pub add_typed : String → NuodbType → Act Object ℕ
  unfolding set_parameter_name set_nuodb_type
  add_typed name type = do
    throw_if (is_null_or_empty name) argument_null
    refuse_known name
    p ← make
    set_parameter_name p name
    set_nuodb_type p type
    append p
    pure p

  -- `Add(String^, NuoDbType, int)`
  unfoldable pub add_sized : String → NuodbType → ℤ → Act Object ℕ
  unfolding set_parameter_name set_nuodb_type
  add_sized name type size = do
    throw_if (is_null_or_empty name) argument_null
    refuse_known name
    p ← make
    set_parameter_name p name
    set_nuodb_type p type
    modify (change p (λ x. record x { size = size }))
    append p
    pure p

  -- `Add(String^, NuoDbType, int, String^)`
  unfoldable pub add_sourced : String → NuodbType → ℤ → String → Act Object ℕ
  unfolding set_parameter_name set_nuodb_type
  add_sourced name type size source = do
    throw_if (is_null_or_empty name) argument_null
    refuse_known name
    throw_if (is_null_or_empty source) argument_null
    p ← make
    set_parameter_name p name
    set_nuodb_type p type
    modify (change p (λ x. record x { size = size }))
    modify (change p (λ x. record x { source = source }))
    append p
    pure p
