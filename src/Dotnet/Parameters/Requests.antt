-- ===== src/Dotnet/Parameters/Requests.antt =====
-- dotnet/nuodb/parameter.cpp: the calls that a program can make of the collection and of its
-- parameters, but for the setter of `ParameterName`.
use nuodb_drivers.Prelude.{ℕ, Bool, Option, none, some, List, [], ◌∷◌, ◌<◌}
use nuodb_drivers.Prelude.Outcome.{ℤ}
use nuodb_drivers.Dotnet.Calls.{◌>>◌, pure, String}
use nuodb_drivers.Dotnet.Parameters.{
  Direction, Version, NuodbType, DbType, Act, Argument, nullptr, itself, foreign, parameter, make,
}
use nuodb_drivers.Dotnet.Parameters
use nuodb_drivers.Dotnet.Parameters.Editing

pub data Request (Object : Type 0) : Type 0 where
  new_parameter clear : Request Object
  set_nuodb_type : ℕ → NuodbType → Request Object
  set_db_type : ℕ → DbType → Request Object
  set_value : ℕ → Option Object → Request Object
  reset_db_type : ℕ → Request Object
  set_direction : ℕ → Direction → Request Object
  set_nullable set_source_null_mapping : ℕ → Bool → Request Object
  set_size : ℕ → ℤ → Request Object
  set_source_column : ℕ → String → Request Object
  set_source_version : ℕ → Version → Request Object
  add_typed : String → NuodbType → Request Object
  add_sized : String → NuodbType → ℤ → Request Object
  add_sourced : String → NuodbType → ℤ → String → Request Object
  add_range : Option (List (Option ℕ)) → Request Object
  add_objects : Option (List Argument) → Request Object
  add remove_object : Argument → Request Object
  insert_parameter set_index : ℤ → Option ℕ → Request Object
  insert_object set_parameter : ℤ → Argument → Request Object
  remove_parameter : Option ℕ → Request Object
  remove_at_index : ℤ → Request Object
  remove_at_name : String → Request Object
  set_named : String → Option ℕ → Request Object
  set_parameter_named : String → Argument → Request Object

module _ {Object : Type 0} where
  -- A call whose value is dropped
  abbrev pub drop : {A : Type 0} → Act Object A → Act Object (Unit {0})
  drop m = m >> pure tt

  unfoldable pub perform : Request Object → Act Object (Unit {0})
  perform Request.new_parameter = drop make
  perform Request.clear = Editing.clear
  perform (Request.set_nuodb_type p t) = Parameters.set_nuodb_type p t
  perform (Request.set_db_type p t) = Parameters.set_db_type p t
  perform (Request.set_value p v) = Parameters.set_value p v
  perform (Request.reset_db_type p) = Parameters.reset_db_type p
  perform (Request.set_direction p v) = Parameters.set_direction p v
  perform (Request.set_nullable p v) = Parameters.set_nullable p v
  perform (Request.set_size p v) = Parameters.set_size p v
  perform (Request.set_source_column p v) = Parameters.set_source_column p v
  perform (Request.set_source_null_mapping p v) = Parameters.set_source_null_mapping p v
  perform (Request.set_source_version p v) = Parameters.set_source_version p v
  perform (Request.add_typed n t) = drop (Parameters.add_typed n t)
  perform (Request.add_sized n t k) = drop (Parameters.add_sized n t k)
  perform (Request.add_sourced n t k m) = drop (Parameters.add_sourced n t k m)
  perform (Request.add_range values) = Editing.add_range values
  perform (Request.add_objects values) = Editing.add_objects values
  perform (Request.add value) = drop (Editing.add value)
  perform (Request.remove_object value) = Editing.remove_object value
  perform (Request.insert_parameter i value) = Editing.insert_parameter i value
  perform (Request.set_index i value) = Editing.set_index i value
  perform (Request.insert_object i value) = Editing.insert_object i value
  perform (Request.set_parameter i value) = Editing.set_parameter i value
  perform (Request.remove_parameter value) = Editing.remove_parameter value
  perform (Request.remove_at_index i) = Editing.remove_at_index i
  perform (Request.remove_at_name n) = Editing.remove_at_name n
  perform (Request.set_named n value) = Editing.set_named n value
  perform (Request.set_parameter_named n value) = Editing.set_parameter_named n value

-- The parameters among the arguments have been made before.
abbrev pub Allocated : ℕ → Option ℕ → Type 0
Allocated fresh none = Unit
Allocated fresh (some p) = p < fresh

abbrev pub AllocatedArgument : ℕ → Argument → Type 0
AllocatedArgument fresh nullptr = Unit
AllocatedArgument fresh itself = Unit
AllocatedArgument fresh foreign = Unit
AllocatedArgument fresh (parameter p) = p < fresh

abbrev pub Each : {A : Type 0} → (A → Type 0) → List A → Type 0
Each P [] = Unit
Each P (x ∷ xs) = P x × Each P xs

abbrev pub Given : {A : Type 0} → (A → Type 0) → Option A → Type 0
Given P none = Unit
Given P (some a) = P a

abbrev pub Made : {Object : Type 0} → ℕ → Request Object → Type 0
Made fresh (Request.add_range values) = Given (Each (Allocated fresh)) values
Made fresh (Request.add_objects values) = Given (Each (AllocatedArgument fresh)) values
Made fresh (Request.add value) = AllocatedArgument fresh value
Made fresh (Request.insert_parameter i value) = Allocated fresh value
Made fresh (Request.set_index i value) = Allocated fresh value
Made fresh (Request.insert_object i value) = AllocatedArgument fresh value
Made fresh (Request.set_parameter i value) = AllocatedArgument fresh value
Made fresh (Request.set_named n value) = Allocated fresh value
Made fresh (Request.set_parameter_named n value) = AllocatedArgument fresh value
Made fresh _ = Unit
