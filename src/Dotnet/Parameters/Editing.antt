-- ===== src/Dotnet/Parameters/Editing.antt =====
-- dotnet/nuodb/parameter.cpp: the other methods of `NuoDbParameterCollection`.
use nuodb_drivers.Prelude.{
  ℕ, zero, suc, ◌-◌, Bool, true, false, Option, none, some, List, [], ◌∷◌, bytes_eq, length,
  get_elem?, set, map, ◌==◌, ltb, if◌then◌else◌,
}
use nuodb_drivers.Prelude.Outcome.{ℤ}
use nuodb_drivers.Dotnet.Calls.{
  is_some, ◌>>=◌, ◌>>◌, pure, throw, gets, modify, throw_if, argument_null, argument,
  index_out_of_range, null_reference, String, is_null_or_empty, in_range, checked,
}
use nuodb_drivers.Dotnet.Parameters.{
  Act, Argument, nullptr, itself, foreign, parameter, index_of, refuse_known, name_of, append,
}

abbrev pub insert_at : {A : Type 0} → ℕ → A → List A → List A
insert_at zero a xs = a ∷ xs
insert_at (suc i) a [] = []
insert_at (suc i) a (x ∷ xs) = x ∷ insert_at i a xs

abbrev pub remove_at : {A : Type 0} → ℕ → List A → List A
remove_at i [] = []
remove_at zero (x ∷ xs) = xs
remove_at (suc i) (x ∷ xs) = x ∷ remove_at i xs

-- `List::Remove`: the first place of the object
abbrev pub remove_first : ℕ → List ℕ → List ℕ
remove_first p [] = []
remove_first p (q ∷ qs) = if q == p then qs else q ∷ remove_first p qs

module _ {Object : Type 0} where
  -- `index < 0 || index >= m_parameters->Count`
  abbrev pub indexed : ℤ → Act Object ℕ
  indexed index c = checked (in_range index (length c.items)) index_out_of_range c

  -- `nullptr == value`
  abbrev pub present : Option ℕ → Act Object ℕ
  present value = checked value argument_null

  -- `nullptr == value`, and then a `dynamic_cast`
  abbrev pub cast : Argument → Act Object ℕ
  cast nullptr = throw argument_null
  cast itself = throw argument
  cast foreign = throw argument
  cast (parameter p) = pure p

  abbrev pub refuse_unnamed : String → Act Object (Unit {0})
  refuse_unnamed name = throw_if (is_null_or_empty name) argument

  abbrev pub at : ℕ → Act Object ℕ
  at i c = checked (get_elem? c.items i) index_out_of_range c

  abbrev pub put : ℕ → ℕ → Act Object (Unit {0})
  put i p = modify (λ c. record c { items = set c.items i p })

  abbrev pub insert : ℕ → ℕ → Act Object (Unit {0})
  insert i p = modify (λ c. record c { items = insert_at i p c.items })

  abbrev pub remove_index : ℕ → Act Object (Unit {0})
  remove_index i = modify (λ c. record c { items = remove_at i c.items })

  -- A round of both `AddRange`
  abbrev pub add_named : ℕ → Act Object (Unit {0})
  add_named p = do name ← name_of p; refuse_unnamed name; refuse_known name; append p

  -- `AddRange(array<NuoDbParameter^>^)`
  abbrev pub add_each : List (Option ℕ) → Act Object (Unit {0})
  add_each [] = pure tt
  add_each (value ∷ values) = do p ← checked value null_reference; add_named p; add_each values

  unfoldable pub add_range : Option (List (Option ℕ)) → Act Object (Unit {0})
  add_range none = throw argument_null
  add_range (some values) = add_each values

  abbrev pub refuse_foreign : Argument → Act Object ℕ
  refuse_foreign (parameter p) = pure p
  refuse_foreign nullptr = throw argument
  refuse_foreign itself = throw argument
  refuse_foreign foreign = throw argument

  -- `AddRange(Array^)`
  abbrev pub add_each_object : List Argument → Act Object (Unit {0})
  add_each_object [] = pure tt
  add_each_object (value ∷ values) = do
    p ← refuse_foreign value
    add_named p
    add_each_object values

  unfoldable pub add_objects : Option (List Argument) → Act Object (Unit {0})
  add_objects none = throw argument_null
  add_objects (some values) = add_each_object values

  -- `Add(Object^)`
  unfoldable pub add : Argument → Act Object ℕ
  add value = do p ← cast value; add_named p; gets (λ c. length c.items - 1)

  -- `Insert(int, NuoDbParameter^)`
  unfoldable pub insert_parameter : ℤ → Option ℕ → Act Object (Unit {0})
  insert_parameter index value = do
    i ← indexed index
    p ← present value
    name ← name_of p
    refuse_known name
    insert i p

  -- `Insert(int, Object^)`
  unfoldable pub insert_object : ℤ → Argument → Act Object (Unit {0})
  insert_object index value = do
    i ← indexed index
    p ← cast value
    name ← name_of p
    refuse_unnamed name
    refuse_known name
    insert i p

  -- `Remove(NuoDbParameter^)`
  unfoldable pub remove_parameter : Option ℕ → Act Object (Unit {0})
  remove_parameter value = do
    p ← present value
    modify (λ c. record c { items = remove_first p c.items })

  -- `IndexOf(Object^)`: it compares the list itself, in each round, with the argument.
  unfoldable pub index_of_object : Argument → Act Object (Option ℕ)
  index_of_object nullptr = throw argument_null
  index_of_object itself = gets (λ c. if ltb 0 (length c.items) then some 0 else none)
  index_of_object foreign = pure none
  index_of_object (parameter p) = pure none

  abbrev pub remove_found : Option ℕ → Act Object (Unit {0})
  remove_found none = pure tt
  remove_found (some i) = remove_index i

  -- `Remove(Object^)`
  unfoldable pub remove_object : Argument → Act Object (Unit {0})
  unfolding index_of_object
  remove_object value = do i ← index_of_object value; remove_found i

  -- `RemoveAt(int)`
  unfoldable pub remove_at_index : ℤ → Act Object (Unit {0})
  remove_at_index index = do i ← indexed index; remove_index i

  -- `RemoveAt(String^)`
  unfoldable pub remove_at_name : String → Act Object (Unit {0})
  unfolding index_of
  remove_at_name name = do
    throw_if (is_null_or_empty name) argument_null
    found ← index_of name
    i ← checked found index_out_of_range
    remove_index i

  -- `default[int]`
  unfoldable pub get_index : ℤ → Act Object ℕ
  get_index index = do i ← indexed index; at i

  unfoldable pub set_index : ℤ → Option ℕ → Act Object (Unit {0})
  set_index index value = do
    i ← indexed index
    p ← present value
    name ← name_of p
    refuse_unnamed name
    refuse_known name
    put i p

  -- `default[String^]`
  unfoldable pub get_named : String → Act Object ℕ
  unfolding index_of
  get_named name = do
    throw_if (is_null_or_empty name) argument_null
    found ← index_of name
    i ← checked found index_out_of_range
    at i

  -- `value->ParameterName != parameterName && IndexOf(value->ParameterName) >= 0`
  abbrev pub refuse_other : String → String → Act Object (Unit {0})
  refuse_other (some a) (some b) = if bytes_eq a b then pure tt else refuse_known (some a)
  refuse_other none none = pure tt
  refuse_other none (some b) = refuse_known none
  refuse_other (some a) none = refuse_known (some a)

  unfoldable pub replace_named : String → ℕ → Act Object (Unit {0})
  unfolding index_of
  replace_named name p = do
    found ← index_of name
    i ← checked found index_out_of_range
    new_name ← name_of p
    refuse_unnamed new_name
    refuse_other new_name name
    put i p

  unfoldable pub set_named : String → Option ℕ → Act Object (Unit {0})
  set_named name value = do
    throw_if (is_null_or_empty name) argument_null
    p ← present value
    replace_named name p

  -- `SetParameter(int, DbParameter^)`
  unfoldable pub set_parameter : ℤ → Argument → Act Object (Unit {0})
  set_parameter index value = do
    i ← indexed index
    p ← cast value
    name ← name_of p
    refuse_known name
    put i p

  -- `SetParameter(String^, DbParameter^)`
  unfoldable pub set_parameter_named : String → Argument → Act Object (Unit {0})
  set_parameter_named name value = do
    throw_if (is_null_or_empty name) argument_null
    p ← cast value
    replace_named name p

  -- `Clear`
  unfoldable pub clear : Act Object (Unit {0})
  clear = modify (λ c. record c { items = [] })

  -- `Count`
  unfoldable pub count : Act Object ℕ
  count = gets (λ c. length c.items)

  -- `Contains(String^)`
  unfoldable pub contains_name : String → Act Object Bool
  unfolding index_of
  contains_name value = do
    throw_if (is_null_or_empty value) argument_null
    i ← index_of value
    pure (is_some i)

  module _ (same : Object → Object → Bool) where
    abbrev pub holds : Object → Option Object → Bool
    holds value none = false
    holds value (some v) = same value v

    abbrev pub any_value : Object → List (Option Object) → Bool
    any_value value [] = false
    any_value value (v ∷ vs) = if holds value v then true else any_value value vs

    -- `Contains(Object^)`: it looks for the value of a parameter, as an object.
    unfoldable pub contains : Option Object → Act Object Bool
    contains none = throw argument_null
    contains (some value) = gets (λ c. any_value value (map (λ p. (c.heap p).value) c.items))
