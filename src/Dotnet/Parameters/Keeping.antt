-- ===== src/Dotnet/Parameters/Keeping.antt =====
-- dotnet/nuodb/parameter.cpp: the methods of the collection, one by one, keep its names distinct.
use nuodb_drivers.Prelude.{
  ℕ, if◌then◌else◌, true, false, Option, none, some, List, [], ◌∷◌, length, ◌==◌, ◌≡◌, refl, sym,
  ◌<◌, ltb,
}
use nuodb_drivers.Prelude.Outcome.{ℤ}
use nuodb_drivers.Dotnet.Calls.{◌>>◌, argument, in_range, index_out_of_range, String}
use nuodb_drivers.Dotnet.Parameters.{
  DbType, Parameter, current, Collection, Argument, nullptr, itself, foreign, parameter, place,
  names, index_of, refuse_known, nuodb_type_of, change, set_db_type,
}
use nuodb_drivers.Dotnet.Parameters.Editing.{
  add_range, add_objects, add, insert_parameter, insert_object, remove_parameter, remove_object,
  remove_at_index, remove_at_name, set_index, set_named, set_parameter, set_parameter_named, clear,
  index_of_object, remove_found, add_named, insert, put,
}
use nuodb_drivers.Dotnet.Parameters.Requests.{Allocated, AllocatedArgument, Each, Given}
use nuodb_drivers.Dotnet.Parameters.Names.{Named-agree, Named-first}
use nuodb_drivers.Dotnet.Parameters.Invariant.{
  name_at, Within, After, bind-After, checked-After, present-After, cast-After, unnamed-After,
  known-After, insert-Within, put-Within, remove-Within, add_named-After, add_each-After,
  add_each_object-After, replace_named-After,
}
use nuodb_drivers.Dotnet.Parameters.Lists.{Each-first}

module _ {Object : Type 0} where
  -- A change of a parameter that leaves its name alone
  pub change-Within :
      (k p : ℕ) (f : Parameter Object → Parameter Object) (c : Collection Object)
      → ((x : Parameter Object) → (f x).name ≡ x.name)
      → Within k c
      → Within k (change p f c)
  change-Within k p f c same (n, e, b) = (
    Named-agree (name_at c) (name_at (change p f c)) k c.items
        (λ q _. elim (p == q) as (λ t. name_at c q ≡ (if t then f (c.heap q) else c.heap q).name) [
          | true ↦ sym (same (c.heap q))
          | false ↦ refl
        ])
        e n,
    e,
    b,
  )

  pub set_db_type-After :
      (k p : ℕ) (t : DbType) (c : Collection Object) → Within k c → After k (set_db_type p t c)
  unfolding set_db_type
  set_db_type-After k p t c h =
      checked-After k (nuodb_type_of t) argument _ c h
        (λ u _. change-Within k p (λ x. record x { type = u; version = current }) c (λ x. refl) h)

  pub clear-After : (k : ℕ) (c : Collection Object) → Within k c → After k (clear c)
  unfolding clear
  clear-After k c (n, e, b) = (tt, tt, b)

  pub remove_parameter-After :
      (k : ℕ) (value : Option ℕ) (c : Collection Object)
      → Within k c
      → After k (remove_parameter value c)
  unfolding remove_parameter
  remove_parameter-After k none c h = h
  remove_parameter-After k (some p) c (n, e, b) =
      (Named-first (name_at c) p c.items n, Each-first (λ q. q < k) p c.items e, b)

  pub remove_object-After :
      (k : ℕ) (value : Argument) (c : Collection Object)
      → Within k c
      → After k (remove_object value c)
  unfolding remove_object index_of_object
  remove_object-After k nullptr c h = h
  remove_object-After k foreign c h = h
  remove_object-After k (parameter p) c h = h
  remove_object-After k itself c h = go (if ltb 0 (length c.items) then some 0 else none)
    where
      go : (o : Option ℕ) → After k (remove_found o c)
      go none = h
      go (some i) = remove-Within k i c h

  pub remove_at_index-After :
      (k : ℕ) (i : ℤ) (c : Collection Object) → Within k c → After k (remove_at_index i c)
  unfolding remove_at_index
  remove_at_index-After k i c h =
      checked-After k (in_range i (length c.items)) index_out_of_range _ c h
        (λ j _. remove-Within k j c h)

  pub remove_at_name-After :
      (k : ℕ) (name : String) (c : Collection Object) → Within k c → After k (remove_at_name name c)
  unfolding remove_at_name index_of
  remove_at_name-After k none c h = h
  remove_at_name-After k (some []) c h = h
  remove_at_name-After k (some (x ∷ m)) c h =
      checked-After k (place (x ∷ m) (names c)) index_out_of_range _ c h
        (λ j _. remove-Within k j c h)

  pub insert_parameter-After :
      (k : ℕ) (i : ℤ) (value : Option ℕ) (c : Collection Object)
      → Within k c
      → Allocated k value
      → After k (insert_parameter i value c)
  unfolding insert_parameter
  insert_parameter-After k i value c h a =
      checked-After k (in_range i (length c.items)) index_out_of_range _ c h (λ j _.
        present-After k value _ c h a (λ p b.
          known-After k (name_at c p) (insert j p) c h (λ n w. insert-Within k j p c h b n w)))

  pub insert_object-After :
      (k : ℕ) (i : ℤ) (value : Argument) (c : Collection Object)
      → Within k c
      → AllocatedArgument k value
      → After k (insert_object i value c)
  unfolding insert_object
  insert_object-After k i value c h a =
      checked-After k (in_range i (length c.items)) index_out_of_range _ c h (λ j _.
        cast-After k value _ c h a (λ p b.
          unnamed-After k (name_at c p) (refuse_known (some (name_at c p)) >> insert j p) c h (λ _.
            known-After k (name_at c p) (insert j p) c h (λ n w. insert-Within k j p c h b n w))))

  pub set_index-After :
      (k : ℕ) (i : ℤ) (value : Option ℕ) (c : Collection Object)
      → Within k c
      → Allocated k value
      → After k (set_index i value c)
  unfolding set_index
  set_index-After k i value c h a =
      checked-After k (in_range i (length c.items)) index_out_of_range _ c h (λ j _.
        present-After k value _ c h a (λ p b.
          unnamed-After k (name_at c p) (refuse_known (some (name_at c p)) >> put j p) c h
            (λ _. known-After k (name_at c p) (put j p) c h (λ n w. put-Within k j p c h b n w))))

  pub set_parameter-After :
      (k : ℕ) (i : ℤ) (value : Argument) (c : Collection Object)
      → Within k c
      → AllocatedArgument k value
      → After k (set_parameter i value c)
  unfolding set_parameter
  set_parameter-After k i value c h a =
      checked-After k (in_range i (length c.items)) index_out_of_range _ c h (λ j _.
        cast-After k value _ c h a
          (λ p b. known-After k (name_at c p) (put j p) c h (λ n w. put-Within k j p c h b n w)))

  pub set_named-After :
      (k : ℕ) (name : String) (value : Option ℕ) (c : Collection Object)
      → Within k c
      → Allocated k value
      → After k (set_named name value c)
  unfolding set_named
  set_named-After k none value c h a = h
  set_named-After k (some []) value c h a = h
  set_named-After k (some (x ∷ m)) value c h a =
      present-After k value _ c h a (λ p b. replace_named-After k p (x ∷ m) c h b)

  pub set_parameter_named-After :
      (k : ℕ) (name : String) (value : Argument) (c : Collection Object)
      → Within k c
      → AllocatedArgument k value
      → After k (set_parameter_named name value c)
  unfolding set_parameter_named
  set_parameter_named-After k none value c h a = h
  set_parameter_named-After k (some []) value c h a = h
  set_parameter_named-After k (some (x ∷ m)) value c h a =
      cast-After k value _ c h a (λ p b. replace_named-After k p (x ∷ m) c h b)

  pub add-After :
      (k : ℕ) (value : Argument) (c : Collection Object)
      → Within k c
      → AllocatedArgument k value
      → After k (add value c)
  unfolding add
  add-After k value c h a =
      cast-After k value _ c h a
        (λ p b. bind-After k _ (add_named p c) (add_named-After k p c h b) (λ _ c' h'. h'))

  pub add_range-After :
      (k : ℕ) (values : Option (List (Option ℕ))) (c : Collection Object)
      → Within k c
      → Given (Each (Allocated k)) values
      → After k (add_range values c)
  unfolding add_range
  add_range-After k none c h a = h
  add_range-After k (some values) c h a = add_each-After k values c h a

  pub add_objects-After :
      (k : ℕ) (values : Option (List Argument)) (c : Collection Object)
      → Within k c
      → Given (Each (AllocatedArgument k)) values
      → After k (add_objects values c)
  unfolding add_objects
  add_objects-After k none c h a = h
  add_objects-After k (some values) c h a = add_each_object-After k values c h a
