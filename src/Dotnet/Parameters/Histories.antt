-- ===== src/Dotnet/Parameters/Histories.antt =====
-- dotnet/nuodb/parameter.cpp: every call keeps the names of a collection distinct.
use nuodb_drivers.Prelude.{
  ℕ, suc, if◌then◌else◌, true, false, none, some, [], ◌∷◌, ◌++◌, Bytes, ◌==◌, ◌≡◌, ◌≢◌, refl, sym,
  subst, ap, ◌∙◌, ◌<◌, arith,
}
use nuodb_drivers.Prelude.Outcome.{ℤ}
use nuodb_drivers.Dotnet.Calls.{Result, ok, raises, undefined, continue, pure, String}
use nuodb_drivers.Dotnet.Parameters.{
  set_direction, set_nullable, set_size, set_source_column, set_source_null_mapping,
  set_source_version, NuodbType, Parameter, make, current, Collection, change, set_nuodb_type,
  set_db_type, set_value, reset_db_type, set_parameter_name, add_typed, add_sized, add_sourced,
}
use nuodb_drivers.Dotnet.Parameters.Editing.{
  add_range, add_objects, add, insert_parameter, insert_object, remove_parameter, remove_object,
  remove_at_index, remove_at_name, set_index, set_named, set_parameter, set_parameter_named, clear,
}
use nuodb_drivers.Dotnet.Parameters.Requests.{Request, perform, Made}
use nuodb_drivers.Dotnet.Parameters.Names.{Away, Named-agree}
use nuodb_drivers.Dotnet.Parameters.Invariant.{name_at, Within, known-Keeps, new-Within}
use nuodb_drivers.Dotnet.Parameters.Lists.{Each-map}
use nuodb_drivers.Dotnet.Parameters.Keeping.{
  change-Within, set_db_type-After, clear-After, remove_parameter-After, remove_object-After,
  remove_at_index-After, remove_at_name-After, insert_parameter-After, insert_object-After,
  set_index-After, set_parameter-After, set_named-After, set_parameter_named-After, add-After,
  add_range-After, add_objects-After,
}

module _ {Object : Type 0} where
  abbrev pub Sound : Collection Object → Type 0
  Sound c = Within c.fresh c

  -- What the heap has after `gcnew NuoDbParameter()` and the setters that the collection calls
  abbrev started : Bytes → NuodbType → Collection Object → Collection Object
  started n t c =
      change c.fresh (λ x. record x { type = t; version = current })
        (change c.fresh (λ x. record x { name = n }) (make c).1)

  abbrev Renews : Bytes → Collection Object → Collection Object → Type 0
  Renews n c d =
      ((q : ℕ) → q < c.fresh → name_at c q ≡ name_at d q)
      × (name_at d c.fresh ≡ n)
      × (d.fresh ≡ suc c.fresh)
      × (d.items ≡ c.items)

  started-Renews : (n : Bytes) (t : NuodbType) (c : Collection Object) → Renews n c (started n t c)
  started-Renews n t c = ((λ q b. ground arith), ground arith, refl, refl)

  change-Renews :
      (n : Bytes) (p : ℕ) (f : Parameter Object → Parameter Object) (c d : Collection Object)
      → ((x : Parameter Object) → (f x).name ≡ x.name)
      → Renews n c d
      → Renews n c (change p f d)
  change-Renews n p f c d same (a, b, e, g) =
      ((λ q k. a q k ∙ kept q), sym (kept c.fresh) ∙ b, e, g)
    where
      kept : (q : ℕ) → name_at d q ≡ name_at (change p f d) q
      kept q = elim (p == q) as (λ t. name_at d q ≡ (if t then f (d.heap q) else d.heap q).name) [
        | true ↦ sym (same (d.heap q))
        | false ↦ refl
      ]

  Renews-Sound :
      (n : Bytes) (c d : Collection Object)
      → Renews n c d
      → Sound c
      → n ≢ []
      → Away (name_at c) n c.items
      → Sound (record d { items = d.items ++ c.fresh ∷ [] })
  Renews-Sound n c d (a, b, e, g) h x y =
      new-Within c (record d { items = d.items ++ c.fresh ∷ [] }) h e
        (ap (λ l. l ++ c.fresh ∷ []) g) a (λ z. x (sym b ∙ z))
        (subst (λ m. Away (name_at c) m c.items) (sym b) y)

  add_typed-Sound :
      (n : String) (t : NuodbType) (c : Collection Object) → Sound c → Sound (add_typed n t c).1
  unfolding add_typed set_parameter_name set_nuodb_type
  add_typed-Sound none t c h = h
  add_typed-Sound (some []) t c h = h
  add_typed-Sound (some (x ∷ m)) t c h =
      known-Keeps Sound (x ∷ m) _ c h
        (Renews-Sound (x ∷ m) c (started (x ∷ m) t c) (started-Renews (x ∷ m) t c) h)

  add_sized-Sound :
      (n : String) (t : NuodbType) (k : ℤ) (c : Collection Object)
      → Sound c
      → Sound (add_sized n t k c).1
  unfolding add_sized set_parameter_name set_nuodb_type
  add_sized-Sound none t k c h = h
  add_sized-Sound (some []) t k c h = h
  add_sized-Sound (some (x ∷ m)) t k c h = known-Keeps Sound (x ∷ m) _ c h (
      Renews-Sound (x ∷ m) c (change c.fresh (λ y. record y { size = k }) (started (x ∷ m) t c))
        (change-Renews (x ∷ m) c.fresh (λ y. record y { size = k }) c (started (x ∷ m) t c)
          (λ y. refl) (started-Renews (x ∷ m) t c))
        h)

  add_sourced-Sound :
      (n : String) (t : NuodbType) (k : ℤ) (u : String) (c : Collection Object)
      → Sound c
      → Sound (add_sourced n t k u c).1
  unfolding add_sourced set_parameter_name set_nuodb_type
  add_sourced-Sound none t k u c h = h
  add_sourced-Sound (some []) t k u c h = h
  add_sourced-Sound (some (x ∷ m)) t k none c h = known-Keeps Sound (x ∷ m) _ c h (λ _ _. h)
  add_sourced-Sound (some (x ∷ m)) t k (some []) c h = known-Keeps Sound (x ∷ m) _ c h (λ _ _. h)
  add_sourced-Sound (some (x ∷ m)) t k (some (y ∷ u)) c h = known-Keeps Sound (x ∷ m) _ c h (
      Renews-Sound (x ∷ m) c (change c.fresh (λ z. record z { source = some (y ∷ u) }) d)
        (change-Renews (x ∷ m) c.fresh (λ z. record z { source = some (y ∷ u) }) c d (λ z. refl)
          (change-Renews (x ∷ m) c.fresh (λ z. record z { size = k }) c (started (x ∷ m) t c)
            (λ z. refl) (started-Renews (x ∷ m) t c)))
        h)
    where
      d : Collection Object
      d = change c.fresh (λ z. record z { size = k }) (started (x ∷ m) t c)

  make-Sound : (c : Collection Object) → Sound c → Sound (make c).1
  make-Sound c (n, e, b) = (
    Named-agree (name_at c) (name_at (make c).1) c.fresh c.items (λ q k. ground arith) e n,
    Each-map c.items (λ q k. omega (arith, k)) e,
    omega arith,
  )

  Within-Sound : (k : ℕ) (c : Collection Object) → Within k c → Sound c
  Within-Sound k c (n, e, b) = (n, Each-map c.items (λ q k. omega (arith, k, b)) e, omega arith)

  drop-Sound :
      {A : Type 0} (r : Result A × Collection Object)
      → Sound r.1
      → Sound (continue (λ a. pure tt) r).1
  drop-Sound (ok a, c) h = h
  drop-Sound (raises e, c) h = h
  drop-Sound (undefined, c) h = h

  -- Whatever is asked of a collection whose parameters have distinct names that are not empty, and of
  -- its parameters, but for a change of a name: the parameters still have distinct names that are not
  -- empty, also where the call ends with an exception. The parameters among the arguments have been
  -- made before.
  pub perform-Sound :
      (r : Request Object) (c : Collection Object)
      → Sound c
      → Made c.fresh r
      → Sound (perform r c).1
  unfolding perform set_nuodb_type set_value reset_db_type set_direction set_nullable set_size
      set_source_column set_source_null_mapping set_source_version
  perform-Sound Request.new_parameter c h m = make-Sound c h
  perform-Sound Request.clear c h m = Within-Sound c.fresh (clear c).1 (clear-After c.fresh c h)
  perform-Sound (Request.set_nuodb_type p t) c h m =
      change-Within c.fresh p (λ x. record x { type = t; version = current }) c (λ x. refl) h
  perform-Sound (Request.set_db_type p t) c h m =
      Within-Sound c.fresh (set_db_type p t c).1 (set_db_type-After c.fresh p t c h)
  perform-Sound (Request.set_value p v) c h m =
      change-Within c.fresh p (λ x. record x { version = current; value = v }) c (λ x. refl) h
  perform-Sound (Request.reset_db_type p) c h m =
      change-Within c.fresh p (λ x. record x { version = current; type = NuodbType.string }) c
        (λ x. refl) h
  perform-Sound (Request.set_direction p v) c h m =
      change-Within c.fresh p (λ x. record x { direction = v }) c (λ x. refl) h
  perform-Sound (Request.set_nullable p v) c h m =
      change-Within c.fresh p (λ x. record x { nullable = v }) c (λ x. refl) h
  perform-Sound (Request.set_size p v) c h m =
      change-Within c.fresh p (λ x. record x { size = v }) c (λ x. refl) h
  perform-Sound (Request.set_source_column p v) c h m =
      change-Within c.fresh p (λ x. record x { source = v }) c (λ x. refl) h
  perform-Sound (Request.set_source_null_mapping p v) c h m =
      change-Within c.fresh p (λ x. record x { source_null_mapping = v }) c (λ x. refl) h
  perform-Sound (Request.set_source_version p v) c h m =
      change-Within c.fresh p (λ x. record x { version = v }) c (λ x. refl) h
  perform-Sound (Request.add_typed n t) c h m =
      drop-Sound (add_typed n t c) (add_typed-Sound n t c h)
  perform-Sound (Request.add_sized n t k) c h m =
      drop-Sound (add_sized n t k c) (add_sized-Sound n t k c h)
  perform-Sound (Request.add_sourced n t k u) c h m =
      drop-Sound (add_sourced n t k u c) (add_sourced-Sound n t k u c h)
  perform-Sound (Request.add value) c h m =
      drop-Sound (add value c)
        (Within-Sound c.fresh (add value c).1 (add-After c.fresh value c h m))
  perform-Sound (Request.add_range values) c h m =
      Within-Sound c.fresh (add_range values c).1 (add_range-After c.fresh values c h m)
  perform-Sound (Request.add_objects values) c h m =
      Within-Sound c.fresh (add_objects values c).1 (add_objects-After c.fresh values c h m)
  perform-Sound (Request.remove_object value) c h m =
      Within-Sound c.fresh (remove_object value c).1 (remove_object-After c.fresh value c h)
  perform-Sound (Request.remove_parameter value) c h m =
      Within-Sound c.fresh (remove_parameter value c).1 (remove_parameter-After c.fresh value c h)
  perform-Sound (Request.remove_at_index i) c h m =
      Within-Sound c.fresh (remove_at_index i c).1 (remove_at_index-After c.fresh i c h)
  perform-Sound (Request.remove_at_name n) c h m =
      Within-Sound c.fresh (remove_at_name n c).1 (remove_at_name-After c.fresh n c h)
  perform-Sound (Request.insert_parameter i value) c h m =
      Within-Sound c.fresh (insert_parameter i value c).1
        (insert_parameter-After c.fresh i value c h m)
  perform-Sound (Request.set_index i value) c h m =
      Within-Sound c.fresh (set_index i value c).1 (set_index-After c.fresh i value c h m)
  perform-Sound (Request.insert_object i value) c h m =
      Within-Sound c.fresh (insert_object i value c).1 (insert_object-After c.fresh i value c h m)
  perform-Sound (Request.set_parameter i value) c h m =
      Within-Sound c.fresh (set_parameter i value c).1 (set_parameter-After c.fresh i value c h m)
  perform-Sound (Request.set_named n value) c h m =
      Within-Sound c.fresh (set_named n value c).1 (set_named-After c.fresh n value c h m)
  perform-Sound (Request.set_parameter_named n value) c h m =
      Within-Sound c.fresh (set_parameter_named n value c).1
        (set_parameter_named-After c.fresh n value c h m)
