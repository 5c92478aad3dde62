-- ===== src/Dotnet/Parameters/Invariant.antt =====
-- dotnet/nuodb/parameter.cpp: the names of a collection stay distinct.
use nuodb_drivers.Prelude.{
  ℕ, suc, if◌then◌else◌, true, false, Option, none, some, List, [], ◌∷◌, ◌++◌, Bytes, set, ◌≡◌, ◌≢◌,
  refl, sym, subst, ◌∙◌, ◌<◌, ◌≤◌, arith, Bool, bytes_eq, bytes_eq_iff,
}
use nuodb_drivers.Dotnet.Calls.{
  is_some, Result, ok, raises, undefined, continue, ◌>>=◌, ◌>>◌, pure, throw_if, argument,
  index_out_of_range, checked, Error,
}
use nuodb_drivers.Dotnet.Parameters.{
  Collection, Act, Argument, nullptr, itself, foreign, parameter, place, index_of, refuse_known,
  append, names,
}
use nuodb_drivers.Dotnet.Parameters.Editing.{
  cast, present, refuse_unnamed, add_named, add_each, add_each_object, insert_at, remove_at, put,
  replace_named, refuse_other,
}
use nuodb_drivers.Dotnet.Parameters.Requests.{Allocated, AllocatedArgument, Each}
use nuodb_drivers.Dotnet.Parameters.Names.{
  Away, Named, place-Away, Named-append, Named-insert, Named-set, Named-same, Named-remove,
  Named-agree, Away-agree,
}
use nuodb_drivers.Dotnet.Parameters.Lists.{
  Each-append, Each-insert, Each-set, Each-remove, Each-map,
}

module _ {Object : Type 0} where
  abbrev pub name_at : Collection Object → ℕ → Bytes
  name_at c p = (c.heap p).name

  -- The names of the collection are distinct and not empty, and its parameters are among the first
  -- `k` that were made.
  abbrev pub Within : ℕ → Collection Object → Type 0
  Within k c = Named (name_at c) c.items × Each (λ q. q < k) c.items × (k ≤ c.fresh)

  abbrev pub After : {A : Type 0} → ℕ → Result A × Collection Object → Type 0
  After k r = Within k r.1

  -- A check leaves the collection alone, and the rest of the method runs where it is passed.
  pub checked-After :
      {A B : Type 0} (k : ℕ) (o : Option A) (e : Error) (f : A → Act Object B)
      (c : Collection Object)
      → Within k c
      → ((a : A) → o ≡ some a → After k (f a c))
      → After k ((checked o e >>= f) c)
  checked-After k none e f c h g = h
  checked-After k (some a) e f c h g = g a refl

  pub present-After :
      {B : Type 0} (k : ℕ) (value : Option ℕ) (f : ℕ → Act Object B) (c : Collection Object)
      → Within k c
      → Allocated k value
      → ((p : ℕ) → p < k → After k (f p c))
      → After k ((present value >>= f) c)
  present-After k none f c h a g = h
  present-After k (some p) f c h a g = g p a

  pub cast-After :
      {B : Type 0} (k : ℕ) (value : Argument) (f : ℕ → Act Object B) (c : Collection Object)
      → Within k c
      → AllocatedArgument k value
      → ((p : ℕ) → p < k → After k (f p c))
      → After k ((cast value >>= f) c)
  cast-After k nullptr f c h a g = h
  cast-After k itself f c h a g = h
  cast-After k foreign f c h a g = h
  cast-After k (parameter p) f c h a g = g p a

  pub unnamed-After :
      {B : Type 0} (k : ℕ) (n : Bytes) (f : Act Object B) (c : Collection Object)
      → Within k c
      → (n ≢ [] → After k (f c))
      → After k ((refuse_unnamed (some n) >> f) c)
  unnamed-After k [] f c h g = h
  unnamed-After k (x ∷ n) f c h g = g (λ e. cc)

  pub known-Keeps :
      {B : Type 0} (P : Collection Object → Type 0) (n : Bytes) (f : Act Object B)
      (c : Collection Object)
      → P c
      → (n ≢ [] → Away (name_at c) n c.items → P (f c).1)
      → P ((refuse_known (some n) >> f) c).1
  unfolding refuse_known index_of
  known-Keeps P [] f c h g = h
  known-Keeps {B} P (x ∷ n) f c h g = go (place (x ∷ n) (names c)) refl
    where
      go :
          (o : Option ℕ)
          → place (x ∷ n) (names c) ≡ o
          → P (continue (λ _. f) (continue (λ i. throw_if (is_some i) argument) (Result.ok o, c))).1
      go none e = g (λ y. cc) (place-Away (name_at c) (x ∷ n) c.items e)
      go (some i) e = h

  pub known-After :
      {B : Type 0} (k : ℕ) (n : Bytes) (f : Act Object B) (c : Collection Object)
      → Within k c
      → (n ≢ [] → Away (name_at c) n c.items → After k (f c))
      → After k ((refuse_known (some n) >> f) c)
  known-After k n f c h g = known-Keeps (Within k) n f c h g

  pub append-Within :
      (k p : ℕ) (c : Collection Object)
      → Within k c
      → p < k
      → name_at c p ≢ []
      → Away (name_at c) (name_at c p) c.items
      → Within k (record c { items = c.items ++ p ∷ [] })
  append-Within k p c (n, e, f) b h a =
      (Named-append (name_at c) p c.items n h a, Each-append (λ q. q < k) p c.items e b, f)

  pub insert-Within :
      (k i p : ℕ) (c : Collection Object)
      → Within k c
      → p < k
      → name_at c p ≢ []
      → Away (name_at c) (name_at c p) c.items
      → Within k (record c { items = insert_at i p c.items })
  insert-Within k i p c (n, e, f) b h a =
      (Named-insert (name_at c) i p c.items n h a, Each-insert (λ q. q < k) i p c.items e b, f)

  pub put-Within :
      (k i p : ℕ) (c : Collection Object)
      → Within k c
      → p < k
      → name_at c p ≢ []
      → Away (name_at c) (name_at c p) c.items
      → Within k (record c { items = set c.items i p })
  put-Within k i p c (n, e, f) b h a =
      (Named-set (name_at c) i p c.items n h a, Each-set (λ q. q < k) i p c.items e b, f)

  pub remove-Within :
      (k i : ℕ) (c : Collection Object)
      → Within k c
      → Within k (record c { items = remove_at i c.items })
  remove-Within k i c (n, e, f) =
      (Named-remove (name_at c) i c.items n, Each-remove (λ q. q < k) i c.items e, f)

  pub bind-After :
      {A B : Type 0} (k : ℕ) (f : A → Act Object B) (r : Result A × Collection Object)
      → After k r
      → ((a : A) (c : Collection Object) → Within k c → After k (f a c))
      → After k (continue f r)
  bind-After k f (ok a, c) h g = g a c h
  bind-After k f (raises e, c) h g = h
  bind-After k f (undefined, c) h g = h

  pub add_named-After :
      (k p : ℕ) (c : Collection Object) → Within k c → p < k → After k (add_named p c)
  add_named-After k p c h b =
      unnamed-After k (name_at c p) (refuse_known (some (name_at c p)) >> append p) c h
        (λ n. known-After k (name_at c p) (append p) c h (λ n a. append-Within k p c h b n a))

  -- A new parameter is put at the end.
  pub new-Within :
      (c c' : Collection Object)
      → Within c.fresh c
      → c'.fresh ≡ suc c.fresh
      → c'.items ≡ c.items ++ c.fresh ∷ []
      → ((q : ℕ) → q < c.fresh → name_at c q ≡ name_at c' q)
      → name_at c' c.fresh ≢ []
      → Away (name_at c) (name_at c' c.fresh) c.items
      → Within c'.fresh c'
  new-Within c c' (n, e, f) nf ni same h a = (
    subst (Named (name_at c')) (sym ni) (
        Named-append (name_at c') c.fresh c.items
          (Named-agree (name_at c) (name_at c') c.fresh c.items same e n) h
          (Away-agree (name_at c) (name_at c') c.fresh (name_at c' c.fresh) c.items same e a)),
    subst (Each (λ q. q < c'.fresh)) (sym ni) (
        Each-append (λ q. q < c'.fresh) c.fresh c.items
          (Each-map c.items (λ q b. omega (arith, b, nf)) e) (omega (arith, nf))),
    omega arith,
  )

  pub add_each-After :
      (k : ℕ) (values : List (Option ℕ)) (c : Collection Object)
      → Within k c
      → Each (Allocated k) values
      → After k (add_each values c)
  add_each-After k [] c h a = h
  add_each-After k (none ∷ values) c h a = h
  add_each-After k (some p ∷ values) c h (b, a) =
      bind-After k (λ _. add_each values) (add_named p c) (add_named-After k p c h b)
        (λ _ c' h'. add_each-After k values c' h' a)

  pub add_each_object-After :
      (k : ℕ) (values : List Argument) (c : Collection Object)
      → Within k c
      → Each (AllocatedArgument k) values
      → After k (add_each_object values c)
  add_each_object-After k [] c h a = h
  add_each_object-After k (nullptr ∷ values) c h a = h
  add_each_object-After k (itself ∷ values) c h a = h
  add_each_object-After k (foreign ∷ values) c h a = h
  add_each_object-After k (parameter p ∷ values) c h (b, a) =
      bind-After k (λ _. add_each_object values) (add_named p c) (add_named-After k p c h b)
        (λ _ c' h'. add_each_object-After k values c' h' a)

  put_named-After :
      (k i p : ℕ) (m : Bytes) (c : Collection Object)
      → Within k c
      → p < k
      → place m (names c) ≡ some i
      → (n : Bytes) → name_at c p ≡ n
      → n ≢ []
      → After k ((refuse_other (some n) (some m) >> put i p) c)
  put_named-After k i p m c (n, e, f) b q nm s a = go (bytes_eq nm m) refl
    where
      go :
          (t : Bool)
          → bytes_eq nm m ≡ t
          → After k (((if t then pure tt else refuse_known (some nm)) >> put i p) c)
      go true t = (
        Named-same (name_at c) m i p c.items n q (s ∙ (bytes_eq_iff nm m).0 t),
        Each-set (λ q. q < k) i p c.items e b,
        f,
      )
      go false t =
          known-After k nm (put i p) c (n, e, f)
            (λ x y.
              put-Within k i p c (n, e, f) b (λ z. x (sym s ∙ z))
                (subst (λ n. Away (name_at c) n c.items) (sym s) y))

  pub replace_named-After :
      (k p : ℕ) (m : Bytes) (c : Collection Object)
      → Within k c
      → p < k
      → After k (replace_named (some m) p c)
  unfolding replace_named index_of
  replace_named-After k p [] c h b = h
  replace_named-After k p (x ∷ m) c h b = go (place (x ∷ m) (names c)) refl
    where
      go :
          (o : Option ℕ)
          → place (x ∷ m) (names c) ≡ o
          → After k (
              continue
                (λ i d.
                  ((refuse_unnamed (some (name_at d p)))
                      >> (refuse_other (some (name_at d p)) (some (x ∷ m)) >> put i p))
                    d)
                (checked o index_out_of_range c))
      go none e = h
      go (some i) e =
          unnamed-After k (name_at c p)
            (refuse_other (some (name_at c p)) (some (x ∷ m)) >> put i p) c h
            (λ n. put_named-After k i p (x ∷ m) c h b e (name_at c p) refl n)
