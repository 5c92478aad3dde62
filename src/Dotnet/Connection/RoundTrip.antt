-- ===== src/Dotnet/Connection/RoundTrip.antt =====
-- dotnet/nuodb/connection.cpp: a connection string is read back.
use nuodb_drivers.Prelude.{
  ℕ, Bool, true, false, some, List, map, [], ◌∷◌, ◌++◌, Bytes, codes, count, ◌==◌, ◌≡◌, ◌≢◌, refl,
  sym, ap, ◌∙◌, arith, ◌+◌,
}
use nuodb_drivers.Dotnet.Calls.{ok, continue}
use nuodb_drivers.Dotnet.Library.{Library}
use nuodb_drivers.Dotnet.Objects.{Connection, State}
use nuodb_drivers.Dotnet.Connection.Parse.{
  split, trim, assign, assign_trimmed, parse_item, parse_items, parse_string,
}

pub data Key : Type 0 where
  database schema user password : Key

abbrev pub text : Key → Bytes
text Key.database = codes "Database"
text Key.schema = codes "Schema"
text Key.user = codes "User"
text Key.password = codes "Password"

abbrev pub same : Key → Key → Bool
same Key.database Key.database = true
same Key.schema Key.schema = true
same Key.user Key.user = true
same Key.password Key.password = true
same _ _ = false

-- `Key=value`, and items with `;` between them
abbrev pub item : Key × Bytes → Bytes
item (k, v) = text k ++ 61 ∷ v

abbrev pub items : Key × Bytes → List (Key × Bytes) → Bytes
items x [] = item x
items x (y ∷ ys) = item x ++ 59 ∷ items y ys

-- What the driver uses of .NET for the keys: they are compared as they are spelt, and have no white
-- space at their ends.
pub record Reads (lib : Library) : Type 0 where
  pub compared : (k l : Key) → lib.equals (text k) (text l) ≡ same k l
  pub trimmed : (k : Key) → trim lib.is_white_space (text k) ≡ text k

-- A value without the two separators that is not all white space
pub record Plain (lib : Library) (v : Bytes) : Type 0 where
  pub no_semicolon : count 59 v ≡ 0
  pub no_equals : count 61 v ≡ 0
  pub first : ℕ
  pub rest : Bytes
  pub visible : trim lib.is_white_space v ≡ first ∷ rest

split-none : (d : ℕ) (xs : Bytes) → count d xs ≡ 0 → split d xs ≡ xs ∷ []
split-none d [] h = refl
split-none d (x ∷ xs) h = go (x == d) refl (split-none d xs)
  where
    go :
        (t : Bool)
        → x == d ≡ t
        → (count d xs ≡ 0 → split d xs ≡ xs ∷ [])
        → split d (x ∷ xs) ≡ (x ∷ xs) ∷ []
    go true t f = absurd (ground (arith, h, t))
    go false t f = ground (arith, h, t, f)

split-append : (d : ℕ) (xs ys : Bytes) → count d xs ≡ 0 → split d (xs ++ d ∷ ys) ≡ xs ∷ split d ys
split-append d [] ys h = ground arith
split-append d (x ∷ xs) ys h = go (x == d) refl (split-append d xs ys)
  where
    go :
        (t : Bool)
        → x == d ≡ t
        → (count d xs ≡ 0 → split d (xs ++ d ∷ ys) ≡ xs ∷ split d ys)
        → split d (x ∷ (xs ++ d ∷ ys)) ≡ (x ∷ xs) ∷ split d ys
    go true t f = absurd (ground (arith, h, t))
    go false t f = ground (arith, h, t, f)

count-append : (d : ℕ) (xs ys : Bytes) → count d (xs ++ ys) ≡ count d xs + count d ys
count-append d [] ys = omega arith
count-append d (x ∷ xs) ys = ground (arith, count-append d xs ys)

no_equals : (k : Key) → count 61 (text k) ≡ 0
no_equals Key.database = refl
no_equals Key.schema = refl
no_equals Key.user = refl
no_equals Key.password = refl

no_semicolon : (k : Key) → count 59 (text k) ≡ 0
no_semicolon Key.database = refl
no_semicolon Key.schema = refl
no_semicolon Key.user = refl
no_semicolon Key.password = refl

module _ (lib : Library) where
  abbrev pub store : Key → Bytes → Connection lib → Connection lib
  store Key.database v c = record c { database = v }
  store Key.schema v c = record c { schema = v }
  store Key.user v c = record c { username = v }
  store Key.password v c = record c { password = v }

  -- The trimmed values, one after another
  abbrev pub stores : List (Key × Bytes) → Connection lib → Connection lib
  stores [] c = c
  stores ((k, v) ∷ xs) c = stores xs (store k (trim lib.is_white_space v) c)

  abbrev pub cleared : Connection lib → Connection lib
  cleared c = record c { database = []; schema = []; username = []; password = [] }

  abbrev pub PlainAll : List (Key × Bytes) → Type 0
  PlainAll [] = Unit
  PlainAll ((k, v) ∷ xs) = Plain lib v × PlainAll xs

  assign-text :
      (k : Key) (v : Bytes) (s : State lib)
      → Reads lib
      → assign lib (text k) v s ≡ (ok tt, record s { conn = store k v s.conn })
  unfolding assign
  assign-text Key.database v s r = ground (arith, r.compared Key.database Key.database)
  assign-text Key.schema v s r =
      ground (arith, r.compared Key.schema Key.schema, r.compared Key.schema Key.database)
  assign-text Key.user v s r = ground (
    arith,
    r.compared Key.user Key.user,
    r.compared Key.user Key.schema,
    r.compared Key.user Key.database,
  )
  assign-text Key.password v s r = ground (
    arith,
    r.compared Key.password Key.password,
    r.compared Key.password Key.user,
    r.compared Key.password Key.schema,
    r.compared Key.password Key.database,
  )

  split-items :
      (x : Key × Bytes) (xs : List (Key × Bytes))
      → PlainAll (x ∷ xs)
      → split 59 (items x xs) ≡ map item (x ∷ xs)
  split-items (k, v) [] (p, q) =
      split-none 59 (item (k, v))
        (ground (arith, count-append 59 (text k) (61 ∷ v), no_semicolon k, p.no_semicolon))
  split-items (k, v) (y ∷ ys) (p, q) =
      split-append 59 (item (k, v)) (items y ys)
        (ground (arith, count-append 59 (text k) (61 ∷ v), no_semicolon k, p.no_semicolon))
      ∙ ap (λ l. item (k, v) ∷ l) (split-items y ys q)

  split-item : (k : Key) (v : Bytes) → Plain lib v → split 61 (item (k, v)) ≡ text k ∷ v ∷ []
  split-item k v p =
      split-append 61 (text k) v (no_equals k) ∙ ap (λ l. text k ∷ l) (split-none 61 v p.no_equals)

  assign_trimmed-text :
      (k : Key) (v : Bytes) (s : State lib)
      → Reads lib
      → v ≢ []
      → assign_trimmed lib (text k) v s ≡ (ok tt, record s { conn = store k v s.conn })
  assign_trimmed-text k [] s r n = absurd (n refl)
  assign_trimmed-text Key.database (c ∷ v) s r n = assign-text Key.database (c ∷ v) s r
  assign_trimmed-text Key.schema (c ∷ v) s r n = assign-text Key.schema (c ∷ v) s r
  assign_trimmed-text Key.user (c ∷ v) s r n = assign-text Key.user (c ∷ v) s r
  assign_trimmed-text Key.password (c ∷ v) s r n = assign-text Key.password (c ∷ v) s r

  parse_item-item :
      (k : Key) (v : Bytes) (s : State lib)
      → Reads lib
      → Plain lib v
      → parse_item lib (split 61 (item (k, v))) s
        ≡ (ok tt, record s { conn = store k (trim lib.is_white_space v) s.conn })
  unfolding parse_item
  parse_item-item k v s r p =
      ap (λ l. parse_item lib l s) (split-item k v p)
      ∙ ap (λ t. assign_trimmed lib t (trim lib.is_white_space v) s) (r.trimmed k)
      ∙ assign_trimmed-text k (trim lib.is_white_space v) s r (λ e. cons-nil (sym p.visible ∙ e))
    where
      cons-nil : {c : ℕ} {cs : Bytes} → c ∷ cs ≡ [] → ⊥
      cons-nil e = cc

  parse_items-items :
      (xs : List (Key × Bytes)) (s : State lib)
      → Reads lib
      → PlainAll xs
      → parse_items lib (map item xs) s ≡ (ok tt, record s { conn = stores xs s.conn })
  unfolding parse_items
  parse_items-items [] s r p = refl
  parse_items-items ((k, v) ∷ xs) s r (p, q) =
      ap (continue (λ _. parse_items lib (map item xs))) (parse_item-item k v s r p)
      ∙ parse_items-items xs (record s { conn = store k (trim lib.is_white_space v) s.conn }) r q

  parse_string-cons :
      (b : Bytes) (s : State lib)
      → b ≢ []
      → parse_string lib (some b) s
        ≡ parse_items lib (split 59 b) (record s { conn = cleared s.conn })
  unfolding parse_string
  parse_string-cons [] s n = absurd (n refl)
  parse_string-cons (c ∷ cs) s n = refl

  items-cons : (x : Key × Bytes) (xs : List (Key × Bytes)) → items x xs ≢ []
  items-cons (Key.database, v) [] = λ e. cc
  items-cons (Key.schema, v) [] = λ e. cc
  items-cons (Key.user, v) [] = λ e. cc
  items-cons (Key.password, v) [] = λ e. cc
  items-cons (Key.database, v) (y ∷ ys) = λ e. cc
  items-cons (Key.schema, v) (y ∷ ys) = λ e. cc
  items-cons (Key.user, v) (y ∷ ys) = λ e. cc
  items-cons (Key.password, v) (y ∷ ys) = λ e. cc

  -- A connection string of items `key=value` with `;` between them and not behind the last, whose
  -- values have neither of the two separators and are not all white space, is read back, where .NET
  -- compares the four keys as they are spelt and trims nothing from them: the parser returns, each
  -- setting is the trimmed value of the last item with its key, and the others are empty.
  pub parse_string-items :
      (x : Key × Bytes) (xs : List (Key × Bytes)) (s : State lib)
      → Reads lib
      → PlainAll (x ∷ xs)
      → parse_string lib (some (items x xs)) s
        ≡ (ok tt, record s { conn = stores (x ∷ xs) (cleared s.conn) })
  parse_string-items x xs s r p =
      parse_string-cons (items x xs) s (items-cons x xs)
      ∙ ap (λ l. parse_items lib l (record s { conn = cleared s.conn })) (split-items x xs p)
      ∙ parse_items-items (x ∷ xs) (record s { conn = cleared s.conn }) r p
