-- ===== src/Sql/Rewrite/Lookup.antt =====
-- What the table of named parameters answers after the loop.
use nuodb_drivers.Prelude.{
  ℕ, ◌+◌, Option, none, some, List, [], ◌∷◌, ◌++◌, ◌≡◌, refl, ◌∙◌, arith, Bytes, bytes_eq,
  if◌then◌else◌,
}
use nuodb_drivers.Zend.{HashTable}
use nuodb_drivers.Sql.Rewrite.{Scan, rewrite}
use nuodb_drivers.Sql.Rewrite.Tokens.{
  Token, text, literal, positional, named, written, key, WellFormed, bound,
}
use nuodb_drivers.Sql.Rewrite.Replace.{rewrite_tokens}

-- The number of the last parameter that is called `name`; `n` parameters stand before the tokens.
abbrev pub last_index : Bytes → ℕ → List Token → Option ℕ
last_index name n [] = none
last_index name n (positional ∷ ts) = last_index name (n + 1) ts
last_index name n (named other ∷ ts) =
    let later = last_index name (n + 1) ts in
    elim later [ none ↦ if bytes_eq other name then some n else none | some i ↦ some i ]
last_index name n (_ ∷ ts) = last_index name n ts

abbrev or_else : Option ℕ → Option ℕ → Option ℕ
or_else none d = d
or_else (some i) d = some i

bytes_eq-key : (a b : Bytes) → bytes_eq (a ++ 0 ∷ []) (b ++ 0 ∷ []) ≡ bytes_eq a b
bytes_eq-key [] [] = refl
bytes_eq-key [] (y ∷ []) = ground arith
bytes_eq-key [] (y ∷ z ∷ b) = ground arith
bytes_eq-key (x ∷ []) [] = ground arith
bytes_eq-key (x ∷ z ∷ a) [] = ground arith
bytes_eq-key (x ∷ a) (y ∷ b) = rw (bytes_eq-key a b)

module _ (zend : HashTable) where
  open zend use {Table, empty, update, find, find_update, find_empty}

  find-bound :
      (name : Bytes) (n : ℕ) (ts : List Token) (t : Table)
      → find (key name) (bound zend n ts t) ≡ or_else (last_index name n ts) (find (key name) t)
  find-bound name n [] t = refl
  find-bound name n (text c ∷ ts) t = find-bound name n ts t
  find-bound name n (literal body ∷ ts) t = find-bound name n ts t
  find-bound name n (positional ∷ ts) t = find-bound name (n + 1) ts t
  find-bound name n (named other ∷ ts) t = ground (
    arith,
    find-bound name (n + 1) ts (update (key other) n t),
    find_update (key name) (key other) n t,
    bytes_eq-key other name,
  )

  -- After the rewriting of well-formed tokens the table answers, for each name, the number of the
  -- last parameter that is written with this name, and has no entry for any other name.
  pub rewrite_find :
      (ts : List Token) (name : Bytes)
      → WellFormed ts
      → (s : Scan zend) × (rewrite zend (written ts) ≡ some s)
        × (find (key name) s.names ≡ last_index name 0 ts)
  rewrite_find ts name w =
      let (s, e, _, _, names) = rewrite_tokens zend ts w in
      (s, e, rw names (find-bound name 0 ts empty ∙ ground (arith, find_empty (key name))))
