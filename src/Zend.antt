-- ===== src/Zend.antt =====
-- What the PDO driver (php_pdo/pdo_nuodb) uses of the Zend engine: its hash table of named
-- parameters. The engine is not part of the repository, so the table is a parameter.
use nuodb_drivers.Prelude.{
  ℕ, ◌≡◌, Option, none, some, List, [], ◌∷◌, ◌++◌, Bytes, bytes_eq, if◌then◌else◌,
}

-- `zend_hash_init`, `_update`, `_find`, and the keys in the order of the iteration. A key is given
-- with its terminating NUL, as the engine counts it. An update of a key that is present keeps its
-- place.
pub record HashTable : Type 1 where
  pub Table : Type 0
  pub empty : Table
  pub update : Bytes → ℕ → Table → Table
  pub find : Bytes → Table → Option ℕ
  pub keys : Table → List Bytes
  pub find_empty : (k : Bytes) → find k empty ≡ none
  pub find_update :
      (j k : Bytes) (v : ℕ) (t : Table)
      → find j (update k v t) ≡ (if bytes_eq k j then some v else find j t)
  pub keys_empty : keys empty ≡ []
  pub keys_update :
      (k : Bytes) (v : ℕ) (t : Table)
      → keys (update k v t) ≡ elim (find k t) [ none ↦ keys t ++ k ∷ [] | some _ ↦ keys t ]
