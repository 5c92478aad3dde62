-- ===== src/Sql/Rewrite/Tokens.antt =====
-- A statement as a list of tokens: what is written, and what the driver should make of it.
use nuodb_drivers.Prelude.{
  ℕ, suc, ◌+◌, ◌≤◌, false, List, [], ◌∷◌, ◌++◌, ◌≡◌, Bytes, length, count, ◌==◌,
}
use nuodb_drivers.Zend.{HashTable}
use nuodb_drivers.Sql.Rewrite.{is_name, pname_size}
use nuodb_drivers.Sql.Rewrite.Steps.{IsName}

-- A byte outside of quotes, a quoted literal, `?`, and `:name`.
pub data Token : Type 0 where
  text : ℕ → Token
  literal : Bytes → Token
  positional : Token
  named : Bytes → Token

-- The statement that the application writes.
abbrev pub written : List Token → Bytes
written [] = []
written (text c ∷ ts) = c ∷ written ts
written (literal body ∷ ts) = b'\'' ∷ (body ++ (b'\'' ∷ written ts))
written (positional ∷ ts) = b'?' ∷ written ts
written (named name ∷ ts) = b':' ∷ (name ++ written ts)

-- The statement that is prepared.
abbrev pub replaced : List Token → Bytes
replaced [] = []
replaced (text c ∷ ts) = c ∷ replaced ts
replaced (literal body ∷ ts) = b'\'' ∷ (body ++ (b'\'' ∷ replaced ts))
replaced (positional ∷ ts) = b'?' ∷ replaced ts
replaced (named name ∷ ts) = b'?' ∷ replaced ts

-- The number of its parameters.
abbrev pub marks : List Token → ℕ
marks [] = 0
marks (positional ∷ ts) = suc (marks ts)
marks (named name ∷ ts) = suc (marks ts)
marks (_ ∷ ts) = marks ts

-- The key of a name in the table: as it is written, with its NUL.
abbrev pub key : Bytes → Bytes
key name = b':' ∷ (name ++ 0 ∷ [])

-- What may follow a name: not a byte that goes on with it, nor a parameter.
abbrev pub EndsName : List Token → Type 0
EndsName [] = Unit
EndsName (text c ∷ ts) = is_name c ≡ false
EndsName (literal body ∷ ts) = Unit
EndsName (_ ∷ ts) = ⊥

abbrev pub WellFormed : List Token → Type 0
WellFormed [] = Unit
WellFormed (text c ∷ ts) =
    ((c == b'\'') ≡ false) × ((c == b':') ≡ false) × ((c == b'?') ≡ false) × WellFormed ts
WellFormed (literal body ∷ ts) = (count b'\'' body ≡ 0) × WellFormed ts
WellFormed (positional ∷ ts) = WellFormed ts
WellFormed (named name ∷ ts) =
    IsName name × (length name + 2 ≤ pname_size) × EndsName ts × WellFormed ts

module _ (zend : HashTable) where
  open zend use {Table, update}

  -- The table with each name at its parameter's number, counted from 0; `n` parameters stand
  -- before the tokens. The last occurrence of a name wins.
  abbrev pub bound : ℕ → List Token → Table → Table
  bound n [] t = t
  bound n (positional ∷ ts) t = bound (n + 1) ts t
  bound n (named name ∷ ts) t = bound (n + 1) ts (update (key name) n t)
  bound n (_ ∷ ts) t = bound n ts t
