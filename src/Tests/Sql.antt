-- ===== src/Tests/Sql.antt =====
-- The rewriting, the quoter and the kind of a statement, at concrete texts.
use nuodb_drivers.Prelude.{
  ◌+◌, ◌≤◌, none, some, List, [], ◌∷◌, ◌++◌, ◌≡◌, refl, arith, Bytes, length, codes, replicate,
}
use nuodb_drivers.Sql.Rewrite.{is_name, Scan, rewrite}
use nuodb_drivers.Sql.Rewrite.Bounds.{rewrite-Returns, rewrite_overrun}
use nuodb_drivers.Sql.Rewrite.Tokens.{Token, text, literal, positional, named, bound}
use nuodb_drivers.Sql.Rewrite.Replace.{rewrite_tokens}
use nuodb_drivers.Sql.Rewrite.Lookup.{rewrite_find}
use nuodb_drivers.Sql.Rewrite.Steps.{IsName}
use nuodb_drivers.Sql.Quote.{quoter}
use nuodb_drivers.Sql.Quote.Tokens.{rewrite-quoter}
use nuodb_drivers.Sql.Quote.RoundTrip.{quoter_round_trip, read_literal}
use nuodb_drivers.Sql.Quote.Literal.{quoter_lem}
use nuodb_drivers.Sql.Kind.{statement_kind, classify, select_kind, to_upper, is_space}
use nuodb_drivers.Sql.Kind.Words.{statement_kind-visible}
use nuodb_drivers.Tests.Samples.{table}

-- `a=:x,':?',?` and `:x` again
abbrev tokens : List Token
tokens =
    text b'a'
    ∷ text b'='
    ∷ named (codes "x")
    ∷ text b','
    ∷ literal (codes ":?")
    ∷ text b','
    ∷ positional
    ∷ text b' '
    ∷ named (codes "x")
    ∷ []

rewrite_tokens_example :
    (s : Scan table) × (rewrite table (codes "a=:x,':?',? :x") ≡ some s)
    × (s.out ≡ codes "a=?,':?',? ?" ++ 0 ∷ [])
    × (s.placeholders ≡ 3)
    × (s.names ≡ bound table 0 tokens [])
unfolding is_name
rewrite_tokens_example = rewrite_tokens table tokens (ground arith)

rewrite_find_example :
    (s : Scan table) × (rewrite table (codes "a=:x,':?',? :x") ≡ some s)
    × (table.find (codes ":x" ++ 0 ∷ []) s.names ≡ some 2)
unfolding is_name
rewrite_find_example = rewrite_find table tokens (codes "x") (ground arith)

rewrite-Returns_example :
    (s : Scan table) × (rewrite table (codes "a=:x") ≡ some s) × (length s.out ≤ 5)
unfolding is_name
rewrite-Returns_example = rewrite-Returns table (codes "a=:x") (ground arith)

rewrite-quoter_example :
    (quoted : Bytes) × (quoter (codes "it's :x?") ≡ (quoted ++ 0 ∷ [], length quoted))
    × ((s : Scan table) × (rewrite table (codes "a=" ++ (quoted ++ codes ",?")) ≡ some s)
        × (s.out ≡ codes "a=" ++ (quoted ++ (codes ",?" ++ 0 ∷ [])))
        × (s.placeholders ≡ 0 + 1))
rewrite-quoter_example =
    rewrite-quoter table (text b'a' ∷ text b'=' ∷ []) (text b',' ∷ positional ∷ [])
      (codes "it's :x?") (ground arith) (ground arith) refl

quoter_round_trip_example :
    (quoted : Bytes) × (quoter (codes "it's") ≡ (quoted ++ 0 ∷ [], length quoted))
    × (read_literal (quoted ++ codes ", 1") ≡ some (codes "it's", codes ", 1"))
quoter_round_trip_example = quoter_round_trip (codes "it's") (codes ", 1") refl refl

quoter_lem_example :
    quoter (b'a' ∷ b'\'' ∷ 0 ∷ b'b' ∷ [])
    ≡ (b'\'' ∷ b'a' ∷ b'\'' ∷ b'\'' ∷ 0 ∷ 0 ∷ b'\'' ∷ 0 ∷ [], 7)
quoter_lem_example = quoter_lem (b'a' ∷ b'\'' ∷ 0 ∷ b'b' ∷ [])

statement_kind-visible_example : statement_kind (codes " Select 1") ≡ some select_kind
unfolding is_space to_upper classify
statement_kind-visible_example = statement_kind-visible (codes " Select 1") refl (omega arith)

abbrev long_name : Bytes
long_name = replicate 64 b'x'

long_name-IsName : IsName long_name
unfolding is_name
long_name-IsName = ground arith

rewrite_overrun_example :
    rewrite table (codes "SELECT ':?' WHERE a = ? AND " ++ b':' ∷ (long_name ++ codes " = 1"))
    ≡ none
rewrite_overrun_example =
    rewrite_overrun table (codes "SELECT ':?' WHERE a = ? AND ") long_name (codes " = 1") refl
      long_name-IsName (omega arith)
