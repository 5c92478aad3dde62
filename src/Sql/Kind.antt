-- ===== src/Sql/Kind.antt =====
-- How `PdoNuoDbStatement::createStatement` (php_pdo/pdo_nuodb/php_pdo_nuodb_cpp_int.cpp) tells
-- queries, updates and inserts apart. `none` is a read behind the NUL that ends the text.
pub mod Words
use nuodb_drivers.Prelude.{
  ℕ, zero, suc, ◌-◌, Bool, ◌&&◌, ◌||◌, Option, none, some, [], ◌∷◌, ◌++◌, Bytes, bytes_eq, length,
  replicate, leb, ◌==◌, if◌then◌else◌,
}
use nuodb_drivers.Prelude.Partial.{◌>>=◌}

-- `isspace` and `toupper` of the C locale.
unfoldable pub is_space : ℕ → Bool
is_space c = c == b' ' || leb 9 c && leb c 13

unfoldable pub to_upper : ℕ → ℕ
to_upper c = if leb b'a' c && leb c b'z' then c - 32 else c

-- `while(isspace(sql[j])) j++;` The list is the memory from `sql[j]` to the NUL.
unfoldable pub skip_spaces : Bytes → Option Bytes
unfolding is_space
skip_spaces [] = none
skip_spaces (c ∷ cs) = let rest = skip_spaces cs in if is_space c then rest else some (c ∷ cs)

-- The assignment to `up_sql[i]` at `sql[j]`, and the memory from `sql[j + 1]`.
unfoldable pub upper_head : Bytes → Bytes → Option (Bytes × Bytes)
unfolding to_upper
upper_head up_sql [] = none
upper_head up_sql (d ∷ ds) = some (up_sql ++ to_upper d ∷ [], ds)

-- The loop over `i`, with the rounds that are left, the memory from `sql[i]` and from `sql[j]`.
unfoldable pub upper_loop : ℕ → Bytes → Bytes → Bytes → Option Bytes
unfolding skip_spaces upper_head
upper_loop zero at_i at_j up_sql = some up_sql
upper_loop (suc rounds) [] at_j up_sql = none
upper_loop (suc rounds) (c ∷ cs) at_j up_sql = do
  at_j' ← skip_spaces at_j
  let more = upper_head up_sql at_j' >>= λ (up_sql', ds). upper_loop rounds cs ds up_sql'
  if c == 0 then some up_sql else more

abbrev pub select : Bytes
select = b'S' ∷ b'E' ∷ b'L' ∷ b'E' ∷ b'C' ∷ b'T' ∷ []

abbrev pub update : Bytes
update = b'U' ∷ b'P' ∷ b'D' ∷ b'A' ∷ b'T' ∷ b'E' ∷ []

abbrev pub insert : Bytes
insert = b'I' ∷ b'N' ∷ b'S' ∷ b'E' ∷ b'R' ∷ b'T' ∷ []

-- `_stmt_type`
pub data Kind : Type 0 where
  unknown select_kind update_kind insert_kind : Kind

-- `strncmp(up_sql, word, 6) == 0` for a word of six letters
abbrev matches : Bytes → Bytes → Bool
matches up_sql word = bytes_eq (up_sql ++ replicate (6 - length up_sql) 0) word

unfoldable pub classify : Bytes → Kind
classify up_sql =
    if matches up_sql insert
    then insert_kind
    else if matches up_sql update
    then update_kind
    else if matches up_sql select
    then select_kind
    else unknown

unfoldable pub statement_kind : Bytes → Option Kind
statement_kind sql = do
  up_sql ← upper_loop 6 (sql ++ 0 ∷ []) (sql ++ 0 ∷ []) []
  some (classify up_sql)
