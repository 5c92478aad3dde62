-- ===== src/Sql/Quote.antt =====
-- `nuodb_handle_quoter` (php_pdo/pdo_nuodb/nuodb_driver.c): a value as an SQL literal. The text is
-- the buffer `unquoted` with no terminator; its end reads as the NUL that ends it.
pub mod Literal
pub mod RoundTrip
pub mod Tokens
use nuodb_drivers.Prelude.{
  ℕ, zero, suc, ◌+◌, ◌-◌, Option, none, some, [], ◌∷◌, ◌++◌, Bytes, length, replicate, ◌==◌,
  if◌then◌else◌,
}

-- `strchr(text, ch)`: the text up to and with the first `ch`, and what follows it.
unfoldable pub strchr : ℕ → Bytes → Option (Bytes × Bytes)
strchr ch [] = none
strchr ch (c ∷ cs) =
    let found = strchr ch cs in
    if c == ch
    then some (c ∷ [], cs)
    else if c == 0
    then none
    else elim found [ none ↦ none | some (chunk, rest) ↦ some (c ∷ chunk, rest) ]

-- `strncpy(dest, text, n)`: always `n` bytes, with NULs behind the end of the text.
unfoldable pub strncpy : ℕ → Bytes → Bytes
strncpy zero text = []
strncpy (suc n) [] = replicate (suc n) 0
strncpy (suc n) (c ∷ cs) =
    let rest = strncpy n cs in if c == 0 then replicate (suc n) 0 else c ∷ rest

-- `for (co = unquoted; (co = strchr(co,'\'')); qcount++, co++);`
unfoldable pub count_quotes : ℕ → Bytes → ℕ → ℕ
unfolding strchr
count_quotes zero co qcount = qcount
count_quotes (suc fuel) co qcount = elim (strchr b'\'' co) [
  | none ↦ qcount
  | some (chunk, rest) ↦ count_quotes fuel rest (qcount + 1)
]

-- The loop over the chunks that end in a quote: what is written, and the remainder.
unfoldable pub copy_chunks : ℕ → Bytes → Bytes → Bytes × Bytes
unfolding strchr
copy_chunks zero out l = (out, l)
copy_chunks (suc fuel) out l = elim (strchr b'\'' l) [
  | none ↦ (out, l)
  | some (chunk, rest) ↦ copy_chunks fuel (out ++ (chunk ++ b'\'' ∷ [])) rest
]

-- The buffer `*quoted`, with its NUL, and `*quotedlen`. Each loop has a round for every byte.
unfoldable pub quoter : Bytes → Bytes × ℕ
quoter [] = (b'\'' ∷ b'\'' ∷ 0 ∷ [], 2)
quoter (u ∷ us) =
    let unquoted = u ∷ us in
    let qcount = count_quotes (length unquoted) unquoted 0 in
    let quotedlen = length unquoted + qcount + 2 in
    let (out, l) = copy_chunks (length unquoted) (b'\'' ∷ []) unquoted in
    (out ++ (strncpy (quotedlen - length out - 1) l ++ b'\'' ∷ 0 ∷ []), quotedlen)
