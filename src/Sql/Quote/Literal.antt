-- ===== src/Sql/Quote/Literal.antt =====
-- The quoter against a plain description of SQL literals.
use nuodb_drivers.Prelude.{
  ℕ, zero, suc, ◌+◌, ◌-◌, ◌≤◌, ◌<◌, none, some, [], ◌∷◌, ◌++◌, ◌≡◌, refl, ◌∙◌, ap, arith, Bytes,
  length, length-append, replicate, count, ◌==◌, if◌then◌else◌, append_assoc, Option-cases, inl,
  inr,
}
use native.Mathlib.Nat.{le_refl}
use nuodb_drivers.Sql.Quote.{strchr, strncpy, count_quotes, copy_chunks, quoter}

-- Each quote twice.
abbrev pub doubled : Bytes → Bytes
doubled [] = []
doubled (c ∷ cs) = if c == b'\'' then c ∷ c ∷ doubled cs else c ∷ doubled cs

-- The C string at the start of a buffer.
abbrev pub c_string : Bytes → Bytes
c_string [] = []
c_string (c ∷ cs) = if c == 0 then [] else c ∷ c_string cs

-- What `strchr` splits off: nothing but its last byte is a quote, and there is no NUL.
record Split (text chunk rest : Bytes) : Type 0 where
  string : c_string text ≡ chunk ++ c_string rest
  twice : doubled (c_string text) ≡ chunk ++ (b'\'' ∷ doubled (c_string rest))
  quotes : count b'\'' (c_string text) ≡ suc (count b'\'' (c_string rest))
  size : length text ≡ length chunk + length rest
  shorter : length rest < length text

strchr-some :
    (text chunk rest : Bytes) → strchr b'\'' text ≡ some (chunk, rest) → Split text chunk rest
unfolding strchr
strchr-some [] chunk rest e = cc
strchr-some (c ∷ cs) chunk rest e = elim (Option-cases (strchr b'\'' cs)) [
  | inl n ↦ ground arith
  | inr ((ch, r), f) ↦ ground (arith, strchr-some cs ch r f)
]

strchr-none :
    (text : Bytes)
    → strchr b'\'' text ≡ none
    → (doubled (c_string text) ≡ c_string text) × (count b'\'' (c_string text) ≡ 0)
unfolding strchr
strchr-none [] e = (refl, refl)
strchr-none (c ∷ cs) e = ground (arith, strchr-none cs)

count_quotes-count :
    (fuel : ℕ) (text : Bytes) (n : ℕ)
    → length text ≤ fuel
    → count_quotes fuel text n ≡ n + count b'\'' (c_string text)
unfolding count_quotes
count_quotes-count zero [] n h = omega arith
count_quotes-count zero (c ∷ cs) n h = absurd (omega arith)
count_quotes-count (suc fuel) text n h = elim (Option-cases (strchr b'\'' text)) [
  | inl e ↦ ground (arith, strchr-none text e)
  | inr ((chunk, rest), e) ↦
      let split = strchr-some text chunk rest e in
      ground (arith, split.quotes, split.shorter, count_quotes-count fuel rest (n + 1))
]

count_quotes-all : (s : Bytes) → count_quotes (length s) s 0 ≡ count b'\'' (c_string s)
count_quotes-all s = omega (arith, count_quotes-count (length s) s 0 (le_refl (length s)))

-- The state of the chunk loop at its end: `r` is left to copy, and holds no quote.
record Copied (out text o r : Bytes) : Type 0 where
  doubles : o ++ c_string r ≡ out ++ doubled (c_string text)
  lengths : length o + length r ≡ length out + length text + count b'\'' (c_string text)
  padding : length r + length (c_string text) ≡ length text + length (c_string r)

copy_chunks-Copied :
    (fuel : ℕ) (out text : Bytes)
    → length text ≤ fuel
    → Copied out text (copy_chunks fuel out text).0 (copy_chunks fuel out text).1
unfolding copy_chunks
copy_chunks-Copied zero out [] h = record { doubles = refl; lengths = omega arith; padding = refl }
copy_chunks-Copied zero out (c ∷ cs) h = absurd (omega arith)
copy_chunks-Copied (suc fuel) out text h = elim (Option-cases (strchr b'\'' text)) [
  | inl e ↦ ground (arith, strchr-none text e)
  | inr ((chunk, rest), e) ↦
      let split = strchr-some text chunk rest e in
      let out' = out ++ (chunk ++ b'\'' ∷ []) in
      let ih = copy_chunks-Copied fuel out' rest (omega (arith, split.shorter)) in
      rw (e, copy_chunks)
        (record {
          doubles = ih.doubles ∙ simp (split.twice, append_assoc);
          lengths = omega (
            arith,
            ih.lengths,
            split.size,
            split.quotes,
            length-append out (chunk ++ b'\'' ∷ []),
            length-append chunk (b'\'' ∷ []),
          );
          padding = omega (
            arith,
            ih.padding,
            split.size,
            ap length split.string,
            length-append chunk (c_string rest),
          );
        })
]

strncpy_lem :
    (n : ℕ) (text : Bytes)
    → length text ≡ n
    → strncpy n text ≡ c_string text ++ replicate (n - length (c_string text)) 0
unfolding strncpy
strncpy_lem zero [] h = refl
strncpy_lem zero (c ∷ cs) h = absurd (omega arith)
strncpy_lem (suc n) [] h = absurd (omega arith)
strncpy_lem (suc n) (c ∷ cs) h = ground (arith, strncpy_lem n cs)

length-c_string : (s : Bytes) → length (c_string s) ≤ length s
length-c_string [] = omega arith
length-c_string (c ∷ cs) = ground (arith, length-c_string cs)

-- The length that is left for the remainder is the remainder's.
assembled :
    (s o r : Bytes)
    → Copied (b'\'' ∷ []) s o r
    → o ++ (strncpy (length s + count b'\'' (c_string s) + 2 - length o - 1) r ++ b'\'' ∷ 0 ∷ [])
      ≡ b'\''
        ∷ (doubled (c_string s) ++ (replicate (length s - length (c_string s)) 0 ++ b'\'' ∷ 0 ∷ []))
assembled s o r h =
    let left : length s + count b'\'' (c_string s) + 2 - length o - 1 ≡ length r =
      omega (arith, h.lengths) in
    let pad : length r - length (c_string r) ≡ length s - length (c_string s) =
      omega (arith, h.padding, length-c_string r, length-c_string s) in
    rw left (
      rw (strncpy_lem (length r) r refl)
        (rw pad (simp append_assoc (rw (← append_assoc o (c_string r)) (rw h.doubles refl)))))

-- `nuodb_handle_quoter` returns the C string in the value between two quotes, each quote in it
-- doubled; a value with a NUL is cut there, and NULs fill the length that it had.
pub quoter_lem :
    (s : Bytes)
    → quoter s ≡ (
      b'\''
          ∷ (doubled (c_string s)
              ++ (replicate (length s - length (c_string s)) 0 ++ b'\'' ∷ 0 ∷ [])),
      length s + count b'\'' (c_string s) + 2,
    )
unfolding quoter
quoter_lem [] = refl
quoter_lem (u ∷ us) =
    let s = u ∷ us in
    rw (count_quotes-all s)
      (rw (assembled s _ _ (copy_chunks-Copied (length s) (b'\'' ∷ []) s (le_refl (length s)))))
