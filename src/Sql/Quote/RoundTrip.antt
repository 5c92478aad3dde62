-- ===== src/Sql/Quote/RoundTrip.antt =====
-- A quoted value reads back as the value.
use nuodb_drivers.Prelude.{
  ℕ, ◌+◌, Bool, true, false, Bool-cases, inl, inr, ◌∙◌, Option, none, some, [], ◌∷◌, ◌++◌, ◌≡◌,
  refl, arith, Bytes, length, length-append, count, ◌==◌, if◌then◌else◌, append_assoc, ◌-◌,
}
use nuodb_drivers.Sql.Quote.{quoter}
use nuodb_drivers.Sql.Quote.Literal.{doubled, c_string, quoter_lem}

abbrev push : ℕ → Option (Bytes × Bytes) → Option (Bytes × Bytes)
push c none = none
push c (some (body, rest)) = some (c ∷ body, rest)

-- How SQL reads a literal behind its opening quote: up to a quote that is not doubled. The flag is
-- that a quote was just read.
abbrev read_body : Bool → Bytes → Option (Bytes × Bytes)
read_body false [] = none
read_body true [] = some ([], [])
read_body false (c ∷ r) = if c == b'\'' then read_body true r else push c (read_body false r)
read_body true (c ∷ r) = if c == b'\'' then push c (read_body false r) else some ([], c ∷ r)

abbrev pub read_literal : Bytes → Option (Bytes × Bytes)
read_literal [] = none
read_literal (c ∷ cs) = if c == b'\'' then read_body false cs else none

-- The text behind a literal does not go on with a quote.
abbrev pub Apart : Bytes → Type 0
Apart [] = Unit
Apart (c ∷ cs) = (c == b'\'') ≡ false

pub c_string_nul_free : (s : Bytes) → count 0 s ≡ 0 → c_string s ≡ s
c_string_nul_free [] h = refl
c_string_nul_free (c ∷ cs) h = ground (arith, c_string_nul_free cs)

read_body-end : (rest : Bytes) → Apart rest → read_body true rest ≡ some ([], rest)
read_body-end [] a = refl
read_body-end (c ∷ cs) a = ground arith

read_body-doubled :
    (s rest : Bytes) → Apart rest → read_body false (doubled s ++ (b'\'' ∷ rest)) ≡ some (s, rest)
read_body-doubled [] rest a = read_body-end rest a
read_body-doubled (c ∷ cs) rest a = elim (Bool-cases (c == b'\'')) [
  | inl e ↦ rw (e, e, read_body-doubled cs rest a) refl
  | inr e ↦ rw (e, e, read_body-doubled cs rest a) refl
]

length-doubled : (s : Bytes) → length (doubled s) ≡ length s + count b'\'' s
length-doubled [] = omega arith
length-doubled (c ∷ cs) = ground (arith, length-doubled cs)

-- The literal that stands for a value with no NUL.
abbrev pub literal_of : Bytes → Bytes
literal_of s = b'\'' ∷ (doubled s ++ b'\'' ∷ [])

pub quoter-literal_of :
    (s : Bytes) → count 0 s ≡ 0 → quoter s ≡ (literal_of s ++ 0 ∷ [], length (literal_of s))
quoter-literal_of s h =
    let none_left : length s - length s ≡ 0 = omega arith in
    let size : length (literal_of s) ≡ length s + count b'\'' s + 2 =
      omega (arith, length-append (doubled s) (b'\'' ∷ []), length-doubled s) in
    quoter_lem s
    ∙ rw (c_string_nul_free s h)
        (rw none_left (rw (append_assoc (doubled s) (b'\'' ∷ []) (0 ∷ [])) (rw size refl)))

-- What the quoter returns for a value with no NUL is one literal, with a NUL behind it that its
-- length does not count. In front of any text that does not begin with a quote, SQL reads the
-- literal as the value, and the text remains.
pub quoter_round_trip :
    (s rest : Bytes)
    → count 0 s ≡ 0
    → Apart rest
    → (quoted : Bytes) × (quoter s ≡ (quoted ++ 0 ∷ [], length quoted))
      × (read_literal (quoted ++ rest) ≡ some (s, rest))
quoter_round_trip s rest h a = (
  literal_of s,
  quoter-literal_of s h,
  rw (append_assoc (doubled s) (b'\'' ∷ []) rest) (read_body-doubled s rest a),
)
