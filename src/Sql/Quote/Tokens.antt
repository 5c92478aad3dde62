-- ===== src/Sql/Quote/Tokens.antt =====
-- A quoted value inside a statement that is prepared.
use nuodb_drivers.Prelude.{
  ◌+◌, some, List, [], ◌∷◌, ◌++◌, ◌≡◌, refl, ap, sym, ◌∙◌, arith, Bytes, length, count, ◌==◌,
  if◌then◌else◌, append_assoc,
}
use nuodb_drivers.Zend.{HashTable}
use nuodb_drivers.Sql.Rewrite.{Scan, rewrite}
use nuodb_drivers.Sql.Rewrite.Tokens.{
  Token, text, literal, positional, named, written, replaced, marks, EndsName, WellFormed,
}
use nuodb_drivers.Sql.Rewrite.Replace.{rewrite_tokens}
use nuodb_drivers.Sql.Quote.{quoter}
use nuodb_drivers.Sql.Quote.Literal.{doubled}
use nuodb_drivers.Sql.Quote.RoundTrip.{literal_of, quoter-literal_of}

-- The pieces of a value between its quotes.
abbrev pieces : Bytes → Bytes × List Bytes
pieces [] = ([], [])
pieces (c ∷ cs) = let (b, bs) = pieces cs in if c == b'\'' then ([], b ∷ bs) else (c ∷ b, bs)

abbrev literals : List Bytes → List Token
literals [] = []
literals (b ∷ bs) = literal b ∷ literals bs

-- A quoted value is one quoted piece after another.
abbrev tokens : Bytes → List Token
tokens v = literal (pieces v).0 ∷ literals (pieces v).1

written-pieces :
    (v : Bytes)
    → (pieces v).0 ++ (b'\'' ∷ written (literals (pieces v).1)) ≡ doubled v ++ b'\'' ∷ []
written-pieces [] = refl
written-pieces (c ∷ cs) = ground (arith, written-pieces cs)

replaced-pieces :
    (v : Bytes)
    → (pieces v).0 ++ (b'\'' ∷ replaced (literals (pieces v).1)) ≡ doubled v ++ b'\'' ∷ []
replaced-pieces [] = refl
replaced-pieces (c ∷ cs) = ground (arith, replaced-pieces cs)

marks-literals : (bs : List Bytes) → marks (literals bs) ≡ 0
marks-literals [] = refl
marks-literals (b ∷ bs) = marks-literals bs

WellFormed-tokens : (v : Bytes) → WellFormed (tokens v)
WellFormed-tokens [] = (refl, tt)
WellFormed-tokens (c ∷ cs) = ground (arith, WellFormed-tokens cs)

written-append : (ts us : List Token) → written (ts ++ us) ≡ written ts ++ written us
written-append [] us = refl
written-append (text c ∷ ts) us = rw (written-append ts us)
written-append (literal body ∷ ts) us = simp (written-append ts us, append_assoc)
written-append (positional ∷ ts) us = rw (written-append ts us)
written-append (named name ∷ ts) us = simp (written-append ts us, append_assoc)

replaced-append : (ts us : List Token) → replaced (ts ++ us) ≡ replaced ts ++ replaced us
replaced-append [] us = refl
replaced-append (text c ∷ ts) us = rw (replaced-append ts us)
replaced-append (literal body ∷ ts) us = simp (replaced-append ts us, append_assoc)
replaced-append (positional ∷ ts) us = rw (replaced-append ts us)
replaced-append (named name ∷ ts) us = rw (replaced-append ts us)

marks-append : (ts us : List Token) → marks (ts ++ us) ≡ marks ts + marks us
marks-append [] us = omega arith
marks-append (text c ∷ ts) us = marks-append ts us
marks-append (literal body ∷ ts) us = marks-append ts us
marks-append (positional ∷ ts) us = omega (arith, marks-append ts us)
marks-append (named name ∷ ts) us = omega (arith, marks-append ts us)

EndsName-append : (ts us : List Token) → EndsName ts → EndsName us → EndsName (ts ++ us)
EndsName-append [] us h k = k
EndsName-append (text c ∷ ts) us h k = h
EndsName-append (literal body ∷ ts) us h k = tt
EndsName-append (positional ∷ ts) us h k = h
EndsName-append (named name ∷ ts) us h k = h

WellFormed-append :
    (ts us : List Token) → WellFormed ts → WellFormed us → EndsName us → WellFormed (ts ++ us)
WellFormed-append [] us h k e = k
WellFormed-append (text c ∷ ts) us h k e = (h.0, h.1, h.2, WellFormed-append ts us h.3 k e)
WellFormed-append (literal body ∷ ts) us h k e = (h.0, WellFormed-append ts us h.1 k e)
WellFormed-append (positional ∷ ts) us h k e = WellFormed-append ts us h k e
WellFormed-append (named name ∷ ts) us h k e =
    (h.0, h.1, EndsName-append ts us h.2 e, WellFormed-append ts us h.3 k e)

WellFormed-literals :
    (bs : List Bytes) (us : List Token)
    → WellFormed (literals bs)
    → WellFormed us
    → WellFormed (literals bs ++ us)
WellFormed-literals [] us h k = k
WellFormed-literals (b ∷ bs) us h k = (h.0, WellFormed-literals bs us h.1 k)

written-value :
    (ts us : List Token) (v : Bytes)
    → written (ts ++ (tokens v ++ us)) ≡ written ts ++ (literal_of v ++ written us)
written-value ts us v =
    written-append ts (tokens v ++ us)
    ∙ ap (λ w. written ts ++ w)
        (written-append (tokens v) us ∙ ap (λ w. (b'\'' ∷ w) ++ written us) (written-pieces v))

replaced-value :
    (ts us : List Token) (v : Bytes)
    → replaced (ts ++ (tokens v ++ us)) ++ 0 ∷ []
      ≡ replaced ts ++ (literal_of v ++ (replaced us ++ 0 ∷ []))
replaced-value ts us v = rw (replaced-append ts (tokens v ++ us)) (
    rw (append_assoc (replaced ts) (replaced (tokens v ++ us)) (0 ∷ [])) (
      ap (λ w. replaced ts ++ w)
        (ap (λ w. w ++ 0 ∷ []) (replaced-append (tokens v) us)
          ∙ (append_assoc (replaced (tokens v)) (replaced us) (0 ∷ [])
              ∙ ap (λ w. (b'\'' ∷ w) ++ (replaced us ++ 0 ∷ [])) (replaced-pieces v)))))

module _ (zend : HashTable) where
  -- A value with no NUL that the quoter has quoted stands in the prepared statement as it was
  -- quoted, whatever its bytes: no colon, question mark or quote in it is taken for a parameter
  -- or ends the literal.
  pub rewrite-quoter :
      (ts us : List Token) (v : Bytes)
      → WellFormed ts
      → WellFormed us
      → count 0 v ≡ 0
      → (quoted : Bytes) × (quoter v ≡ (quoted ++ 0 ∷ [], length quoted))
        × ((s : Scan zend) × (rewrite zend (written ts ++ (quoted ++ written us)) ≡ some s)
            × (s.out ≡ replaced ts ++ (quoted ++ (replaced us ++ 0 ∷ [])))
            × (s.placeholders ≡ marks ts + marks us))
  rewrite-quoter ts us v h k n =
      let all = ts ++ (tokens v ++ us) in
      let wf =
        WellFormed-append ts (tokens v ++ us) h
          ((WellFormed-tokens v).0, WellFormed-literals (pieces v).1 us (WellFormed-tokens v).1 k)
          tt in
      let (s, e, out, marked, _) = rewrite_tokens zend all wf in
      (
        literal_of v,
        quoter-literal_of v n,
        (
          s,
          ap (rewrite zend) (sym (written-value ts us v)) ∙ e,
          out ∙ replaced-value ts us v,
          omega (
            arith,
            marked,
            marks-append ts (tokens v ++ us),
            marks-append (literals (pieces v).1) us,
            marks-literals (pieces v).1,
          ),
        ),
      )
