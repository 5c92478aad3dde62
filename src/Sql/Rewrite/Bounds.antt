-- ===== src/Sql/Rewrite/Bounds.antt =====
-- The two buffers of the rewriting loop: `new_sql` always has room, `pname` if the names are short.
use nuodb_drivers.Prelude.{
  ℕ, ◌+◌, ◌≤◌, ◌<◌, true, false, none, some, [], ◌∷◌, ◌++◌, ◌≡◌, refl, arith, Bytes, length,
  length-append, if◌then◌else◌, append_assoc, Bool, xor, not, ◌||◌, ◌&&◌, ◌==◌,
}
use nuodb_drivers.Prelude.Partial.{Returns, >>=-Returns, Returns-map, Returns-eq}
use nuodb_drivers.Zend.{HashTable}
use nuodb_drivers.Sql.Rewrite.{is_name, pname_size, Scan, step, scan, initial, rewrite}
use nuodb_drivers.Sql.Rewrite.Steps.{IsName, is_name-not_quote, step_colon}

-- No run of name bytes is longer than 62; `n` of them stand directly before the text.
abbrev pub ShortRuns : ℕ → Bytes → Type 0
ShortRuns n [] = Unit
ShortRuns n (c ∷ cs) =
    (is_name c ≡ true → n + 2 < pname_size) × ShortRuns (if is_name c then n + 1 else 0) cs

module _ (zend : HashTable) where
  -- What `pname` holds, after a run of `n` name bytes: it fits with its NUL, and outside of a
  -- quote it is the colon and a part of the run.
  pub record Inv (n : ℕ) (s : Scan zend) : Type 0 where
    pub fits : s.in_param ≡ true → length s.pname < pname_size
    pub is_run : s.in_param ≡ true → s.in_quote ≡ false → length s.pname ≤ n + 1

  -- A round writes one byte at most.
  abbrev After : ℕ → Scan zend → Scan zend → Type 0
  After n s s' = Inv n s' × (length s'.out ≤ length s.out + 1)

  step-After :
      (size c n : ℕ) (s : Scan zend)
      → length s.out < size
      → (is_name c ≡ true → n + 2 < pname_size)
      → Inv n s
      → Returns (After (if is_name c then n + 1 else 0) s) (step zend size c s)
  unfolding step
  step-After size c n s room short inv = ground (
    arith,
    length-append s.out (c ∷ []),
    length-append s.out (b'?' ∷ []),
    length-append s.pname (c ∷ []),
    length-append s.pname (0 ∷ []),
  )

  abbrev Small : Bytes → Scan zend → Scan zend → Type 0
  Small text s s' = length s'.out ≤ length s.out + length text

  pub scan-Returns :
      (size n : ℕ) (text : Bytes) (s : Scan zend)
      → length s.out + length text ≤ size
      → ShortRuns n text
      → Inv n s
      → Returns (Small text s) (scan zend size text s)
  unfolding scan
  scan-Returns size n [] s room short inv = omega arith
  scan-Returns size n (c ∷ cs) s room short inv =
      >>=-Returns (After (if is_name c then n + 1 else 0) s) _ (step zend size c s) _
        (step-After size c n s (omega arith) short.0 inv)
        (λ s' h.
          Returns-map (Small cs s') _ (scan zend size cs s')
            (scan-Returns size (if is_name c then n + 1 else 0) cs s' (omega (arith, h.1)) short.1
              h.0)
            (λ r k. omega (arith, k, h.1)))

  -- The text with its NUL has the runs of the text.
  ShortRuns-nul : (n : ℕ) (text : Bytes) → ShortRuns n text → ShortRuns n (text ++ 0 ∷ [])
  unfolding is_name
  ShortRuns-nul n [] h = (λ e. cc, tt)
  ShortRuns-nul n (c ∷ cs) h = (h.0, ShortRuns-nul (if is_name c then n + 1 else 0) cs h.1)

  -- If no run of name bytes in the text is longer than 62, the loop ends with no write outside of
  -- its buffers, and the result is no longer than the text with its NUL.
  pub rewrite-Returns :
      (text : Bytes)
      → ShortRuns 0 text
      → (s : Scan zend) × (rewrite zend text ≡ some s) × (length s.out ≤ length text + 1)
  unfolding rewrite
  rewrite-Returns text short =
      Returns-eq (λ s. length s.out ≤ length text + 1) _
        (Returns-map (Small (text ++ 0 ∷ []) (initial zend)) _ _
          (scan-Returns (length text + 1) 0 (text ++ 0 ∷ []) (initial zend)
            (omega (arith, length-append text (0 ∷ []))) (ShortRuns-nul 0 text short)
            (record { fits = λ e. cc; is_run = λ e. cc }))
          (λ r k. omega (arith, k, length-append text (0 ∷ []))))

-- A text that opens no parameter, read inside a quote or not, and ends outside of quotes.
abbrev pub no_name : Bool → Bytes → Bool
no_name q [] = not q
no_name q (c ∷ cs) = let q' = xor q (c == b'\'') in (q' || not (c == b':')) && no_name q' cs

module _ (zend : HashTable) where
  -- A name that does not fit into `pname` stops the loop.
  scan-overrun :
      (size : ℕ) (name rest : Bytes) (s : Scan zend)
      → s.in_param ≡ true
      → s.in_quote ≡ false
      → IsName name
      → pname_size < length s.pname + length name
      → length s.pname ≤ pname_size
      → scan zend size (name ++ rest) s ≡ none
  unfolding scan step
  scan-overrun size [] rest s p q h long fits = absurd (omega arith)
  scan-overrun size (c ∷ cs) rest s p q h long fits = ground (
    arith,
    is_name-not_quote c h.0,
    length-append s.pname (c ∷ []),
    scan-overrun size cs rest (record s { pname = s.pname ++ c ∷ []; in_quote = false }) p refl h.1,
  )

  -- One byte of such a text is copied, also a question mark.
  step-no_name :
      (size c : ℕ) (s : Scan zend)
      → s.in_param ≡ false
      → (xor s.in_quote (c == b'\'') || not (c == b':')) ≡ true
      → length s.out < size
      → (n : ℕ) × (step zend size c s
          ≡ some (record s {
            in_quote = xor s.in_quote (c == b'\'');
            in_param = false;
            placeholders = n;
            out = s.out ++ c ∷ [];
          }))
  unfolding step
  step-no_name size c s p h room = (
    if xor s.in_quote (c == b'\'')
        then s.placeholders
        else if c == b'?'
        then s.placeholders + 1
        else s.placeholders,
    ground arith,
  )

  scan-no_name :
      (size : ℕ) (before name rest : Bytes) (s : Scan zend)
      → s.in_param ≡ false
      → no_name s.in_quote before ≡ true
      → length s.out + length before < size
      → IsName name
      → pname_size ≤ length name
      → scan zend size (before ++ b':' ∷ (name ++ rest)) s ≡ none
  unfolding scan
  scan-no_name size [] name rest s p q room h long =
      rw (step_colon zend size s (ground (arith, q)) p (omega arith))
        (scan-overrun size name rest _ refl refl h (omega arith) (omega arith))
  scan-no_name size (c ∷ cs) name rest s p q room h long =
      let t = step-no_name size c s p (ground (arith, q)) (omega arith) in
      rw t.1 (
        scan-no_name size cs name rest _ refl (ground (arith, q))
          (omega (arith, length-append s.out (c ∷ []))) h long)

  -- A parameter whose name has 64 bytes or more, behind a text that has no other parameter with a name
  -- and ends outside of quotes, makes the loop write past the end of `pname`, whatever follows the name.
  pub rewrite_overrun :
      (before name rest : Bytes)
      → no_name false before ≡ true
      → IsName name
      → pname_size ≤ length name
      → rewrite zend (before ++ b':' ∷ (name ++ rest)) ≡ none
  unfolding rewrite
  rewrite_overrun before name rest q h long =
      let after = b':' ∷ (name ++ rest) in
      rw (append_assoc before after (0 ∷ []), append_assoc name rest (0 ∷ []))
        (scan-no_name (length (before ++ after) + 1) before name (rest ++ 0 ∷ []) (initial zend)
          refl q (omega (arith, length-append before after)) h long)
