-- ===== src/Sql/Rewrite/Steps.antt =====
-- Single rounds of the rewriting loop, and the runs of bytes that it copies or collects.
use nuodb_drivers.Prelude.{
  ℕ, ◌+◌, ◌-◌, ◌≤◌, ◌<◌, true, false, some, [], ◌∷◌, ◌++◌, ◌≡◌, refl, arith, Bytes, length,
  length-append, count, ◌==◌, append_assoc, append-nil,
}
use nuodb_drivers.Zend.{HashTable}
use nuodb_drivers.Sql.Rewrite.{is_name, pname_size, Scan, step, scan}

abbrev pub IsName : Bytes → Type 0
IsName [] = Unit
IsName (c ∷ cs) = (is_name c ≡ true) × IsName cs

pub is_name-not_quote : (c : ℕ) → is_name c ≡ true → (c == b'\'') ≡ false
unfolding is_name
is_name-not_quote c h = ground arith

module _ (zend : HashTable) where
  open zend use {update}

  -- A colon outside of quotes and names opens a name.
  pub step_colon :
      (size : ℕ) (s : Scan zend)
      → s.in_quote ≡ false
      → s.in_param ≡ false
      → length s.out < size
      → step zend size b':' s
        ≡ some (record s {
          in_quote = false;
          in_param = true;
          pname = b':' ∷ [];
          placeholders = s.placeholders + 1;
          out = s.out ++ b'?' ∷ [];
        })
  unfolding step
  step_colon size s q p room = ground arith

  pub step_mark :
      (size : ℕ) (s : Scan zend)
      → s.in_quote ≡ false
      → s.in_param ≡ false
      → length s.out < size
      → step zend size b'?' s
        ≡ some (record s {
          in_quote = false;
          in_param = false;
          placeholders = s.placeholders + 1;
          out = s.out ++ b'?' ∷ [];
        })
  unfolding step
  step_mark size s q p room = ground arith

  -- A byte that is neither a quote nor opens a parameter is copied.
  pub step_text :
      (size c : ℕ) (s : Scan zend)
      → s.in_quote ≡ false
      → s.in_param ≡ false
      → (c == b'\'') ≡ false
      → (c == b':') ≡ false
      → (c == b'?') ≡ false
      → length s.out < size
      → step zend size c s
        ≡ some (record s { in_quote = false; in_param = false; out = s.out ++ c ∷ [] })
  unfolding step
  step_text size c s q p h1 h2 h3 room = ground arith

  -- An opening quote is copied, and leaves a name open.
  pub step_open :
      (size : ℕ) (s : Scan zend)
      → s.in_quote ≡ false
      → length s.out < size
      → step zend size b'\'' s ≡ some (record s { in_quote = true; out = s.out ++ b'\'' ∷ [] })
  unfolding step
  step_open size s q room = ground arith

  pub step_close :
      (size : ℕ) (s : Scan zend)
      → s.in_quote ≡ true
      → s.in_param ≡ false
      → length s.out < size
      → step zend size b'\'' s
        ≡ some (record s { in_quote = false; in_param = false; out = s.out ++ b'\'' ∷ [] })
  unfolding step
  step_close size s q p room = ground arith

  -- The first byte outside of a quote that is no name byte ends the name and is copied: also a
  -- closing quote, a colon or a question mark.
  pub step_end :
      (size c : ℕ) (s : Scan zend)
      → s.in_quote ≡ (c == b'\'')
      → s.in_param ≡ true
      → is_name c ≡ false
      → length s.pname < pname_size
      → length s.out < size
      → step zend size c s
        ≡ some (record s {
          in_quote = false;
          in_param = false;
          pname = s.pname ++ 0 ∷ [];
          out = s.out ++ c ∷ [];
          names = update (s.pname ++ 0 ∷ []) (s.placeholders - 1) s.names;
        })
  unfolding step
  step_end size c s q p h fits room = ground arith

  -- Inside a quote every byte but the quote is copied.
  pub scan_quoted :
      (size : ℕ) (body rest : Bytes) (s : Scan zend)
      → s.in_quote ≡ true
      → count b'\'' body ≡ 0
      → length s.out + length body ≤ size
      → scan zend size (body ++ rest) s
        ≡ scan zend size rest (record s { in_quote = true; out = s.out ++ body })
  unfolding scan step
  scan_quoted size [] rest s q h room = ground (arith, append-nil s.out)
  scan_quoted size (c ∷ cs) rest s q h room = ground (
    arith,
    length-append s.out (c ∷ []),
    append_assoc s.out (c ∷ []) cs,
    scan_quoted size cs rest (record s { in_quote = true; out = s.out ++ c ∷ [] }),
  )

  -- An opening quote and what it quotes, up to the closing quote.
  pub scan_literal :
      (size : ℕ) (body rest : Bytes) (s : Scan zend)
      → s.in_quote ≡ false
      → count b'\'' body ≡ 0
      → length s.out + length body + 1 ≤ size
      → scan zend size (b'\'' ∷ (body ++ rest)) s
        ≡ scan zend size rest (record s { in_quote = true; out = s.out ++ (b'\'' ∷ body) })
  unfolding scan
  scan_literal size body rest s q h room = rw (step_open size s q (omega arith)) (
      rw
        (scan_quoted size body rest (record s { in_quote = true; out = s.out ++ b'\'' ∷ [] }) refl h
          (omega (arith, length-append s.out (b'\'' ∷ []))))
        (rw (append_assoc s.out (b'\'' ∷ []) body)))

  -- In a name the name bytes are collected.
  pub scan_name :
      (size : ℕ) (name rest : Bytes) (s : Scan zend)
      → s.in_quote ≡ false
      → s.in_param ≡ true
      → IsName name
      → length s.pname + length name ≤ pname_size
      → scan zend size (name ++ rest) s
        ≡ scan zend size rest
            (record s { in_quote = false; in_param = true; pname = s.pname ++ name })
  unfolding scan step
  scan_name size [] rest s q p h fits = ground (arith, append-nil s.pname)
  scan_name size (c ∷ cs) rest s q p h fits = ground (
    arith,
    is_name-not_quote c h.0,
    length-append s.pname (c ∷ []),
    append_assoc s.pname (c ∷ []) cs,
    scan_name size cs rest
        (record s { in_quote = false; in_param = true; pname = s.pname ++ c ∷ [] }) refl refl h.1,
  )
