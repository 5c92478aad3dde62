-- ===== src/Sql/Rewrite/Replace.antt =====
-- The loop of `nuodb_alloc_prepare_stmt` does to a statement what is said of its tokens.
use nuodb_drivers.Prelude.{
  ℕ, ◌+◌, ◌-◌, ◌≤◌, ◌<◌, true, false, some, List, [], ◌∷◌, ◌++◌, ◌≡◌, refl, ◌⊎◌, sym, subst, ◌∙◌,
  arith, Bytes, length, length-append, count, append_assoc,
}
use nuodb_drivers.Prelude.Partial.{Returns, Returns-map, Returns-eq}
use nuodb_drivers.Zend.{HashTable}
use nuodb_drivers.Sql.Rewrite.{is_name, pname_size, Scan, scan, initial, rewrite}
use nuodb_drivers.Sql.Rewrite.Steps.{
  IsName, step_colon, step_mark, step_text, step_close, step_end, scan_literal, scan_name,
}
use nuodb_drivers.Sql.Rewrite.Tokens.{
  Token, text, literal, positional, named, written, replaced, marks, key, EndsName, WellFormed,
  bound,
}

last_mark : (n : ℕ) → n + 1 - 1 ≡ n
last_mark n = omega arith

module _ (zend : HashTable) where
  open zend use {Table, empty, update}

  -- The loop ends with the replaced tokens and a NUL behind `out`, and with their names in `t`.
  abbrev Ends : ℕ → Bytes → List Token → Table → Scan zend → Type 0
  Ends n out ts t s =
      (s.out ≡ out ++ (replaced ts ++ 0 ∷ []))
      × (s.placeholders ≡ n + marks ts)
      × (s.names ≡ bound zend n ts t)

  -- A whole literal after no name, and one that ends a name with its closing quote.
  scan_literal_text :
      (size : ℕ) (body w tail : Bytes) (s : Scan zend)
      → s.in_quote ≡ false
      → s.in_param ≡ false
      → count b'\'' body ≡ 0
      → length s.out + length body + 2 ≤ size
      → scan zend size (b'\'' ∷ ((body ++ (b'\'' ∷ w)) ++ tail)) s
        ≡ scan zend size (w ++ tail) (record s {
          in_quote = false;
          in_param = false;
          out = (s.out ++ (b'\'' ∷ body)) ++ b'\'' ∷ [];
        })
  scan_literal_text size body w tail s q p h room = rw (append_assoc body (b'\'' ∷ w) tail) (
      scan_literal zend size body (b'\'' ∷ (w ++ tail)) s q h (omega arith)
      ∙ unfold scan in
        rw (
          step_close zend size (record s { in_quote = true; out = s.out ++ (b'\'' ∷ body) }) refl p
            (omega (arith, length-append s.out (b'\'' ∷ body)))))

  scan_literal_end :
      (size : ℕ) (body w tail : Bytes) (s : Scan zend)
      → s.in_quote ≡ false
      → s.in_param ≡ true
      → count b'\'' body ≡ 0
      → length s.pname < pname_size
      → length s.out + length body + 2 ≤ size
      → scan zend size (b'\'' ∷ ((body ++ (b'\'' ∷ w)) ++ tail)) s
        ≡ scan zend size (w ++ tail) (record s {
          in_quote = false;
          in_param = false;
          pname = s.pname ++ 0 ∷ [];
          out = (s.out ++ (b'\'' ∷ body)) ++ b'\'' ∷ [];
          names = update (s.pname ++ 0 ∷ []) (s.placeholders - 1) s.names;
        })
  unfolding is_name
  scan_literal_end size body w tail s q p h fits room = rw (append_assoc body (b'\'' ∷ w) tail) (
      scan_literal zend size body (b'\'' ∷ (w ++ tail)) s q h (omega arith)
      ∙ unfold scan in
        rw (
          step_end zend size b'\'' (record s { in_quote = true; out = s.out ++ (b'\'' ∷ body) })
            refl p refl fits (omega (arith, length-append s.out (b'\'' ∷ body)))))

  -- A whole name, up to what ends it.
  scan_named :
      (size : ℕ) (name w tail : Bytes) (s : Scan zend)
      → s.in_quote ≡ false
      → s.in_param ≡ false
      → IsName name
      → length name < pname_size
      → length s.out < size
      → scan zend size (b':' ∷ ((name ++ w) ++ tail)) s
        ≡ scan zend size (w ++ tail) (record s {
          in_quote = false;
          in_param = true;
          pname = b':' ∷ name;
          placeholders = s.placeholders + 1;
          out = s.out ++ b'?' ∷ [];
        })
  unfolding scan
  scan_named size name w tail s q p h fits room =
      rw (append_assoc name w tail, step_colon zend size s q p room)
        (scan_name zend size name (w ++ tail) _ refl refl h (omega arith))

  -- The end of a literal behind `out`.
  replaced_literal :
      (out body : Bytes) (ts : List Token)
      → ((out ++ (b'\'' ∷ body)) ++ b'\'' ∷ []) ++ (replaced ts ++ 0 ∷ [])
        ≡ out ++ (replaced (literal body ∷ ts) ++ 0 ∷ [])
  replaced_literal out body ts = simp append_assoc

  mutual
    unfolding scan is_name

    scan-Ends :
        (size : ℕ) (ts : List Token) (s : Scan zend)
        → s.in_quote ≡ false
        → s.in_param ≡ false
        → WellFormed ts
        → length s.out + length (written ts) + 1 ≤ size
        → Returns (Ends s.placeholders s.out ts s.names) (scan zend size (written ts ++ 0 ∷ []) s)
    scan-Ends size [] s q p w room =
        rw (step_text zend size 0 s q p refl refl refl (omega arith)) (refl, omega arith, refl)
    scan-Ends size (text c ∷ ts) s q p w room =
        rw (step_text zend size c s q p w.0 w.1 w.2 (omega arith)) (
          Returns-map (Ends s.placeholders (s.out ++ c ∷ []) ts s.names) _ _
            (scan-Ends size ts _ refl refl w.3 (omega (arith, length-append s.out (c ∷ []))))
            (λ s' h. (h.0 ∙ append_assoc s.out (c ∷ []) _, h.1, h.2)))
    scan-Ends size (literal body ∷ ts) s q p w room =
        subst (Returns _)
          (sym (
            scan_literal_text size body (written ts) (0 ∷ []) s q p w.0
              (omega (arith, length-append body (b'\'' ∷ written ts)))))
          (Returns-map (Ends s.placeholders ((s.out ++ (b'\'' ∷ body)) ++ b'\'' ∷ []) ts s.names) _
            _
            (scan-Ends size ts _ refl refl w.1 (
              omega (
                arith,
                length-append body (b'\'' ∷ written ts),
                length-append (s.out ++ (b'\'' ∷ body)) (b'\'' ∷ []),
                length-append s.out (b'\'' ∷ body),
              )))
            (λ s' h. (h.0 ∙ replaced_literal s.out body ts, h.1, h.2)))
    scan-Ends size (positional ∷ ts) s q p w room = rw (step_mark zend size s q p (omega arith)) (
        Returns-map (Ends (s.placeholders + 1) (s.out ++ b'?' ∷ []) ts s.names) _ _
          (scan-Ends size ts _ refl refl w (omega (arith, length-append s.out (b'?' ∷ []))))
          (λ s' h. (h.0 ∙ append_assoc s.out (b'?' ∷ []) _, omega (arith, h.1), h.2)))
    scan-Ends size (named name ∷ ts) s q p w room =
        subst (Returns _)
          (sym (
            scan_named size name (written ts) (0 ∷ []) s q p w.0 (omega (arith, w.1))
              (omega arith)))
          (Returns-map
            (Ends (s.placeholders + 1) (s.out ++ b'?' ∷ []) ts
              (update (key name) (s.placeholders + 1 - 1) s.names))
            _ _
            (scan_pending-Ends size ts _ refl refl w.3 w.2 (omega (arith, w.1))
              (omega (arith, length-append name (written ts), length-append s.out (b'?' ∷ []))))
            (λ s' h. (
              h.0 ∙ append_assoc s.out (b'?' ∷ []) _,
              omega (arith, h.1),
              rw (last_mark s.placeholders) at h.2,
            )))

    scan_pending-Ends :
        (size : ℕ) (ts : List Token) (s : Scan zend)
        → s.in_quote ≡ false
        → s.in_param ≡ true
        → WellFormed ts
        → EndsName ts
        → length s.pname < pname_size
        → length s.out + length (written ts) + 1 ≤ size
        → Returns
            (Ends s.placeholders s.out ts (update (s.pname ++ 0 ∷ []) (s.placeholders - 1) s.names))
            (scan zend size (written ts ++ 0 ∷ []) s)
    scan_pending-Ends size [] s q p w e fits room =
        rw (step_end zend size 0 s q p refl fits (omega arith)) (refl, omega arith, refl)
    scan_pending-Ends size (text c ∷ ts) s q p w e fits room =
        rw (step_end zend size c s (q ∙ sym w.0) p e fits (omega arith)) (
          Returns-map
            (Ends s.placeholders (s.out ++ c ∷ []) ts
              (update (s.pname ++ 0 ∷ []) (s.placeholders - 1) s.names))
            _ _ (scan-Ends size ts _ refl refl w.3 (omega (arith, length-append s.out (c ∷ []))))
            (λ s' h. (h.0 ∙ append_assoc s.out (c ∷ []) _, h.1, h.2)))
    scan_pending-Ends size (literal body ∷ ts) s q p w e fits room =
        subst (Returns _)
          (sym (
            scan_literal_end size body (written ts) (0 ∷ []) s q p w.0 fits
              (omega (arith, length-append body (b'\'' ∷ written ts)))))
          (Returns-map
            (Ends s.placeholders ((s.out ++ (b'\'' ∷ body)) ++ b'\'' ∷ []) ts
              (update (s.pname ++ 0 ∷ []) (s.placeholders - 1) s.names))
            _ _
            (scan-Ends size ts _ refl refl w.1 (
              omega (
                arith,
                length-append body (b'\'' ∷ written ts),
                length-append (s.out ++ (b'\'' ∷ body)) (b'\'' ∷ []),
                length-append s.out (b'\'' ∷ body),
              )))
            (λ s' h. (h.0 ∙ replaced_literal s.out body ts, h.1, h.2)))
    scan_pending-Ends size (positional ∷ ts) s q p w e fits room = absurd e
    scan_pending-Ends size (named name ∷ ts) s q p w e fits room = absurd e

  -- A statement of well-formed tokens is rewritten to the tokens with each name replaced by `?`,
  -- with its NUL. There is one placeholder for each parameter, and the table binds the names.
  pub rewrite_tokens :
      (ts : List Token)
      → WellFormed ts
      → (s : Scan zend) × (rewrite zend (written ts) ≡ some s)
        × (s.out ≡ replaced ts ++ 0 ∷ [])
        × (s.placeholders ≡ marks ts)
        × (s.names ≡ bound zend 0 ts empty)
  unfolding rewrite
  rewrite_tokens ts w =
      let (s, e, h) =
        Returns-eq (Ends 0 [] ts empty) _
          (scan-Ends (length (written ts) + 1) ts (initial zend) refl refl w (omega arith)) in
      (s, e, h.0, omega (arith, h.1), h.2)

  -- The loop after one name, and after the byte that ends it.
  abbrev after_name : Bytes → Scan zend
  after_name name = record {
    in_quote = false;
    in_param = true;
    pname = b':' ∷ name;
    placeholders = 1;
    out = b'?' ∷ [];
    names = empty;
  }

  abbrev ended : Bytes → ℕ → Scan zend
  ended name c = record {
    in_quote = false;
    in_param = false;
    pname = key name;
    placeholders = 1;
    out = b'?' ∷ c ∷ [];
    names = update (key name) 0 empty;
  }

  -- A colon or a question mark directly behind a name is copied, and is no parameter: no
  -- placeholder is counted for it, and a name behind that colon is not replaced.
  rewrite_adjacent :
      (name : Bytes) (c : ℕ) (ts : List Token)
      → IsName name
      → length name + 2 ≤ pname_size
      → (c ≡ b':') ⊎ (c ≡ b'?')
      → WellFormed ts
      → (s : Scan zend) × (rewrite zend (b':' ∷ (name ++ (c ∷ written ts))) ≡ some s)
        × (s.out ≡ b'?' ∷ c ∷ (replaced ts ++ 0 ∷ []))
        × (s.placeholders ≡ 1 + marks ts)
        × (s.names ≡ bound zend 1 ts (update (key name) 0 empty))
  unfolding rewrite scan is_name
  rewrite_adjacent name c ts h fits adj w =
      let size = length (b':' ∷ (name ++ (c ∷ written ts))) + 1 in
      let long = length-append name (c ∷ written ts) in
      let (s, e, r) =
        Returns-eq (Ends 1 (b'?' ∷ c ∷ []) ts (update (key name) 0 empty)) _
          (scan-Ends size ts (ended name c) refl refl w (omega (arith, long))) in
      (
        s,
        scan_named size name (c ∷ written ts) (0 ∷ []) (initial zend) refl refl h
              (omega (arith, fits)) (omega arith)
            ∙ rw
                (step_end zend size c (after_name name) (ground arith) refl (ground arith)
                  (omega (arith, fits)) (omega (arith, long)))
                e,
        r.0,
        r.1,
        r.2,
      )
