-- ===== src/Sql/Kind/Words.antt =====
-- The loop that reads the first word, against the visible bytes of the statement.
use nuodb_drivers.Prelude.{
  ℕ, zero, suc, ◌+◌, ◌≤◌, ◌<◌, false, none, some, [], ◌∷◌, ◌++◌, ◌≡◌, refl, arith, Bytes, length,
  count, ◌==◌, if◌then◌else◌, Bool-cases, inl, inr, append_assoc, append-nil, ap,
}
use native.Mathlib.Decide.{dec_lt}
use native.Mathlib.Nat.{le_refl}
use nuodb_drivers.Sql.Kind.{
  is_space, to_upper, skip_spaces, upper_head, upper_loop, classify, statement_kind,
}

-- The bytes that are no white space.
abbrev pub visible : Bytes → Bytes
visible [] = []
visible (c ∷ cs) = if is_space c then visible cs else c ∷ visible cs

-- The first bytes in upper case.
abbrev pub upper_prefix : ℕ → Bytes → Bytes
upper_prefix zero s = []
upper_prefix (suc n) [] = []
upper_prefix (suc n) (c ∷ cs) = to_upper c ∷ upper_prefix n cs

-- The pointer `j` stops at the first visible byte.
record Stops (u : Bytes) : Type 0 where
  head : ℕ
  rest : Bytes
  skips : skip_spaces (u ++ 0 ∷ []) ≡ some (head ∷ (rest ++ 0 ∷ []))
  sees : visible u ≡ head ∷ visible rest
  shorter : length rest < length u

visible-Stops : (u : Bytes) → 0 < length (visible u) → Stops u
unfolding skip_spaces
visible-Stops [] h = absurd (omega arith)
visible-Stops (c ∷ cs) h = elim (Bool-cases (is_space c)) [
  | inl e ↦
      let s = visible-Stops cs (rw e at h) in
      record {
        head = s.head;
        rest = s.rest;
        skips = rw e s.skips;
        sees = rw e s.sees;
        shorter = omega (arith, s.shorter);
      }
  | inr e ↦ record { head = c; rest = cs; skips = rw e; sees = rw e; shorter = omega arith }
]

-- With no visible byte left, it stops at the NUL.
skip_spaces_end : (u : Bytes) → length (visible u) ≡ 0 → skip_spaces (u ++ 0 ∷ []) ≡ some (0 ∷ [])
unfolding skip_spaces is_space
skip_spaces_end [] h = refl
skip_spaces_end (c ∷ cs) h = ground (arith, skip_spaces_end cs)

-- `i` is not behind `j`, so `sql[i]` is not the NUL while visible bytes are left.
upper_loop-prefix :
    (rounds : ℕ) (t u acc : Bytes)
    → count 0 t ≡ 0
    → length u ≤ length t
    → rounds ≤ length (visible u)
    → upper_loop rounds (t ++ 0 ∷ []) (u ++ 0 ∷ []) acc
      ≡ some (acc ++ upper_prefix rounds (visible u))
unfolding upper_loop upper_head
upper_loop-prefix zero t u acc n l r = rw append-nil
upper_loop-prefix (suc k) [] [] acc n l r = absurd (omega arith)
upper_loop-prefix (suc k) [] (d ∷ ds) acc n l r = absurd (omega arith)
upper_loop-prefix (suc k) (c ∷ cs) u acc n l r =
    let s = visible-Stops u (omega arith) in
    let seen = ap length s.sees in
    let ih =
      upper_loop-prefix k cs s.rest (acc ++ to_upper s.head ∷ []) (omega arith)
        (omega (arith, s.shorter)) (omega arith) in
    let nonzero : (c == 0) ≡ false = ground arith in
    rw (s.skips) (rw nonzero (rw ih (rw s.sees (rw append_assoc))))

-- Behind the NUL `j` reads outside of the text.
upper_loop_outside : (k : ℕ) (t acc : Bytes) → upper_loop (suc k) (t ++ 0 ∷ []) [] acc ≡ none
unfolding upper_loop skip_spaces
upper_loop_outside k [] acc = refl
upper_loop_outside k (c ∷ cs) acc = refl

-- With too few visible bytes `j` passes the NUL while `i` is still in the text.
upper_loop_overrun :
    (rounds : ℕ) (t u acc : Bytes)
    → count 0 t ≡ 0
    → length (visible u) < length t
    → length (visible u) + 2 ≤ rounds
    → upper_loop rounds (t ++ 0 ∷ []) (u ++ 0 ∷ []) acc ≡ none
unfolding upper_loop upper_head
upper_loop_overrun zero t u acc n l r = absurd (omega arith)
upper_loop_overrun (suc zero) t u acc n l r = absurd (omega arith)
upper_loop_overrun (suc (suc k)) [] u acc n l r = absurd (omega arith)
upper_loop_overrun (suc (suc k)) (c ∷ cs) u acc n l r =
    let nonzero : (c == 0) ≡ false = ground arith in
    elim (dec_lt 0 (length (visible u))) [
      | yes more ↦
          let s = visible-Stops u more in
          let seen = ap length s.sees in
          let ih =
            upper_loop_overrun (suc k) cs s.rest (acc ++ to_upper s.head ∷ []) (omega arith)
              (omega arith) (omega arith) in
          rw s.skips (rw nonzero ih)
      | no done ↦
          rw (skip_spaces_end u (omega arith))
            (rw nonzero (upper_loop_outside k cs (acc ++ to_upper 0 ∷ [])))
    ]

-- If a statement has six visible bytes, its kind is read within its bounds, from these bytes in
-- upper case: white space before and between them does not count.
pub statement_kind-visible :
    (sql : Bytes)
    → count 0 sql ≡ 0
    → 6 ≤ length (visible sql)
    → statement_kind sql ≡ some (classify (upper_prefix 6 (visible sql)))
unfolding statement_kind
statement_kind-visible sql n h = rw (upper_loop-prefix 6 sql sql [] n (le_refl (length sql)) h)

-- A statement with white space and at most four visible bytes is read behind its NUL.
statement_kind_overrun :
    (sql : Bytes)
    → count 0 sql ≡ 0
    → length (visible sql) ≤ 4
    → length (visible sql) < length sql
    → statement_kind sql ≡ none
unfolding statement_kind
statement_kind_overrun sql n few space = rw (upper_loop_overrun 6 sql sql [] n space (omega arith))
