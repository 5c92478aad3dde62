-- ===== src/Node/Reading.antt =====
-- Reading a result of nodejs/src/node_db_nuodb_result.cc to its end.
use nuodb_drivers.Prelude.{
  ℕ, ◌+◌, ◌<◌, ◌≤◌, true, false, Option, none, some, List, [], ◌∷◌, ◌≡◌, ◌≢◌, refl, arith, Bytes,
  length, set,
}
use nuodb_drivers.Prelude.Outcome.{ok}
use nuodb_drivers.Client.{returns}
use nuodb_drivers.Node.Library.{Library}
use nuodb_drivers.Node.Result.{State, at, free_row, row_columns, row, row_of, advance, next}

-- The lengths that the loop over the columns writes
abbrev filled : List ℕ → ℕ → List Bytes → List ℕ
filled ls c [] = ls
filled ls c (v ∷ vs) = filled (set ls c (length v)) (c + 1) vs

module _ (lib : Library) where
  -- The client library answers these texts from the column `c` on, counted from 0.
  pub data Cells (rs : lib.ResultSet) : ℕ → List Bytes → lib.World → lib.World → Type 0 where
    last : {c : ℕ} {w : lib.World} → Cells rs c [] w w
    cell :
        {c : ℕ} {v : Bytes} {vs : List Bytes} {w u w' : lib.World}
        → lib.get_string rs (c + 1) w ≡ (returns (some v), u)
        → Cells rs (c + 1) vs u w'
        → Cells rs c (v ∷ vs) w w'

  -- The result set has these rows of `n` columns left.
  pub data Yields (rs : lib.ResultSet) (n : ℕ)
      : List (List Bytes) → lib.World → lib.World → Type 0 where
    done : {w w' : lib.World} → lib.next rs w ≡ (returns false, w') → Yields rs n [] w w'
    more :
        {vs : List Bytes} {rows : List (List Bytes)} {w u v w' : lib.World}
        → lib.next rs w ≡ (returns true, u)
        → Cells rs 0 vs u v
        → length vs ≡ n
        → Yields rs n rows v w'
        → Yields rs n (vs ∷ rows) w w'

  abbrev pub columns_read : State lib → ℕ → List Bytes → lib.World → State lib
  columns_read s c vs w = record s {
    result = record (s.result) { next_column_lengths = filled s.result.next_column_lengths c vs };
    world = w;
  }

  pub row_columns-Cells :
      {rs : lib.ResultSet} {c : ℕ} {vs : List Bytes} {w w' : lib.World} (s : State lib)
      → Cells rs c vs w w'
      → s.world ≡ w
      → row_columns lib rs (length vs) c s ≡ (ok vs, columns_read s c vs w')
  unfolding row_columns
  row_columns-Cells s last e = ground arith
  row_columns-Cells {c = c} s (cell {v = v} {vs = vs} {u = u} g rest) e =
      ground (arith, row_columns-Cells (columns_read s c (v ∷ []) u) rest refl)

  -- A row ahead, at `r` with the texts `v`. Every buffer is reached from the result.
  pub record Ahead (rs : lib.ResultSet) (n r : ℕ) (v : List Bytes) (s : State lib) : Type 0 where
    pub set_is : s.result.result_set ≡ some rs
    pub columns_is : s.result.total_columns ≡ n
    pub next_is : s.result.next_row ≡ some r
    pub held : s.heap r ≡ some v
    pub previous_held : (p : ℕ) → s.result.previous_row ≡ some p → (s.heap p ≢ none) × (p ≢ r)
    pub others : (q : ℕ) → q ≢ r → s.result.previous_row ≢ some q → s.heap q ≡ none
    pub below : (q : ℕ) → s.fresh ≤ q → s.heap q ≡ none

  pub record Ended (s : State lib) : Type 0 where
    pub next_none : s.result.next_row ≡ none
    pub previous_alive : (p : ℕ) → s.result.previous_row ≡ some p → s.heap p ≢ none
    pub others_free : (q : ℕ) → s.result.previous_row ≢ some q → s.heap q ≡ none

  abbrev pub released : Option ℕ → (ℕ → Option (List Bytes)) → ℕ → Option (List Bytes)
  released none h = h
  released (some p) h = at lib h p none

  -- The result after one step, with another row ahead or without
  abbrev stepped : State lib → ℕ → lib.World → State lib
  stepped s r w = record s {
    result = record (s.result) {
      row_number = s.result.row_number + 1;
      previous_row = some r;
      previous_column_lengths = s.result.next_column_lengths;
    };
    heap = released s.result.previous_row s.heap;
    world = w;
  }

  abbrev pub stepped_row : State lib → ℕ → List Bytes → lib.World → State lib
  stepped_row s r vs w =
      let t = columns_read (stepped s r w) 0 vs w in
      record t {
        result = record (t.result) { next_row = some s.fresh };
        heap = at lib t.heap s.fresh (some vs);
        fresh = s.fresh + 1;
      }

  abbrev pub stepped_end : State lib → ℕ → lib.World → State lib
  stepped_end s r w =
      let t = stepped s r w in record t { result = record (t.result) { next_row = none } }

  pub free_row-released :
      (o : Option ℕ) (s : State lib)
      → ((p : ℕ) → o ≡ some p → s.heap p ≢ none)
      → free_row lib o s ≡ (ok tt, record s { heap = released o s.heap })
  unfolding free_row
  free_row-released none s h = refl
  free_row-released (some p) s h = ground (arith, h p refl)

  released_row :
      {rs : lib.ResultSet} {n r : ℕ} {v : List Bytes} (s : State lib)
      → Ahead rs n r v s
      → free_row lib s.result.previous_row s
        ≡ (ok tt, record s { heap = released s.result.previous_row s.heap })
  released_row s a = free_row-released s.result.previous_row s (λ p e. (a.previous_held p e).0)

  pub next_row :
      {rs : lib.ResultSet} {r : ℕ} {v vs : List Bytes} {u w : lib.World} (s : State lib)
      → Ahead rs (length vs) r v s
      → lib.next rs s.world ≡ (returns true, u)
      → Cells rs 0 vs u w
      → next lib s ≡ (ok (some r), stepped_row s r vs w)
  unfolding next advance row row_of
  next_row {r = r} {u = u} s a h c = ground (
    arith,
    released_row s a,
    a.next_is,
    a.set_is,
    a.columns_is,
    row_columns-Cells (stepped s r u) c refl,
  )

  pub next_end :
      {rs : lib.ResultSet} {n r : ℕ} {v : List Bytes} {w : lib.World} (s : State lib)
      → Ahead rs n r v s
      → lib.next rs s.world ≡ (returns false, w)
      → next lib s ≡ (ok (some r), stepped_end s r w)
  unfolding next advance row row_of
  next_end s a h = ground (arith, released_row s a, a.next_is, a.set_is)

  released_others :
      {rs : lib.ResultSet} {n r : ℕ} {v : List Bytes} (s : State lib)
      → Ahead rs n r v s
      → (q : ℕ) → q ≢ r
      → released s.result.previous_row s.heap q ≡ none
  released_others s a q ne = go s.result.previous_row refl
    where
      go : (o : Option ℕ) → s.result.previous_row ≡ o → released o s.heap q ≡ none
      go none e = a.others q ne (λ f. cc)
      go (some p) e = ground (arith, a.others q ne)

  pub released_held :
      {rs : lib.ResultSet} {n r : ℕ} {v : List Bytes} (s : State lib)
      → Ahead rs n r v s
      → released s.result.previous_row s.heap r ≡ some v
  released_held {r = r} {v = v} s a = go s.result.previous_row refl
    where
      go : (o : Option ℕ) → s.result.previous_row ≡ o → released o s.heap r ≡ some v
      go none e = a.held
      go (some p) e = let ne = (a.previous_held p e).1 in ground (arith, a.held)

  pub below_held :
      {rs : lib.ResultSet} {n r : ℕ} {v : List Bytes} (s : State lib)
      → Ahead rs n r v s
      → r < s.fresh
  below_held {r = r} s a = ground (arith, a.below r, a.held)

  pub Ahead-row :
      {rs : lib.ResultSet} {r : ℕ} {v vs : List Bytes} {w : lib.World} (s : State lib)
      → Ahead rs (length vs) r v s
      → Ahead rs (length vs) s.fresh vs (stepped_row s r vs w)
  Ahead-row {r = r} {vs = vs} {w = w} s a =
      let lt = below_held s a in
      record {
        set_is = a.set_is;
        columns_is = a.columns_is;
        next_is = refl;
        held = ground arith;
        previous_held = λ p e. ground (arith, released_held s a);
        others = λ q ne np. ground (arith, released_others s a q);
        below = λ q le. ground (arith, released_others s a q);
      }

  pub Ended-step :
      {rs : lib.ResultSet} {n r : ℕ} {v : List Bytes} {w : lib.World} (s : State lib)
      → Ahead rs n r v s
      → Ended (stepped_end s r w)
  Ended-step {r = r} s a = record {
    next_none = refl;
    previous_alive = λ p e. ground (arith, released_held s a);
    others_free = λ q np. ground (arith, released_others s a q);
  }
