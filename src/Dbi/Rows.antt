-- ===== src/Dbi/Rows.antt =====
-- The rows that `dbd_st_fetch` (perl_dbi/dbdimp.cpp) delivers.
use nuodb_drivers.Prelude.{
  ℕ, zero, suc, ◌+◌, ◌<◌, true, false, Option, none, some, List, [], ◌∷◌, ◌≡◌, refl, arith, Bytes,
  length, terminated,
}
use nuodb_drivers.Prelude.Outcome.{ℤ, sql, ok, ◌>>=◌, pure}
use nuodb_drivers.Client.{returns, throws}
use nuodb_drivers.Dbi.Library.{Library}
use nuodb_drivers.Dbi.Handles.{State, Run, failing, do_error}
use nuodb_drivers.Dbi.Statement.{field, fields, next_row, fetch_from, fetch}

module _ (lib : Library) where
  -- The client library answers these fields from the column `i` on.
  pub data Cells (rs : lib.ResultSet)
      : ℕ → List (Option Bytes) → lib.World → lib.World → Type 0 where
    last : {i : ℕ} {w : lib.World} → Cells rs i [] w w
    null :
        {i : ℕ} {vs : List (Option Bytes)} {w u v w' : lib.World} {str : Option Bytes}
        → lib.get_string rs i w ≡ (returns str, u)
        → lib.was_null rs u ≡ (returns true, v)
        → Cells rs (i + 1) vs v w'
        → Cells rs i (none ∷ vs) w w'
    text :
        {i : ℕ} {vs : List (Option Bytes)} {w u v w' : lib.World} {b : Bytes}
        → lib.get_string rs i w ≡ (returns (some b), u)
        → lib.was_null rs u ≡ (returns false, v)
        → Cells rs (i + 1) vs v w'
        → Cells rs i (some (terminated b) ∷ vs) w w'

  -- The result set has these rows of `n` fields left.
  pub data Yields (rs : lib.ResultSet) (n : ℕ)
      : List (List (Option Bytes)) → lib.World → lib.World → Type 0 where
    done : {w w' : lib.World} → lib.next rs w ≡ (returns false, w') → Yields rs n [] w w'
    row :
        {vs : List (Option Bytes)} {rows : List (List (Option Bytes))} {w u v w' : lib.World}
        → lib.next rs w ≡ (returns true, u)
        → Cells rs 1 vs u v
        → length vs ≡ n
        → Yields rs n rows v w'
        → Yields rs n (vs ∷ rows) w w'

  -- A connection, and a statement on it with a result set
  pub record Reading (rs : lib.ResultSet) (s : State lib) : Type 0 where
    pub conn : lib.Connection
    pub conn_is : s.dbh.conn ≡ some conn
    pub rs_is : s.sth.rs ≡ some rs

  abbrev at_world : State lib → lib.World → State lib
  at_world s w = record s { world = w }

  fields-Cells :
      {rs : lib.ResultSet} {i : ℕ} {vs : List (Option Bytes)} {w w' : lib.World} (s : State lib)
      → Cells rs i vs w w'
      → s.world ≡ w
      → fields lib rs (length vs) i s ≡ (ok vs, at_world s w')
  unfolding fields field
  fields-Cells s last e = ground arith
  fields-Cells s (null {v = v} g n c) e = ground (arith, fields-Cells (at_world s v) c refl)
  fields-Cells s (text {v = v} g n c) e = ground (arith, fields-Cells (at_world s v) c refl)

  fetch_row :
      {rs : lib.ResultSet} {vs : List (Option Bytes)} {u v : lib.World} (s : State lib)
      → Reading rs s
      → lib.next rs s.world ≡ (returns true, u)
      → Cells rs 1 vs u v
      → length vs ≡ s.sth.num_fields
      → fetch lib s ≡ (ok (some vs), at_world s v)
  unfolding fetch fetch_from next_row
  fetch_row {u = u} s r e c n =
      ground (arith, fields-Cells (at_world s u) c refl, r.conn_is, r.rs_is)

  abbrev ended : State lib → lib.World → State lib
  ended s w = record s { sth = record (s.sth) { active = false }; world = w }

  fetch_end :
      {rs : lib.ResultSet} {w : lib.World} (s : State lib)
      → Reading rs s
      → lib.next rs s.world ≡ (returns false, w)
      → fetch lib s ≡ (ok none, ended s w)
  unfolding fetch fetch_from next_row
  fetch_end s r e = ground (arith, r.conn_is, r.rs_is)

  -- What a script does: it fetches until there is no row, at most `fuel` times.
  pub fetch_all : ℕ → Run lib (List (List (Option Bytes)))
  fetch_all zero = pure []
  fetch_all (suc fuel) = do
    r ← fetch lib
    elim r [ none ↦ pure [] | some vs ↦ fetch_all fuel >>= λ rest. pure (vs ∷ rest) ]

  -- A script that fetches until there is no row gets exactly the rows of the result set, in their
  -- order, a field that is NULL as undefined and any other as its C string; the loop ends with one
  -- fetch more than there are rows, and leaves the statement inactive.
  pub fetch_all-Yields :
      {rs : lib.ResultSet} {rows : List (List (Option Bytes))} {w w' : lib.World} (fuel : ℕ)
      (s : State lib)
      → Yields rs s.sth.num_fields rows w w'
      → Reading rs s
      → s.world ≡ w
      → length rows < fuel
      → fetch_all fuel s ≡ (ok rows, ended s w')
  unfolding fetch_all
  fetch_all-Yields zero s y r e lt = absurd (omega arith)
  fetch_all-Yields {rs} {w' = w'} (suc fuel) s (done h) r e lt =
      let h' : lib.next rs s.world ≡ (returns false, w') = rw e h in rw (fetch_end s r h')
  fetch_all-Yields {rs} {w' = w'} (suc fuel) s
        (row {vs = vs} {rows = rows} {u = u} {v = v} h c n rest) r e lt =
      let h' : lib.next rs s.world ≡ (returns true, u) = rw e h in
      let r' : Reading _ (at_world s v) = record {
        conn = r.conn;
        conn_is = r.conn_is;
        rs_is = r.rs_is;
      } in
      rw (fetch_row s r h' c n)
        (rw (fetch_all-Yields {rows = rows} fuel (at_world s v) rest r' refl (omega arith)))

  -- An SQL error of `next` is recorded, but the fetch goes on and returns a row of whatever the
  -- result set answers, as it does with success.
  fetch_failed :
      {rs : lib.ResultSet} {vs : List (Option Bytes)} {u v : lib.World} (s : State lib) (code : ℤ)
      (why : Bytes)
      → Reading rs s
      → lib.next rs s.world ≡ (throws (sql code why), u)
      → Cells rs 1 vs u v
      → length vs ≡ s.sth.num_fields
      → fetch lib s
        ≡ (ok (some vs), record s { dbh = record (s.dbh) { error = some (code, why) }; world = v })
  unfolding fetch fetch_from next_row failing do_error
  fetch_failed {u = u} s code why r e c n =
      let s' : State lib = record s {
        dbh = record (s.dbh) { error = some (code, why) };
        world = u;
      } in
      ground (arith, fields-Cells s' c refl, r.conn_is, r.rs_is)
