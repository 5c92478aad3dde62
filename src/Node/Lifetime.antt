-- ===== src/Node/Lifetime.antt =====
-- A result of nodejs/src/node_db_nuodb_result.cc from its constructor to its destructor.
use nuodb_drivers.Prelude.{
  ℕ, zero, suc, ◌+◌, ◌<◌, ◌%◌, ◌^◌, true, false, Option, none, some, List, [], ◌∷◌, ◌≡◌, refl,
  arith, Bytes, length, replicate,
}
use nuodb_drivers.Prelude.Outcome.{Succeeds, Succeeds-weaken, ok, fault, ◌>>◌}
use nuodb_drivers.Client.{returns}
use nuodb_drivers.Node.Library.{Library, SqlType}
use nuodb_drivers.Node.Result.{
  Column, State, at, type_of, make_columns, fill, row, row_of, construct, free, free_row, next,
  advance,
}
use nuodb_drivers.Node.Reading.{
  Cells, Yields, done, more, Ahead, Ended, row_columns-Cells, columns_read,
}
use nuodb_drivers.Node.Ownership.{read_all, read_all-Yields, read_all_last, Read}

module _ (lib : Library) where
  -- The client library answers these columns from `i` on, counted from 0.
  pub data Columns (rs : lib.ResultSet) : ℕ → List Column → lib.World → lib.World → Type 0 where
    last : {i : ℕ} {w : lib.World} → Columns rs i [] w w
    column :
        {i : ℕ} {name : Bytes} {t : SqlType} {cs : List Column} {w u v w' : lib.World}
        → lib.column_name rs (i + 1) w ≡ (returns name, u)
        → lib.column_type rs (i + 1) u ≡ (returns t, v)
        → Columns rs (i + 1) cs v w'
        → Columns rs i (record { name = name; type = type_of t } ∷ cs) w w'

  abbrev at_world : State lib → lib.World → State lib
  at_world s w = record s { world = w }

  make_columns-Columns :
      {rs : lib.ResultSet} {i : ℕ} {cs : List Column} {w w' : lib.World} (s : State lib)
      → Columns rs i cs w w'
      → s.world ≡ w
      → make_columns lib rs (length cs) i s ≡ (ok cs, at_world s w')
  unfolding make_columns
  make_columns-Columns s last e = ground arith
  make_columns-Columns s (column {v = v} g h rest) e =
      ground (arith, make_columns-Columns (at_world s v) rest refl)

  free-Ended :
      (s : State lib)
      → Ended lib s
      → ((free lib s).0 ≡ ok tt) × ((q : ℕ) → (free lib s).1.heap q ≡ none)
  unfolding free free_row
  free-Ended s e = go s.result.previous_row refl
    where
      go :
          (o : Option ℕ)
          → s.result.previous_row ≡ o
          → ((free lib s).0 ≡ ok tt) × ((q : ℕ) → (free lib s).1.heap q ≡ none)
      go none f = (ground (arith, e.next_none), λ q. ground (arith, e.next_none, e.others_free q))
      go (some p) f = (
        ground (arith, e.next_none, e.previous_alive p),
        λ q. ground (arith, e.next_none, e.previous_alive p, e.others_free q),
      )

  -- A new result of `cs` in the world `w`, before the first row is read
  abbrev built : State lib → lib.ResultSet → ℕ → List Column → lib.World → State lib
  built s rs affected cs w = record s {
    result = record {
      columns = cs;
      total_columns = length cs;
      row_number = 0;
      affected_rows = affected;
      empty = false;
      result_set = some rs;
      previous_column_lengths = replicate (length cs) 0;
      previous_row = none;
      next_column_lengths = replicate (length cs) 0;
      next_row = none;
    };
    world = w;
  }

  abbrev built_row :
      State lib → lib.ResultSet → ℕ → List Column → List Bytes → lib.World → State lib
  built_row s rs affected cs vs w =
      let t = columns_read lib (built s rs affected cs w) 0 vs w in
      record t {
        result = record (t.result) { next_row = some s.fresh };
        heap = at lib s.heap s.fresh (some vs);
        fresh = s.fresh + 1;
      }

  -- The client library answers the constructor's questions about the columns.
  pub record Described (rs : lib.ResultSet) (cs : List Column) (w w' : lib.World) : Type 0 where
    pub count : ℕ
    pub counted : lib.World
    pub counts : lib.column_count rs w ≡ (returns count, counted)
    pub fits : count % 2 ^ 16 ≡ length cs
    pub names : Columns rs 0 cs counted w'

  made_columns :
      {rs : lib.ResultSet} {cs : List Column} {w w' : lib.World} (s : State lib) (k : ℕ)
      → k ≡ length cs
      → Columns rs 0 cs w w'
      → s.world ≡ w
      → make_columns lib rs k 0 s ≡ (ok cs, at_world s w')
  made_columns s k e c f = rw e (make_columns-Columns s c f)

  module _ (rs : lib.ResultSet) (affected : ℕ) (cs : List Column) (s : State lib) (w : lib.World)
      (d : Described rs cs s.world w) where
    abbrev sized : State lib
    sized = record (built s rs affected cs d.counted) {
      result = record ((built s rs affected cs d.counted).result) { columns = [] };
    }

    construct_row :
        {vs : List Bytes} {u v : lib.World}
        → lib.next rs w ≡ (returns true, u)
        → Cells lib rs 0 vs u v
        → length vs ≡ length cs
        → construct lib (some rs) affected s ≡ (ok tt, built_row s rs affected cs vs v)
    unfolding construct fill row row_of
    construct_row {u = u} h c n = ground (
      arith,
      d.counts,
      d.fits,
      made_columns sized (length cs) refl d.names refl,
      n,
      row_columns-Cells lib (built s rs affected cs u) c refl,
    )

    construct_end :
        {u : lib.World}
        → lib.next rs w ≡ (returns false, u)
        → construct lib (some rs) affected s ≡ (ok tt, built s rs affected cs u)
    unfolding construct fill row row_of
    construct_end h =
        ground (arith, d.counts, d.fits, made_columns sized (length cs) refl d.names refl)

    -- A result that is made from a result set with no SQL NULL in its rows, read while there is a next row, and destroyed: the
    -- rows that are read are exactly those of the result set, in their order; the loop ends with one
    -- test more than there are rows; and no buffer is deleted twice, and none is left.
    pub construct-free :
        (rows : List (List Bytes)) (w' : lib.World) (fuel : ℕ)
        → ((q : ℕ) → s.heap q ≡ none)
        → Yields lib rs (length cs) rows w w'
        → length rows < fuel
        → Succeeds
            (λ got s'.
              (got ≡ rows) × ((free lib s').0 ≡ ok tt) × ((q : ℕ) → (free lib s').1.heap q ≡ none))
            ((construct lib (some rs) affected >> read_all lib fuel) s)
    construct-free rows w' zero fresh y lt = absurd (omega arith)
    construct-free rows w' (suc fuel) fresh (done h) lt =
        let t = built s rs affected cs w' in
        let ended : Ended lib t = record {
          next_none = refl;
          previous_alive = λ p e. cc;
          others_free = λ q e. fresh q;
        } in
        let f = free-Ended t ended in
        rw (construct_end h) (rw (read_all_last lib fuel t refl) (refl, f.0, f.1))
    construct-free rows w' (suc fuel) fresh (more {vs = vs} {rows = others} {v = v} h c n rest) lt =
        let t = built_row s rs affected cs vs v in
        let ahead : Ahead lib rs (length cs) s.fresh vs t = record {
          set_is = refl;
          columns_is = refl;
          next_is = refl;
          held = ground arith;
          previous_held = λ p e. cc;
          others = λ q ne e. ground (arith, fresh q);
          below = λ q le. ground (arith, fresh q);
        } in
        rw (construct_row h c n) (
          Succeeds-weaken (Read lib (vs ∷ others) w') _ (read_all lib (suc fuel) t)
            (read_all-Yields lib (suc fuel) t ahead rest refl (omega arith))
            (λ got s' k. let f = free-Ended s' k.1 in (k.0, f.0, f.1)))

  -- A call of `next` behind the last row returns NULL, but it deletes the last row's buffer and
  -- keeps the pointer to it: the destructor, and any further call, delete it again.
  next-free :
      (s : State lib) (p : ℕ) (v : List Bytes)
      → s.result.next_row ≡ none
      → s.result.previous_row ≡ some p
      → s.heap p ≡ some v
      → ((next lib s).0 ≡ ok none)
        × ((free lib (next lib s).1).0 ≡ fault)
        × ((next lib (next lib s).1).0 ≡ fault)
  unfolding next advance free free_row
  next-free s p v e f g = (ground arith, ground arith, ground arith)
