-- ===== src/Dotnet/Reader/Columns.antt =====
-- dotnet/nuodb/datareader.cpp: the columns of a reader.
use nuodb_drivers.Prelude.{
  ℕ, zero, suc, ◌+◌, ◌^◌, ◌<◌, ◌≤◌, true, false, Option, none, some, List, [], ◌∷◌, ◌++◌,
  append_assoc, append-nil, Bytes, ◌≡◌, refl, Bool, ap, ◌∙◌, arith,
}
use nuodb_drivers.Client.{returns}
use nuodb_drivers.Dotnet.Calls.{ok}
use nuodb_drivers.Dotnet.Library.{Library, SqlType}
use nuodb_drivers.Dotnet.Parameters.{NuodbType}
use nuodb_drivers.Dotnet.Objects.{Column, State}
use nuodb_drivers.Dotnet.Command.{text_of}
use nuodb_drivers.Dotnet.Reader.Creating.{type_of, below, extract, construct}

-- The type by which a column of an SQL type is read: a type that the driver does not name is read as
-- a string.
pub data Reads : SqlType → NuodbType → Type 0 where
  boolean : Reads SqlType.boolean NuodbType.boolean
  integer : Reads SqlType.integer NuodbType.integer
  bigint : Reads SqlType.bigint NuodbType.big_int
  double : Reads SqlType.double NuodbType.double
  string : Reads SqlType.string NuodbType.string
  date : Reads SqlType.date NuodbType.date
  time : Reads SqlType.time NuodbType.time
  datetime : Reads SqlType.datetime NuodbType.date_time
  other : {n : ℕ} → Reads (SqlType.other n) NuodbType.string

-- The name of a column: a NULL pointer is the empty text.
pub data Named : Option Bytes → Bytes → Type 0 where
  unnamed : Named none []
  spelt : {b : Bytes} → Named (some b) b

text_of-Named : {n : Option Bytes} {b : Bytes} → Named n b → text_of n ≡ b
text_of-Named unnamed = refl
text_of-Named spelt = refl

type_of-Reads : {t : SqlType} {u : NuodbType} → Reads t u → type_of t ≡ u
unfolding type_of
type_of-Reads boolean = refl
type_of-Reads integer = refl
type_of-Reads bigint = refl
type_of-Reads double = refl
type_of-Reads string = refl
type_of-Reads date = refl
type_of-Reads time = refl
type_of-Reads datetime = refl
type_of-Reads other = refl

below-lt : (i n : ℕ) → i < n → n < 2 ^ 31 → below i n ≡ true
below-lt i n h k = ground (arith, h, k)

below-le : (i n : ℕ) → n ≤ i → n < 2 ^ 31 → below i n ≡ false
below-le i n h k = ground (arith, h, k)

module _ (lib : Library) where
  -- The library describes the columns from index `i` on: it is asked for their number before each of
  -- them and after the last, and each time there are fewer than 2^31.
  abbrev pub Described : lib.Results → ℕ → List Column → lib.World → lib.World → Type 0
  Described r i [] w w' =
      (n : ℕ) × (lib.column_count r w ≡ (returns n, w')) × (n < 2 ^ 31) × (n ≤ i)
  Described r i (c ∷ cs) w w' =
      (n : ℕ) × (name : Option Bytes) × (type : SqlType) × (u v : lib.World) × (lib.column_count r w
        ≡ (returns n, u))
      × (i < n)
      × (n < 2 ^ 31)
      × (lib.column r i u ≡ (returns (name, type), v))
      × Named name c.name
      × Reads type c.type
      × Described r (suc i) cs v w'

  abbrev with_columns : List Column → lib.World → State lib → State lib
  with_columns cs w s = record s {
    reader = record (s.reader) { columns = s.reader.columns ++ cs };
    world = w;
  }

  extract-Described :
      (fuel i : ℕ) (r : lib.Results) (cs : List Column) (s : State lib) (w : lib.World)
      → fuel + i ≡ 2 ^ 31
      → i < 2 ^ 31
      → s.reader.results ≡ some r
      → Described r i cs s.world w
      → extract lib fuel i s ≡ (ok tt, with_columns cs w s)
  unfolding extract
  extract-Described zero i r cs s w f b e d = absurd (omega (arith, f, b))
  extract-Described (suc fuel) i r [] s w f b e (n, g, l, h) =
      ground (arith, e, g, below-le i n h l, append-nil s.reader.columns)
  extract-Described (suc fuel) i r (c ∷ cs) s w f b e (n, name, type, u, v, g, h, l, k, m, t, d) =
      round
      ∙ extract-Described fuel (suc i) r cs (with_columns (c ∷ []) v s) w (omega (arith, f))
          (omega (arith, h, l)) e d
      ∙ ap (λ l. (ok tt, record s { reader = record (s.reader) { columns = l }; world = w }))
          (append_assoc s.reader.columns (c ∷ []) cs)
    where
      round : extract lib (suc fuel) i s ≡ extract lib fuel (suc i) (with_columns (c ∷ []) v s)
      round = ground (arith, e, g, below-lt i n h l, k, text_of-Named m, type_of-Reads t)

  -- A reader that is made of the results of a command with an open connection has the columns that the
  -- client library describes, in their order, with the type by which each is read, if there are fewer
  -- than 2^31 of them: the loop over them ends.
  pub construct-Described :
      (s : State lib) (c : lib.Connection) (r : lib.Results) (close_connection : Bool)
      (cs : List Column) (w : lib.World)
      → s.command.connection ≡ true
      → s.conn.connection ≡ some c
      → Described r 0 cs s.world w
      → construct lib (some r) close_connection s ≡ (
        ok tt,
        record s {
          reader = record {
            close_connection = close_connection;
            is_closed = false;
            results = some r;
            disposed = false;
            columns = cs;
          };
          world = w;
        },
      )
  unfolding construct
  construct-Described s c r close_connection cs w a o d = ground (
    arith,
    a,
    o,
    extract-Described (2 ^ 31) 0 r cs (started s) w (omega arith) (omega arith) refl d,
  )
    where
      started : State lib → State lib
      started s = record s {
        reader = record {
          close_connection = close_connection;
          is_closed = false;
          results = some r;
          disposed = false;
          columns = [];
        };
      }
