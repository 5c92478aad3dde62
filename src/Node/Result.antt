-- ===== src/Node/Result.antt =====
-- nodejs/src/node_db_nuodb_result.cc: a result that reads one row ahead. Rows are buffers on a heap;
-- an address is never used again, so that a buffer that is deleted twice is seen. The exceptions of the
-- client library are not among those that `throw(...)` names at the methods: where one is raised here,
-- `std::unexpected` is called in the source, which ends the program.
use nuodb_drivers.Prelude.{
  ℕ, zero, suc, ◌+◌, ◌-◌, ◌%◌, ◌^◌, Bool, true, false, Option, none, some, List, [], ◌∷◌, Bytes,
  length, replicate, set, get_elem?, ◌==◌, if◌then◌else◌,
}
use nuodb_drivers.Prelude.Outcome.{
  ok, raise, unknown, Call, ◌>>=◌, ◌>>◌, pure, crash, throw, deref, catch, modify, gets,
}
use nuodb_drivers.Client.{Attempt, returns, throws}
use nuodb_drivers.Node.Library.{Library, SqlType}

-- `type_t` of node-db, as far as the driver uses it
pub data ColumnType : Type 0 where
  string number int datetime : ColumnType

-- `Column`; `binary` is false for every column.
pub record Column : Type 0 where
  pub name : Bytes
  pub type : ColumnType

unfoldable pub type_of : SqlType → ColumnType
type_of SqlType.double = number
type_of SqlType.integer = int
type_of SqlType.time = datetime
type_of SqlType.date = datetime
type_of _ = string

module _ (lib : Library) where
  open lib use {World, ResultSet}

  -- `Result`
  pub record Result : Type 0 where
    pub columns : List Column
    pub total_columns : ℕ
    pub row_number : ℕ
    pub affected_rows : ℕ
    pub empty : Bool
    pub result_set : Option ResultSet
    pub previous_column_lengths : List ℕ
    pub previous_row : Option ℕ
    pub next_column_lengths : List ℕ
    pub next_row : Option ℕ

  -- A result, the buffers of rows and the next address of one
  pub record State : Type 0 where
    pub result : Result
    pub heap : ℕ → Option (List Bytes)
    pub fresh : ℕ
    pub world : World

  abbrev pub Run : Type 0 → Type 0
  Run A = Call State A

  abbrev pub call : {A : Type 0} → (World → Attempt A × World) → Run A
  call f s =
      let (r, w) = f s.world in
      elim r [
        | returns a ↦ (ok a, record s { world = w })
        | throws e ↦ (raise e, record s { world = w })
      ]

  abbrev pub update : (Result → Result) → Run (Unit {0})
  update f = modify λ s. record s { result = f s.result }

  abbrev pub at : (ℕ → Option (List Bytes)) → ℕ → Option (List Bytes) → ℕ → Option (List Bytes)
  at f p v q = if p == q then v else f q

  abbrev alloc_row : List Bytes → Run ℕ
  alloc_row v s = (ok s.fresh, record s { heap = at s.heap s.fresh (some v); fresh = s.fresh + 1 })

  -- `freeRow`
  unfoldable pub free_row : Option ℕ → Run (Unit {0})
  free_row none = pure tt
  free_row (some r) = do
    v ← λ s. deref (s.heap r) s
    modify λ s. record s { heap = at s.heap r none }

  -- The loop of `row` from the column `c` on. A `std::string` cannot be made of a NULL pointer.
  unfoldable pub row_columns : ResultSet → ℕ → ℕ → Run (List Bytes)
  row_columns rs zero c = pure []
  row_columns rs (suc left) c = do
    str ← call (lib.get_string rs (c + 1))
    v ← deref str
    update (λ r. record r { next_column_lengths = set r.next_column_lengths c (length v) })
    vs ← row_columns rs left (c + 1)
    pure (v ∷ vs)

  unfoldable pub row_of : ResultSet → Run (Option ℕ)
  unfolding row_columns
  row_of rs = do
    more ← call (lib.next rs)
    n ← gets (λ s. s.result.total_columns)
    if more then (row_columns rs n 0 >>= alloc_row >>= λ r. pure (some r)) else pure none

  -- `row`: after an exception the buffers that are made are deleted.
  unfoldable pub row : Run (Option ℕ)
  unfolding row_of
  row = do rs ← λ s. deref s.result.result_set s; row_of rs

  unfoldable pub make_columns : ResultSet → ℕ → ℕ → Run (List Column)
  unfolding type_of
  make_columns rs zero i = pure []
  make_columns rs (suc left) i = do
    name ← call (lib.column_name rs (i + 1))
    type ← call (lib.column_type rs (i + 1))
    cs ← make_columns rs left (i + 1)
    pure (record { name = name; type = type_of type } ∷ cs)

  unfoldable pub fill : ResultSet → Run (Unit {0})
  unfolding make_columns row
  fill rs = do
    count ← call (lib.column_count rs)
    let n = count % 2 ^ 16
    update (λ r. record r {
      empty = false;
      total_columns = n;
      previous_column_lengths = replicate n 0;
      next_column_lengths = replicate n 0;
    })
    cs ← catch (make_columns rs n 0) (λ e. crash)
    update (λ r. record r { columns = cs })
    ahead ← row
    update (λ r. record r { next_row = ahead })

  -- The constructor. If a column throws, `free` deletes pointers of the array that were never set.
  unfoldable pub construct : Option ResultSet → ℕ → Run (Unit {0})
  unfolding fill
  construct results affected = do
    update (λ r. record {
      columns = [];
      total_columns = 0;
      row_number = 0;
      affected_rows = affected;
      empty = true;
      result_set = results;
      previous_column_lengths = [];
      previous_row = none;
      next_column_lengths = [];
      next_row = none;
    })
    elim results [ none ↦ pure tt | some rs ↦ fill rs ]

  -- `free`, the destructor
  unfoldable pub free : Run (Unit {0})
  unfolding free_row
  free = do r ← gets (λ s. s.result); free_row r.previous_row; free_row r.next_row

  abbrev pub is_some : {A : Type 0} → Option A → Bool
  is_some none = false
  is_some (some a) = true

  unfoldable pub has_next : Run Bool
  has_next = gets (λ s. is_some s.result.next_row)

  unfoldable pub advance : Option ℕ → Run (Option ℕ)
  unfolding row
  advance none = pure none
  advance (some r) = do
    update (λ x. record x {
      row_number = x.row_number + 1;
      previous_row = some r;
      previous_column_lengths = x.next_column_lengths;
    })
    ahead ← row
    update (λ x. record x { next_row = ahead })
    pure (some r)

  -- `next`: the row, or NULL
  unfoldable pub next : Run (Option ℕ)
  unfolding free_row advance
  next = do
    p ← gets (λ s. s.result.previous_row)
    free_row p
    r ← gets (λ s. s.result.next_row)
    advance r

  unfoldable pub column_lengths : Run (List ℕ)
  column_lengths = gets (λ s. s.result.previous_column_lengths)

  -- `index`; `out_of_range` is `unknown`.
  unfoldable pub index : Run ℕ
  index = do n ← gets (λ s. s.result.row_number); if n == 0 then throw unknown else pure (n - 1)

  -- `column`
  unfoldable pub column : ℕ → Run Column
  column i = do
    cs ← gets (λ s. s.result.columns)
    elim (get_elem? cs i) [ none ↦ throw unknown | some c ↦ pure c ]

  unfoldable pub affected_count : Run ℕ
  affected_count = gets (λ s. s.result.affected_rows)

  unfoldable pub column_count : Run ℕ
  column_count = gets (λ s. s.result.total_columns)

  unfoldable pub is_empty : Run Bool
  is_empty = gets (λ s. s.result.empty)
