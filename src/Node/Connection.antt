-- ===== src/Node/Connection.antt =====
-- nodejs/src/node_db_nuodb_connection.cc and node_db_nuodb_query.cc: a connection, and the text of a
-- limited query.
use nuodb_drivers.Prelude.{
  ℕ, Bool, true, false, Option, none, some, List, [], ◌∷◌, ◌++◌, Bytes, codes, ◌==◌, ltb,
  if◌then◌else◌,
}
use nuodb_drivers.Prelude.Outcome.{ℤ, pos, sql, unknown}
use nuodb_drivers.Client.{Attempt, returns, throws}

-- What the connection calls of the client library, as in Node/Library.
pub record Library : Type 1 where
  pub World : Type 0
  pub Connection : Type 0
  pub Properties : Type 0
  pub Statement : Type 0
  pub ResultSet : Type 0
  pub create : World → Attempt Connection × World
  pub alloc_properties : Connection → World → Attempt Properties × World
  pub put_value : Properties → Bytes → Bytes → World → Attempt (Unit {0}) × World
  pub open_database : Connection → Bytes → Properties → World → Attempt (Unit {0}) × World
  pub release : Connection → World → Attempt (Unit {0}) × World
  -- `getMetaData` and `getDatabaseProductVersion`
  pub product_version : Connection → World → Attempt (Option Bytes) × World
  pub prepare_statement : Connection → Bytes → World → Attempt Statement × World
  pub execute_query : Statement → World → Attempt ResultSet × World
  pub execute_update : Statement → World → Attempt ℤ × World

-- A method returns, throws a `node_db::Exception`, lets another exception through, calls
-- `std::unexpected`, which ends the program, or is undefined.
pub data Answer (A : Type 0) : Type 0 where
  ok : A → Answer A
  node_exception : Bytes → Answer A
  escapes : Answer A
  unexpected : Answer A
  fault : Answer A

module _ (lib : Library) where
  -- `Connection`; a handle of 0 is `none`.
  pub record State : Type 0 where
    pub handle : Option lib.Connection
    pub alive : Bool
    pub user : Bytes
    pub password : Bytes
    pub schema : Bytes
    pub database : Bytes
    pub world : lib.World

  abbrev pub Act : Type 0 → Type 0
  Act A = State → Answer A × State

  abbrev pub continue : {A B : Type 0} → (A → Act B) → Answer A × State → Answer B × State
  continue f (ok a, s) = f a s
  continue f (node_exception e, s) = (node_exception e, s)
  continue f (escapes, s) = (escapes, s)
  continue f (unexpected, s) = (unexpected, s)
  continue f (fault, s) = (fault, s)

  infixl 5 ◌>>=◌ ◌>>◌
  abbrev pub ◌>>=◌ : {A B : Type 0} → Act A → (A → Act B) → Act B
  ◌>>=◌ m f s = continue f (m s)

  abbrev pub ◌>>◌ : {A B : Type 0} → Act A → Act B → Act B
  m >> k = m >>= λ _. k

  abbrev pub pure : {A : Type 0} → A → Act A
  pure a s = (ok a, s)

  abbrev pub modify : (State → State) → Act (Unit {0})
  modify f s = (ok tt, f s)

  -- `throw(node_db::Exception&)` at a method: another exception that would get through calls
  -- `std::unexpected`.
  abbrev pub specified : {A : Type 0} → Answer A × State → Answer A × State
  specified (ok a, s) = (ok a, s)
  specified (node_exception e, s) = (node_exception e, s)
  specified (escapes, s) = (unexpected, s)
  specified (unexpected, s) = (unexpected, s)
  specified (fault, s) = (fault, s)

  abbrev pub deref : Option lib.Connection → Act lib.Connection
  deref none s = (fault, s)
  deref (some c) s = (ok c, s)

  -- Outside of a `try`
  abbrev pub outside : {A : Type 0} → Attempt A → Answer A
  outside (returns a) = ok a
  outside (throws e) = escapes

  -- In a block whose handler makes a `node_db::Exception` of an `SQLException`
  abbrev pub inside : {A : Type 0} → Attempt A → Answer A
  inside (returns a) = ok a
  inside (throws (sql code text)) = node_exception text
  inside (throws unknown) = escapes

  abbrev pub settle :
      {A : Type 0} → (Attempt A → Answer A) → Attempt A × lib.World → State → Answer A × State
  settle f (a, w) s = (f a, record s { world = w })

  abbrev pub call : {A : Type 0} → (lib.World → Attempt A × lib.World) → Act A
  call f s = settle outside (f s.world) s

  abbrev pub try_call : {A : Type 0} → (lib.World → Attempt A × lib.World) → Act A
  try_call f s = settle inside (f s.world) s

  abbrev pub close_alive : Bool → Option lib.Connection → Act (Unit {0})
  close_alive false handle = pure tt
  close_alive true handle = do
    c ← deref handle
    call (lib.release c)
    modify (λ s. record s { handle = none })

  -- `close`, which is also the destructor
  unfoldable pub close : Act (Unit {0})
  close = do λ s. close_alive s.alive s.handle s; modify (λ s. record s { alive = false })

  -- The statement under `try` in `open`, with its handler
  abbrev pub connect : State → Act (Unit {0})
  connect s = do
    c ← try_call lib.create
    p ← try_call (lib.alloc_properties c)
    try_call (lib.put_value p (codes "user") s.user)
    try_call (lib.put_value p (codes "password") s.password)
    try_call (lib.put_value p (codes "schema") s.schema)
    try_call (lib.open_database c s.database p)
    modify (λ t. record t { handle = some c; alive = true })

  -- `open`
  unfoldable pub open_connection : Act (Unit {0})
  open_connection s = specified ((close >> (λ t. connect t t)) s)

  unfoldable pub set_schema : Bytes → Act (Unit {0})
  set_schema schema = modify (λ s. record s { schema = schema })

  unfoldable pub is_alive : Bool → Act Bool
  is_alive ping s = (ok s.alive, s)

  unfoldable pub escape : Bytes → Act Bytes
  escape string s = specified (node_exception (codes "This binding does not implement escape()"), s)

  -- A `std::string` cannot be made of a NULL pointer.
  abbrev pub string_of : Option Bytes → Act Bytes
  string_of none s = (fault, s)
  string_of (some b) s = (ok b, s)

  abbrev pub version_alive : Bool → Option lib.Connection → Act Bytes
  version_alive false handle s = (fault, s)
  version_alive true handle s = (deref handle >>= λ c. call (lib.product_version c) >>= string_of) s

  -- `version`; without a connection it makes a string of NULL.
  unfoldable pub version : Act Bytes
  version s = version_alive s.alive s.handle s

  abbrev pub starts : Bytes → Bytes → Bool
  starts [] b = true
  starts (x ∷ xs) [] = false
  starts (x ∷ xs) (y ∷ ys) = if x == y then starts xs ys else false

  abbrev pub run_statement : Bool → lib.Statement → Act (Option lib.ResultSet × ℤ)
  run_statement true st = try_call (lib.execute_query st) >>= λ r. pure (some r, pos 0)
  run_statement false st = try_call (lib.execute_update st) >>= λ n. pure (none, n)

  -- `query`: what the constructor of the result is given
  unfoldable pub query : Bytes → Act (Option lib.ResultSet × ℤ)
  query text s = specified (
      (do
        c ← λ t. deref t.handle t
        st ← try_call (lib.prepare_statement c text)
        run_statement (starts (codes "SELECT") text) st)
        s)

-- An argument of a JavaScript call: a number of 32 bits without a sign, or anything else
pub data Argument : Type 0 where
  uint32 : ℕ → Argument
  other : Argument

abbrev pub fetch_next : (ℕ → Bytes) → ℕ → Bytes
fetch_next decimal rows =
    if ltb 0 rows then codes " FETCH NEXT " ++ decimal rows ++ codes " ROWS ONLY " else []

abbrev pub limited : (ℕ → Bytes) → Bytes → ℕ → ℕ → Bytes
limited decimal text offset rows =
    codes "SELECT * FROM ("
    ++ text
    ++ codes ") OFFSET "
    ++ decimal offset
    ++ codes " ROWS"
    ++ fetch_next decimal rows

-- `Limit`: the new text of the query, if the arguments are numbers; `decimal` is how a stream prints one.
unfoldable pub limit : (ℕ → Bytes) → Bytes → List Argument → Option Bytes
limit decimal text [] = none
limit decimal text (other ∷ args) = none
limit decimal text (uint32 n ∷ []) = some (limited decimal text n 0)
limit decimal text (uint32 n ∷ uint32 m ∷ args) = some (limited decimal text n m)
limit decimal text (uint32 n ∷ other ∷ args) = none
