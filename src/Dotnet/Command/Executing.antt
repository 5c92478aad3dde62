-- ===== src/Dotnet/Command/Executing.antt =====
-- dotnet/nuodb/command.cpp: what a command sends to the server.
use nuodb_drivers.Prelude.{
  ℕ, suc, not, length, ◌==◌, Bool, true, Option, none, some, List, map, [], ◌∷◌, Bytes, ◌≡◌, refl,
  sym, ap, ◌∙◌, arith,
}
use nuodb_drivers.Prelude.Outcome.{ℤ}
use nuodb_drivers.Client.{returns}
use nuodb_drivers.Dotnet.Calls.{ok, continue, native_of}
use nuodb_drivers.Dotnet.Library.{Library}
use nuodb_drivers.Dotnet.Parameters.{NuodbType, Parameter}
use nuodb_drivers.Dotnet.Objects.{State, Act}
use nuodb_drivers.Dotnet.Command.{
  prepare, execute, execute_ready, execute_current, execute_on, delete_current, unless,
  execute_plain, execute_prepared, bind_value, bind_values, parameters_of,
}

module _ (lib : Library) where
  -- A command that can be executed: it is attached, its connection is open, it has a text and no
  -- results of an earlier execution.
  pub record Ready (s : State lib) (c : lib.Connection) (first : ℕ) (rest : Bytes) : Type 0 where
    pub attached : s.command.connection ≡ true
    pub opened : s.conn.connection ≡ some c
    pub text : s.command.command_text ≡ first ∷ rest
    pub idle : s.command.current_results ≡ none

  abbrev pub SetsDate : lib.Prepared → ℕ → Option lib.Object → lib.World → lib.World → Type 0
  SetsDate pw i v w w' =
      (d : lib.DateTime) × (lib.to_date_time v ≡ ok d)
      × (lib.set_date pw i (lib.total_milliseconds d) w ≡ (returns tt, w'))

  -- The value of a parameter, converted for its type, is set in the statement.
  abbrev pub Sets :
      lib.Prepared → ℕ → NuodbType → Option lib.Object → lib.World → lib.World → Type 0
  Sets pw i NuodbType.boolean v w w' =
      (b : Bool) × (lib.to_boolean v ≡ ok b) × (lib.set_boolean pw i b w ≡ (returns tt, w'))
  Sets pw i NuodbType.integer v w w' =
      (n : ℤ) × (lib.to_int32 v ≡ ok n) × (lib.set_integer pw i n w ≡ (returns tt, w'))
  Sets pw i NuodbType.big_int v w w' =
      (n : ℤ) × (lib.to_int64 v ≡ ok n) × (lib.set_long pw i n w ≡ (returns tt, w'))
  Sets pw i NuodbType.double v w w' =
      (x : lib.Double) × (lib.to_double v ≡ ok x) × (lib.set_double pw i x w ≡ (returns tt, w'))
  Sets pw i NuodbType.date v w w' = SetsDate pw i v w w'
  Sets pw i NuodbType.time v w w' = SetsDate pw i v w w'
  Sets pw i NuodbType.date_time v w w' = SetsDate pw i v w w'
  Sets pw i NuodbType.string v w w' =
      (o : lib.Object) × (b : Bytes) × (v ≡ some o)
      × (lib.to_string o ≡ ok b)
      × (lib.set_string pw i b w ≡ (returns tt, w'))

  -- The parameters are set in their order, from index `i` on.
  abbrev pub Bound : lib.Prepared → ℕ → List (Parameter lib.Object) → lib.World → lib.World → Type 0
  Bound pw i [] w w' = w ≡ w'
  Bound pw i (p ∷ ps) w w' =
      (v : lib.World) × Sets pw i p.type p.value w v × Bound pw (suc i) ps v w'

  bind_value-Sets :
      (pw : lib.Prepared) (i : ℕ) (t : NuodbType) (v : Option lib.Object) (s : State lib)
      (w : lib.World)
      → Sets pw i t v s.world w
      → bind_value lib pw i t v s ≡ (ok tt, record s { world = w })
  unfolding bind_value
  bind_value-Sets pw i NuodbType.boolean v s w (b, e, g) = ground (arith, e, g)
  bind_value-Sets pw i NuodbType.integer v s w (b, e, g) = ground (arith, e, g)
  bind_value-Sets pw i NuodbType.big_int v s w (b, e, g) = ground (arith, e, g)
  bind_value-Sets pw i NuodbType.double v s w (b, e, g) = ground (arith, e, g)
  bind_value-Sets pw i NuodbType.date v s w (b, e, g) = ground (arith, e, g)
  bind_value-Sets pw i NuodbType.time v s w (b, e, g) = ground (arith, e, g)
  bind_value-Sets pw i NuodbType.date_time v s w (b, e, g) = ground (arith, e, g)
  bind_value-Sets pw i NuodbType.string v s w (o, b, f, e, g) = ground (arith, f, e, g)

  bind_values-Bound :
      (pw : lib.Prepared) (i : ℕ) (ps : List (Parameter lib.Object)) (s : State lib) (w : lib.World)
      → Bound pw i ps s.world w
      → bind_values lib pw i ps s ≡ (ok tt, record s { world = w })
  unfolding bind_values
  bind_values-Bound pw i [] s w e = ground (arith, e)
  bind_values-Bound pw i (p ∷ ps) s w (v, a, b) =
      ap (continue (λ _. bind_values lib pw (suc i) ps)) (bind_value-Sets pw i p.type p.value s v a)
      ∙ bind_values-Bound pw (suc i) ps (record s { world = v }) w b

  prepared-Bound :
      (c : lib.Connection) (text : Bytes) (ps : List (Parameter lib.Object)) (s : State lib)
      (pw : lib.Prepared) (r : lib.Results) (w1 w2 w3 : lib.World)
      → lib.create_prepared_statement c text s.world ≡ (returns pw, w1)
      → Bound pw 0 ps w1 w2
      → lib.execute_prepared pw w2 ≡ (returns r, w3)
      → execute_prepared lib c text ps s ≡ (
        ok tt,
        record s {
          command = record (s.command) { current_results = some r };
          world = lib.delete_prepared pw w3;
        },
      )
  unfolding execute_prepared
  prepared-Bound c text ps s pw r w1 w2 w3 e b g =
      ground (arith, e, bind_values-Bound pw 0 ps (record s { world = w1 }) w2 b, g)

  prepare-Ready :
      (s : State lib) (c : lib.Connection) (first : ℕ) (rest : Bytes)
      → Ready s c first rest
      → prepare lib s ≡ (ok tt, s)
  unfolding prepare
  prepare-Ready s c first rest h = ground (arith, h.attached, h.opened, h.text)

  abbrev forgotten : State lib → State lib
  forgotten s = record s { command = record (s.command) { current_results = none } }

  nothing_current :
      (s : State lib)
      → s.command.current_results ≡ none
      → delete_current lib s ≡ (ok tt, forgotten s)
  nothing_current s e = rw e refl

  -- There are parameters.
  skip :
      (l : List ℕ) (q : ℕ) (qs : List ℕ) (m : Act lib (Unit {0})) (s : State lib)
      → l ≡ q ∷ qs
      → unless lib (not (length l == 0)) m s ≡ (ok tt, s)
  skip l q qs m s a = ground (arith, a)

  execute_ready-prepared :
      (s : State lib) (c : lib.Connection) (first : ℕ) (rest : Bytes) (q : ℕ) (qs : List ℕ)
      → Ready s c first rest
      → s.command.parameters.items ≡ q ∷ qs
      → execute_ready lib s
        ≡ execute_prepared lib c
            (first ∷ rest)
            (parameters_of lib s.command.parameters)
            (record s { command = record (s.command) { current_results = none } })
  execute_ready-prepared s c first rest q qs h a =
      ap (continue (λ _. execute_current lib)) (nothing_current s h.idle)
      ∙ ap (λ o. continue (execute_on lib (forgotten s)) (native_of o (forgotten s))) h.opened
      ∙ ap
          (continue (λ _.
            execute_prepared lib c s.command.command_text (parameters_of lib s.command.parameters)))
          (skip s.command.parameters.items q qs (execute_plain lib c s.command.command_text)
            (forgotten s) a)
      ∙ ap (λ t. execute_prepared lib c t (parameters_of lib s.command.parameters) (forgotten s))
          h.text

  execute-prepared :
      (s : State lib) (c : lib.Connection) (first : ℕ) (rest : Bytes) (q : ℕ) (qs : List ℕ)
      → Ready s c first rest
      → s.command.parameters.items ≡ q ∷ qs
      → execute lib s
        ≡ execute_prepared lib c
            (first ∷ rest)
            (parameters_of lib s.command.parameters)
            (record s { command = record (s.command) { current_results = none } })
  unfolding execute
  execute-prepared s c first rest q qs h a =
      ap (continue (λ _. execute_ready lib)) (prepare-Ready s c first rest h)
      ∙ execute_ready-prepared s c first rest q qs h a

  -- A command with parameters that can be executed, whose parameters are all converted and set by
  -- the client library, is sent once where the library prepares and executes it: the parameters are
  -- set in their order, from index 0 on, each converted for its type, then the prepared statement
  -- is executed and deleted, and its results are kept.
  pub execute-Bound :
      (s : State lib) (c : lib.Connection) (first : ℕ) (rest : Bytes) (p : Parameter lib.Object)
      (ps : List (Parameter lib.Object)) (pw : lib.Prepared) (r : lib.Results)
      (w1 w2 w3 : lib.World)
      → Ready s c first rest
      → parameters_of lib s.command.parameters ≡ p ∷ ps
      → lib.create_prepared_statement c (first ∷ rest) s.world ≡ (returns pw, w1)
      → Bound pw 0 (p ∷ ps) w1 w2
      → lib.execute_prepared pw w2 ≡ (returns r, w3)
      → execute lib s ≡ (
        ok tt,
        record s {
          command = record (s.command) { current_results = some r };
          world = lib.delete_prepared pw w3;
        },
      )
  execute-Bound s c first rest p ps pw r w1 w2 w3 h a e b g = go s.command.parameters.items refl
    where
      go :
          (l : List ℕ)
          → s.command.parameters.items ≡ l
          → execute lib s ≡ (
            ok tt,
            record s {
              command = record (s.command) { current_results = some r };
              world = lib.delete_prepared pw w3;
            },
          )
      go [] z = absurd (nil-cons (ap (map s.command.parameters.heap) (sym z) ∙ a))
        where
          nil-cons : [] ≡ p ∷ ps → ⊥
          nil-cons x = cc
      go (q ∷ qs) z =
          execute-prepared s c first rest q qs h z
          ∙ ap
              (λ l.
                execute_prepared lib c (first ∷ rest) l
                  (record s { command = record (s.command) { current_results = none } }))
              a
          ∙ prepared-Bound c (first ∷ rest) (p ∷ ps)
              (record s { command = record (s.command) { current_results = none } }) pw r w1 w2 w3 e
              b g

  -- A command without parameters that can be executed is sent twice, where each call of the client
  -- library returns: as a statement, which is deleted while its results are kept, and then as a
  -- prepared statement, whose results take the place of the first. The first results are never
  -- deleted.
  pub execute_twice :
      (s : State lib) (c : lib.Connection) (first : ℕ) (rest : Bytes) (st : lib.Statement)
      (pw : lib.Prepared) (r1 r2 : lib.Results) (w1 w2 w3 w4 : lib.World)
      → Ready s c first rest
      → s.command.parameters.items ≡ []
      → lib.create_statement c s.world ≡ (returns st, w1)
      → lib.execute_query st (first ∷ rest) w1 ≡ (returns r1, w2)
      → lib.create_prepared_statement c (first ∷ rest) (lib.delete_statement st w2)
        ≡ (returns pw, w3)
      → lib.execute_prepared pw w3 ≡ (returns r2, w4)
      → execute lib s ≡ (
        ok tt,
        record s {
          command = record (s.command) { current_results = some r2 };
          world = lib.delete_prepared pw w4;
        },
      )
  unfolding execute prepare execute_plain execute_prepared bind_values
  execute_twice s c first rest st pw r1 r2 w1 w2 w3 w4 h a e f g k =
      ground (arith, h.attached, h.opened, h.text, h.idle, a, e, f, g, k)
