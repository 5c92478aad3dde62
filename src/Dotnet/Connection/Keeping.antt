-- ===== src/Dotnet/Connection/Keeping.antt =====
-- dotnet/nuodb/connection.cpp: `ParseConnectionString` changes settings alone.
use nuodb_drivers.Prelude.{
  if◌then◌else◌, Bool, true, false, none, some, List, Bytes, [], ◌∷◌, codes, ◌≡◌, refl, sym, ◌∙◌,
}
use nuodb_drivers.Dotnet.Calls.{Result, Post, Post-continue, String}
use nuodb_drivers.Dotnet.Library.{Library}
use nuodb_drivers.Dotnet.Objects.{Connection, State, Act}
use nuodb_drivers.Dotnet.Connection.{set_connection_string}
use nuodb_drivers.Dotnet.Connection.Parse.{
  split, trim, assign, assign_trimmed, parse_item, parse_items, parse_string,
  parse_connection_string,
}
use nuodb_drivers.Dotnet.Connection.Phases.{Phase, Represents}

module _ {lib : Library} where
  Represents-set :
      (p : Phase) (f : Connection lib → Connection lib) (s : State lib)
      → ((f s.conn).connection ≡ s.conn.connection)
      → ((f s.conn).in_transaction ≡ s.conn.in_transaction)
      → Represents p s.conn
      → Represents p (f s.conn)
  Represents-set Phase.closed f s a b (x, y) = (a ∙ x, b ∙ y)
  Represents-set Phase.idle f s a b (x, y) = ((λ e. x (sym a ∙ e)), b ∙ y)
  Represents-set Phase.underway f s a b (x, y) = ((λ e. x (sym a ∙ e)), b ∙ y)

  abbrev pub Keeps : {A : Type 0} → Phase → Result A × State lib → Type 0
  Keeps p = Post (λ _ s'. Represents p s'.conn) (λ s'. Represents p s'.conn)

  if-Keeps :
      (p : Phase) (t : Bool) (m n : Act lib (Unit {0})) (s : State lib)
      → Keeps p (m s)
      → Keeps p (n s)
      → Keeps p ((if t then m else n) s)
  if-Keeps p true m n s h k = h
  if-Keeps p false m n s h k = k

  assign-Keeps :
      (p : Phase) (key value : Bytes) (s : State lib)
      → Represents p s.conn
      → Keeps p (assign lib key value s)
  unfolding assign
  assign-Keeps p key value s h =
      if-Keeps p (lib.equals key (codes "Database")) _ _ s
        (Represents-set p (λ c. record c { database = value }) s refl refl h)
        (if-Keeps p (lib.equals key (codes "Schema")) _ _ s
          (Represents-set p (λ c. record c { schema = value }) s refl refl h)
          (if-Keeps p (lib.equals key (codes "User")) _ _ s
            (Represents-set p (λ c. record c { username = value }) s refl refl h)
            (if-Keeps p (lib.equals key (codes "Password")) _ _ s
              (Represents-set p (λ c. record c { password = value }) s refl refl h) h)))

  assign_trimmed-Keeps :
      (p : Phase) (key value : Bytes) (s : State lib)
      → Represents p s.conn
      → Keeps p (assign_trimmed lib key value s)
  assign_trimmed-Keeps p [] value s h = h
  assign_trimmed-Keeps p (k ∷ key) [] s h = h
  assign_trimmed-Keeps p (k ∷ key) (v ∷ value) s h = assign-Keeps p (k ∷ key) (v ∷ value) s h

  parse_item-Keeps :
      (p : Phase) (parts : List Bytes) (s : State lib)
      → Represents p s.conn
      → Keeps p (parse_item lib parts s)
  unfolding parse_item
  parse_item-Keeps p [] s h = h
  parse_item-Keeps p (key ∷ []) s h = h
  parse_item-Keeps p (key ∷ value ∷ []) s h =
      assign_trimmed-Keeps p (trim lib.is_white_space key) (trim lib.is_white_space value) s h
  parse_item-Keeps p (key ∷ value ∷ more ∷ parts) s h = h

  parse_items-Keeps :
      (p : Phase) (items : List Bytes) (s : State lib)
      → Represents p s.conn
      → Keeps p (parse_items lib items s)
  unfolding parse_items
  parse_items-Keeps p [] s h = h
  parse_items-Keeps p (item ∷ items) s h =
      Post-continue _ _ _ _ (λ _. parse_items lib items) (parse_item lib (split 61 item) s)
        (parse_item-Keeps p (split 61 item) s h) (λ _ s' k. parse_items-Keeps p items s' k)
        (λ s' k. k)

  pub set_string-Keeps :
      (p : Phase) (t : String) (s : State lib)
      → Represents p s.conn
      → Keeps p (set_connection_string lib t s)
  unfolding set_connection_string parse_connection_string parse_string
  set_string-Keeps p none s h = h
  set_string-Keeps p (some []) s h = h
  set_string-Keeps p (some (c ∷ cs)) s h = parse_items-Keeps p (split 59 (c ∷ cs)) _ (
      Represents-set p
        (λ x. record x {
          connection_string = some (c ∷ cs);
          database = [];
          schema = [];
          username = [];
          password = [];
        })
        s refl refl h)
