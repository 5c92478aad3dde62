-- ===== src/Dotnet/Connection/Parse.antt =====
-- dotnet/nuodb/connection.cpp: `ParseConnectionString`.
use nuodb_drivers.Prelude.{
  ℕ, Bool, true, false, none, some, List, [], ◌∷◌, Bytes, codes, ◌==◌, if◌then◌else◌,
}
use nuodb_drivers.Dotnet.Calls.{
  ◌>>=◌, ◌>>◌, pure, throw, throw_if, gets, argument_null, argument, String,
}
use nuodb_drivers.Dotnet.Library.{Library}
use nuodb_drivers.Dotnet.Objects.{Act, set_conn}

abbrev pub attach : ℕ → List Bytes → List Bytes
attach c [] = (c ∷ []) ∷ []
attach c (w ∷ ws) = (c ∷ w) ∷ ws

-- `String::Split` at a character
abbrev pub split : ℕ → Bytes → List Bytes
split d [] = [] ∷ []
split d (c ∷ cs) = if c == d then [] ∷ split d cs else attach c (split d cs)

abbrev pub trim_left : (ℕ → Bool) → Bytes → Bytes
trim_left white [] = []
trim_left white (c ∷ cs) = if white c then trim_left white cs else c ∷ cs

abbrev pub trim_right : (ℕ → Bool) → Bytes → Bytes
trim_right white [] = []
trim_right white (c ∷ cs) = elim (trim_right white cs) [
  | [] ↦ if white c then [] else c ∷ []
  | d ∷ ds ↦ c ∷ d ∷ ds
]

-- `String::Trim`
abbrev pub trim : (ℕ → Bool) → Bytes → Bytes
trim white s = trim_right white (trim_left white s)

module _ (lib : Library) where
  unfoldable pub assign : Bytes → Bytes → Act lib (Unit {0})
  assign key value =
      if lib.equals key (codes "Database")
      then set_conn (λ c. record c { database = value })
      else if lib.equals key (codes "Schema")
      then set_conn (λ c. record c { schema = value })
      else if lib.equals key (codes "User")
      then set_conn (λ c. record c { username = value })
      else if lib.equals key (codes "Password")
      then set_conn (λ c. record c { password = value })
      else throw argument

  abbrev pub is_empty : Bytes → Bool
  is_empty [] = true
  is_empty (c ∷ cs) = false

  abbrev pub assign_trimmed : Bytes → Bytes → Act lib (Unit {0})
  assign_trimmed key value = do
    throw_if (if is_empty key then true else is_empty value) argument
    assign key value

  -- A round of the loop, on the parts of an item
  unfoldable pub parse_item : List Bytes → Act lib (Unit {0})
  parse_item [] = throw argument
  parse_item (key ∷ []) = throw argument
  parse_item (key ∷ value ∷ []) =
      assign_trimmed (trim lib.is_white_space key) (trim lib.is_white_space value)
  parse_item (key ∷ value ∷ more ∷ parts) = throw argument

  unfoldable pub parse_items : List Bytes → Act lib (Unit {0})
  parse_items [] = pure tt
  parse_items (item ∷ items) = parse_item (split 61 item) >> parse_items items

  abbrev pub forget : Act lib (Unit {0})
  forget = set_conn (λ c. record c { database = []; schema = []; username = []; password = [] })

  unfoldable pub parse_string : String → Act lib (Unit {0})
  parse_string none = throw argument_null
  parse_string (some []) = throw argument_null
  parse_string (some (c ∷ cs)) = forget >> parse_items (split 59 (c ∷ cs))

  unfoldable pub parse_connection_string : Act lib (Unit {0})
  parse_connection_string = do text ← gets (λ s. s.conn.connection_string); parse_string text
