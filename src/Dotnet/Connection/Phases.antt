-- ===== src/Dotnet/Connection/Phases.antt =====
-- dotnet/nuodb/connection.cpp: a connection is closed, idle, or has a transaction underway.
use nuodb_drivers.Prelude.{
  Bool, true, false, not, Option, none, some, ◌≡◌, ◌≢◌, refl, sym, subst, ◌∙◌, inl, inr, ◌⊎◌,
}
use nuodb_drivers.Dotnet.Calls.{Result, ok, continue, Post, Post-continue, Post-weaken, String}
use nuodb_drivers.Dotnet.Library.{Library}
use nuodb_drivers.Dotnet.Objects.{read_committed, Connection, State}
use nuodb_drivers.Dotnet.Connection.{
  ended, rollback_transaction, delete_connection, delete_if, close, dispose,
}
use nuodb_drivers.Dotnet.Connection.Requests.{Request}
use nuodb_drivers.Dotnet.Connection.Rules.{some-none, call-Post, open-Post, call-End, finished-Post}

pub data Phase : Type 0 where
  closed idle underway : Phase

-- The steps of a connection: `Allowed r p b q` is that the call may take it from `p` to `q`, and
-- return (`true`) or not.
pub data Allowed : Request → Phase → Bool → Phase → Type 0 where
  refused : {r : Request} {p : Phase} → Allowed r p false p
  opened : Allowed Request.open_connection Phase.closed true Phase.idle
  closed : {p : Phase} → p ≢ Phase.closed → Allowed Request.close p true Phase.closed
  closed_half : Allowed Request.close Phase.underway false Phase.idle
  disposed : {p : Phase} → p ≢ Phase.closed → Allowed Request.dispose p true Phase.closed
  disposed_half : Allowed Request.dispose Phase.underway false Phase.idle
  disposed_before : {p : Phase} → Allowed Request.dispose p true p
  begun : Allowed Request.begin Phase.idle true Phase.underway
  begun_half : Allowed Request.begin Phase.idle false Phase.underway
  begun_isolated : Allowed (Request.begin_isolated read_committed) Phase.idle true Phase.underway
  begun_isolated_half :
      Allowed (Request.begin_isolated read_committed) Phase.idle false Phase.underway
  changed :
      {n : String} {p : Phase}
      → p ≢ Phase.closed
      → Allowed (Request.change_database n) p true Phase.idle
  changed_rolled :
      {n : String} → Allowed (Request.change_database n) Phase.underway false Phase.idle
  changed_closed :
      {n : String} {p : Phase}
      → p ≢ Phase.closed
      → Allowed (Request.change_database n) p false Phase.closed
  asked : {p : Phase} → Allowed Request.server_version p true p
  looked : {p : Phase} → Allowed Request.is_open p true p
  parsed : {t : String} {p : Phase} → Allowed (Request.set_connection_string t) p true p

module _ {lib : Library} where
  abbrev pub Represents : Phase → Connection lib → Type 0
  Represents Phase.closed c = (c.connection ≡ none) × (c.in_transaction ≡ false)
  Represents Phase.idle c = (c.connection ≢ none) × (c.in_transaction ≡ false)
  Represents Phase.underway c = (c.connection ≢ none) × (c.in_transaction ≡ true)

  abbrev pub Rolled : Phase → Unit {0} → State lib → Type 0
  Rolled p _ s = (p ≢ Phase.closed) × Represents Phase.idle s.conn

  abbrev pub Half : Phase → State lib → Type 0
  Half p s = Represents p s.conn ⊎ ((p ≡ Phase.underway) × Represents Phase.idle s.conn)

  abbrev pub began : State lib → lib.World → State lib
  began s w = record s { world = w; conn = record (s.conn) { in_transaction = false } }

  -- The transaction that is underway is rolled back, or else nothing is done. It may have been
  -- rolled back where the call fails.
  pub rollback-Post :
      (p : Phase) (s : State lib)
      → Represents p s.conn
      → Post (Rolled p) (Half p) (rollback_transaction lib s)
  unfolding rollback_transaction
  rollback-Post Phase.closed s (o, b) =
      open-Post (Rolled Phase.closed) (Half Phase.closed) _ _ s
        (λ c e. absurd (some-none c (sym e ∙ o))) (λ _. inl (o, b))
  rollback-Post Phase.idle s (o, b) =
      open-Post (Rolled Phase.idle) (Half Phase.idle) _ _ s
        (λ c e.
          finished-Post (Rolled Phase.idle) (Half Phase.idle) s.conn.in_transaction _ s
            (λ t. absurd (absurd_true (sym t ∙ b))) (λ _. ((λ x. cc), (o, b))))
        (λ _. inl (o, b))
    where
      absurd_true : true ≡ false → ⊥
      absurd_true e = cc
  rollback-Post Phase.underway s (o, b) =
      open-Post (Rolled Phase.underway) (Half Phase.underway) _ _ s
        (λ c e.
          finished-Post (Rolled Phase.underway) (Half Phase.underway) s.conn.in_transaction _ s
            (λ t.
              call-Post (Rolled Phase.underway) (Half Phase.underway) (lib.rollback c)
                (λ _. ended lib c) s
                (λ _ w.
                  call-End (Rolled Phase.underway) (Half Phase.underway)
                    (lib.set_auto_commit c true) (began s w) (λ _ w'. ((λ x. cc), (o, refl)))
                    (λ w'. inr (refl, (o, refl))))
                (λ w. inl (o, b)))
            (λ t. absurd (absurd_true (sym b ∙ t))))
        (λ _. inl (o, b))
    where
      absurd_true : true ≡ false → ⊥
      absurd_true e = cc

  pub delete-Post :
      (Q : Unit {0} → State lib → Type 0) (E : State lib → Type 0) (s : State lib)
      → ((w : lib.World)
          → Q tt (record s { world = w; conn = record (s.conn) { connection = none } }))
      → Post Q E (delete_connection lib s)
  delete-Post Q E s k = go s.conn.connection
    where
      go :
          (o : Option lib.Connection)
          → Post Q E (
              continue
                (λ _ s'. (ok tt, record s' { conn = record (s'.conn) { connection = none } }))
                (delete_if lib o s))
      go none = k s.world
      go (some c) = k (lib.delete_connection c s.world)

  abbrev pub Steps : {A : Type 0} → Request → Phase → Result A × State lib → Type 0
  Steps r p =
      Post (λ _ s'. (q : Phase) × Allowed r p true q × Represents q s'.conn)
        (λ s'. (q : Phase) × Allowed r p false q × Represents q s'.conn)

  pub close-Post :
      (p : Phase) (s : State lib)
      → Represents p s.conn
      → Post (λ _ s'. (p ≢ Phase.closed) × Represents Phase.closed s'.conn) (Half p) (close lib s)
  unfolding close
  close-Post p s h =
      Post-continue _ _ _ _ (λ _. delete_connection lib) (rollback_transaction lib s)
        (rollback-Post p s h) (λ _ s' (n, (o, b)). delete-Post _ _ s' (λ w. (n, (refl, b))))
        (λ s' e. e)

  -- What is left where the transaction was rolled back, or was not
  pub Half-Steps :
      (r : Request) (p : Phase) (s : State lib)
      → Allowed r Phase.underway false Phase.idle
      → Half p s
      → (q : Phase) × Allowed r p false q × Represents q s.conn
  Half-Steps r p s a (inl k) = (p, refused, k)
  Half-Steps r p s a (inr (u, k)) =
      (Phase.idle, subst (λ x. Allowed r x false Phase.idle) (sym u) a, k)

  pub close-Steps :
      (p : Phase) (s : State lib) → Represents p s.conn → Steps Request.close p (close lib s)
  close-Steps p s h =
      Post-weaken _ _ _ _ (close lib s) (close-Post p s h)
        (λ _ s' (n, k). (Phase.closed, closed n, k))
        (λ s' e. Half-Steps Request.close p s' closed_half e)

  pub dispose-Steps :
      (p : Phase) (s : State lib) → Represents p s.conn → Steps Request.dispose p (dispose lib s)
  unfolding dispose
  dispose-Steps p s h =
      finished-Post _ _ (not s.conn.disposed) _ s
        (λ _.
          Post-continue _ _ _ _ _ (rollback_transaction lib s) (rollback-Post p s h)
            (λ _ s' (n, (o, b)).
              Post-continue (λ _ s''. Represents Phase.closed s''.conn) (λ s''. ⊥) _ _ _
                (delete_connection lib s') (delete-Post _ _ s' (λ w. (refl, b)))
                (λ _ s'' k. (Phase.closed, disposed n, k)) (λ s'' k. absurd k))
            (λ s' e. Half-Steps Request.dispose p s' disposed_half e))
        (λ _. (p, disposed_before, h))

  abbrev pub After : {A : Type 0} → Request → Phase → A → State lib → Type 0
  After r p _ s = (q : Phase) × Allowed r p true q × Represents q s.conn

  abbrev pub Failed : Request → Phase → State lib → Type 0
  Failed r p s = (q : Phase) × Allowed r p false q × Represents q s.conn
