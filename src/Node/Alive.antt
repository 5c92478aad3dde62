-- ===== src/Node/Alive.antt =====
-- nodejs/src/node_db_nuodb_connection.cc: a connection that is open has a handle.
use nuodb_drivers.Prelude.{Bool, true, false, Option, none, some, codes, ◌≡◌, ◌≢◌, refl, sym, ◌∙◌}
use nuodb_drivers.Prelude.Outcome.{sql, unknown}
use nuodb_drivers.Client.{Attempt, returns, throws}
use nuodb_drivers.Node.Connection.{
  Library, State, Act, Answer, ok, node_exception, escapes, unexpected, fault, continue, specified,
  settle, inside, outside, close, close_alive, connect, open_connection,
}

true-false : true ≢ false
true-false = λ e. cc

module _ (lib : Library) where
  abbrev pub HasHandle : State lib → Type 0
  HasHandle s = s.alive ≡ true → s.handle ≢ none

  -- How an attempt to open a connection ends
  abbrev pub Opened : {A : Type 0} → Answer A × State lib → Type 0
  Opened (ok a, s) = (s.alive ≡ true) × (s.handle ≢ none)
  Opened (node_exception text, s) = s.alive ≡ false
  Opened (escapes, s) = ⊥
  Opened (unexpected, s) = HasHandle s
  Opened (fault, s) = ⊥

  -- The same before the exception specification of `open`
  abbrev Tried : {A : Type 0} → Answer A × State lib → Type 0
  Tried (ok a, s) = (s.alive ≡ true) × (s.handle ≢ none)
  Tried (node_exception text, s) = s.alive ≡ false
  Tried (escapes, s) = HasHandle s
  Tried (unexpected, s) = ⊥
  Tried (fault, s) = ⊥

  specified-Opened : {A : Type 0} (r : Answer A × State lib) → Tried r → Opened (specified lib r)
  specified-Opened (ok a, s) h = h
  specified-Opened (node_exception text, s) h = h
  specified-Opened (escapes, s) h = h
  specified-Opened (unexpected, s) h = absurd h
  specified-Opened (fault, s) h = absurd h

  abbrev Closed : {A : Type 0} → Answer A × State lib → Type 0
  Closed (ok a, s) = s.alive ≡ false
  Closed (node_exception text, s) = ⊥
  Closed (escapes, s) = HasHandle s
  Closed (unexpected, s) = ⊥
  Closed (fault, s) = ⊥

  -- A call of the client library, in the block of `open`
  try-Tried :
      {A : Type 0} (g : lib.World → Attempt A × lib.World) (f : A → Act lib (Unit {0}))
      (s : State lib)
      → s.alive ≡ false
      → ((a : A) (w : lib.World) → Tried (f a (record s { world = w })))
      → Tried (continue lib f (settle lib (inside lib) (g s.world) s))
  try-Tried {A} g f s e k = go (g s.world)
    where
      go : (r : Attempt A × lib.World) → Tried (continue lib f (settle lib (inside lib) r s))
      go (returns a, w) = k a w
      go (throws (sql code text), w) = e
      go (throws unknown, w) = λ t. absurd (true-false (sym t ∙ e))

  some-none : (c : lib.Connection) → some c ≢ none
  some-none c = λ e. cc

  connect-Tried : (t s : State lib) → s.alive ≡ false → Tried (connect lib t s)
  connect-Tried t s e = try-Tried lib.create _ s e (λ c w.
      try-Tried (lib.alloc_properties c) _ (record s { world = w }) e
        (λ p w.
          try-Tried (lib.put_value p (codes "user") t.user) _ (record s { world = w }) e
            (λ _ w.
              try-Tried (lib.put_value p (codes "password") t.password) _ (record s { world = w }) e
                (λ _ w.
                  try-Tried (lib.put_value p (codes "schema") t.schema) _ (record s { world = w }) e
                    (λ _ w.
                      try-Tried (lib.open_database c t.database p) _ (record s { world = w }) e
                        (λ _ w. (refl, some-none c)))))))

  close-Closed : (s : State lib) → HasHandle s → Closed (close lib s)
  unfolding close
  close-Closed s h = go s.alive s.handle h refl refl
    where
      go :
          (a : Bool) (o : Option lib.Connection)
          → (a ≡ true → o ≢ none)
          → s.alive ≡ a
          → s.handle ≡ o
          → Closed
              (continue lib (λ _ t. (ok tt, record t { alive = false })) (close_alive lib a o s))
      go false o k x y = refl
      go true none k x y = absurd (k refl refl)
      go true (some c) k x y = after (lib.release c s.world)
        where
          after :
              (r : Attempt (Unit {0}) × lib.World)
              → Closed (
                  continue lib
                    (λ _ t. (ok tt, record t { alive = false }))
                    (continue lib
                      (λ _ t. (ok tt, record t { handle = none }))
                      (settle lib (outside lib) r s)))
          after (returns a, w) = refl
          after (throws e, w) = λ t z. k refl (sym y ∙ z)

  -- Opening a connection that has a handle if it is open never uses a NULL handle: where it returns,
  -- the connection is open and has a handle; where it throws a `node_db::Exception`, the connection is
  -- not open; no other exception gets through, and where one makes it call `std::unexpected`, the
  -- connection has a handle if it is open.
  pub open_connection-Opened : (s : State lib) → HasHandle s → Opened (open_connection lib s)
  unfolding open_connection
  open_connection-Opened s h = specified-Opened _ (go (close lib s) (close-Closed s h))
    where
      go :
          (r : Answer (Unit {0}) × State lib)
          → Closed r
          → Tried (continue lib (λ _ t. connect lib t t) r)
      go (ok a, t) e = connect-Tried t t e
      go (node_exception x, t) e = absurd e
      go (escapes, t) e = e
      go (unexpected, t) e = e
      go (fault, t) e = e
