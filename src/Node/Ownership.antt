-- ===== src/Node/Ownership.antt =====
-- The buffers of a result of nodejs/src/node_db_nuodb_result.cc, to its destruction.
use nuodb_drivers.Prelude.{
  ℕ, zero, suc, ◌+◌, ◌<◌, true, false, none, some, List, [], ◌∷◌, ◌≡◌, refl, arith, Bytes, length,
  if◌then◌else◌, sym, ap, subst,
}
use nuodb_drivers.Prelude.Outcome.{Succeeds, Succeeds-continue, ok, ◌>>=◌, pure, deref, continue}
use nuodb_drivers.Client.{returns}
use nuodb_drivers.Node.Library.{Library}
use nuodb_drivers.Node.Result.{State, Run, has_next, next}
use nuodb_drivers.Node.Reading.{
  Yields, done, more, Ahead, Ended, next_row, next_end, Ahead-row, Ended-step, released_held,
  below_held, stepped_row, stepped_end,
}

module _ (lib : Library) where
  -- What node-db does with a result: while there is a next row, it is taken and copied.
  pub read_all : ℕ → Run lib (List (List Bytes))
  read_all zero = pure []
  read_all (suc fuel) = do
    there_is ← has_next lib
    r ← if there_is then next lib else pure none
    elim r [
      | none ↦ pure []
      | some p ↦ do v ← λ s. deref (s.heap p) s; vs ← read_all fuel; pure (v ∷ vs)
    ]

  -- All of the rows were read, and the client library has been left in the world `w`.
  abbrev pub Read : List (List Bytes) → lib.World → List (List Bytes) → State lib → Type 0
  Read rows w vs s = (vs ≡ rows) × Ended lib s × (s.world ≡ w)

  pub read_all_last :
      (fuel : ℕ) (s : State lib) → s.result.next_row ≡ none → read_all (suc fuel) s ≡ (ok [], s)
  unfolding read_all has_next
  read_all_last fuel s e = ground (arith, e)

  read_all_step :
      (fuel r : ℕ) (s t : State lib) (v : List Bytes)
      → s.result.next_row ≡ some r
      → next lib s ≡ (ok (some r), t)
      → t.heap r ≡ some v
      → read_all (suc fuel) s ≡ continue (λ vs. pure (v ∷ vs)) (read_all fuel t)
  unfolding read_all has_next
  read_all_step fuel r s t v e f g = ground (arith, e, f, g)

  pub read_all-Ended :
      (fuel : ℕ) (s : State lib) → Ended lib s → Succeeds (Read [] s.world) (read_all (suc fuel) s)
  read_all-Ended fuel s e = rw (read_all_last fuel s e.next_none) (refl, e, refl)

  -- The row that was ahead, and then those that `t` has left
  read_all-more :
      (fuel r : ℕ) (s t : State lib) (v : List Bytes) (rows : List (List Bytes)) (w : lib.World)
      → s.result.next_row ≡ some r
      → next lib s ≡ (ok (some r), t)
      → t.heap r ≡ some v
      → Succeeds (Read rows w) (read_all fuel t)
      → Succeeds (Read (v ∷ rows) w) (read_all (suc fuel) s)
  read_all-more fuel r s t v rows w e f g h = rw (read_all_step fuel r s t v e f g) (
      Succeeds-continue (Read rows w) (Read (v ∷ rows) w) (λ vs. pure (v ∷ vs)) (read_all fuel t) h
        (λ vs s' k. (ap (λ l. v ∷ l) k.0, k.1, k.2)))

  pub read_all-Yields :
      {rs : lib.ResultSet} {n r : ℕ} {v : List Bytes} {rows : List (List Bytes)} {w w' : lib.World}
      (fuel : ℕ) (s : State lib)
      → Ahead lib rs n r v s
      → Yields lib rs n rows w w'
      → s.world ≡ w
      → length rows + 1 < fuel
      → Succeeds (Read (v ∷ rows) w') (read_all fuel s)
  read_all-Yields zero s a y e lt = absurd (omega arith)
  read_all-Yields (suc zero) s a y e lt = absurd (omega arith)
  read_all-Yields {rs} {n} {r} {v} {w' = w'} (suc (suc fuel)) s a (done h) e lt =
      let h' : lib.next rs s.world ≡ (returns false, w') = rw e h in
      let t = stepped_end lib s r w' in
      read_all-more (suc fuel) r s t v [] w' a.next_is (next_end lib s a h') (released_held lib s a)
        (read_all-Ended fuel t (Ended-step lib s a))
  read_all-Yields {rs} {n} {r} {v} {w' = w'} (suc (suc fuel)) s a
        (more {vs = vs} {rows = rows} {u = u} {v = u'} h c m rest) e lt =
      let h' : lib.next rs s.world ≡ (returns true, u) = rw e h in
      let a' : Ahead lib rs (length vs) r v s = subst (λ k. Ahead lib rs k r v s) (sym m) a in
      let t = stepped_row lib s r vs u' in
      let below = below_held lib s a in
      let rest' : Yields lib rs (length vs) rows u' w' =
        subst (λ k. Yields lib rs k rows u' w') (sym m) rest in
      read_all-more (suc fuel) r s t v (vs ∷ rows) w' a.next_is (next_row lib s a' h' c)
        (ground (arith, released_held lib s a))
        (read_all-Yields {n = length vs} {rows = rows} (suc fuel) t (Ahead-row lib s a') rest' refl
          (omega arith))
