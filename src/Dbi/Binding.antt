-- ===== src/Dbi/Binding.antt =====
-- What `dbd_bind_ph` (perl_dbi/dbdimp.cpp) hands over to the client library.
use nuodb_drivers.Prelude.{
  ℕ, true, false, some, [], ◌∷◌, ◌≡◌, ◌≢◌, refl, arith, Bytes, count, terminated,
}
use nuodb_drivers.Prelude.Outcome.{Outcome, sql, ℤ, ok}
use nuodb_drivers.Client.{Attempt, returns, throws}
use nuodb_drivers.Dbi.Library.{Library}
use nuodb_drivers.Dbi.Handles.{State, failing, do_error}
use nuodb_drivers.Dbi.Statement.{Bound, answers, has_nul, send, bind_prepared, bind_ph}

has_nul-count : (v : Bytes) → count 0 v ≢ 0 → has_nul v ≡ true
has_nul-count [] h = absurd (h refl)
has_nul-count (c ∷ cs) h = ground (arith, has_nul-count cs)

has_nul_none : (v : Bytes) → count 0 v ≡ 0 → has_nul v ≡ false
has_nul_none [] h = refl
has_nul_none (c ∷ cs) h = ground (arith, has_nul_none cs)

terminated_whole : (v : Bytes) → count 0 v ≡ 0 → terminated v ≡ v
terminated_whole [] h = refl
terminated_whole (c ∷ cs) h = ground (arith, terminated_whole cs)

module _ (lib : Library) where
  -- The call `f` of the client library decides what the driver returns and leaves.
  abbrev pub Hands :
      (lib.World → Attempt (Unit {0}) × lib.World) → State lib → Outcome Bound × State lib → Type 0
  Hands f s r =
      ((w : lib.World)
        → f s.world ≡ (returns tt, w)
        → r ≡ (ok (answers true), record s { world = w }))
      × ((w : lib.World) (code : ℤ) (text : Bytes)
          → f s.world ≡ (throws (sql code text), w)
          → r ≡ (
            ok (answers false),
            record s { dbh = record (s.dbh) { error = some (code, text) }; world = w },
          ))

  -- A value is bound with all of its bytes: as bytes if there is a NUL among them, and otherwise as
  -- a C string, which ends where the value ends. An SQL error is recorded and FALSE is returned.
  pub bind_ph-Hands :
      (st : lib.Statement) (param : ℕ) (v : Bytes) (s : State lib)
      → s.sth.pstmt ≡ some st
      → (count 0 v ≢ 0 → Hands (lib.set_bytes st param v) s (bind_ph lib false param v s))
        × (count 0 v ≡ 0 → Hands (lib.set_string st param v) s (bind_ph lib false param v s))
  unfolding bind_ph bind_prepared send failing do_error
  bind_ph-Hands st param v s e = (
    λ h. (
      λ w f. ground (arith, has_nul-count v h),
      λ w code text f. ground (arith, has_nul-count v h),
    ),
    λ h. (
      λ w f. ground (arith, has_nul_none v h, terminated_whole v h),
      λ w code text f. ground (arith, has_nul_none v h, terminated_whole v h),
    ),
  )
