-- ===== src/Ruby/Booleans.antt =====
-- The truth of a value of Ruby, as two methods read it (ruby/nuodb/ext/nuodb/nuodb.cpp).
use nuodb_drivers.Prelude.{true, ◌≡◌, ◌≢◌, refl}
use nuodb_drivers.Ruby.Library.{Library, Value, truth, nil}
use nuodb_drivers.Ruby.Calls.{ruby_truth}
use nuodb_drivers.Ruby.Connection
use nuodb_drivers.Ruby.PreparedStatement

module _ (lib : Library) where
  open lib use {handles}

  -- The two methods do not agree on `nil`: `setAutoCommit` takes every value by its truth in Ruby,
  -- so that `nil` is `false`; `setBoolean` does so for every value but `nil`, which it binds as it
  -- binds `true`.
  set_boolean-nil :
      (c : handles.Connection) (st : handles.PreparedStatement) (index v : Value handles)
      → (Connection.set_auto_commit lib c v
          ≡ Connection.set_auto_commit lib c (truth (ruby_truth handles v)))
        × (v ≢ nil
            → PreparedStatement.set_boolean lib st index v
              ≡ PreparedStatement.set_boolean lib st index (truth (ruby_truth handles v)))
        × (PreparedStatement.set_boolean lib st index nil
            ≡ PreparedStatement.set_boolean lib st index (truth true))
  unfolding Connection.set_auto_commit PreparedStatement.set_boolean
  set_boolean-nil c st index nil = (refl, λ h. absurd (h refl), refl)
  set_boolean-nil c st index (truth b) = (refl, λ h. refl, refl)
  set_boolean-nil c st index _ = (refl, λ h. refl, refl)
