-- ===== src/Pdo/Driver/LastId.antt =====
-- `nuodb_handle_last_id`: the loop over the keys that the last statement generated.
use nuodb_drivers.Prelude.{
  ℕ, zero, suc, ◌<◌, true, false, none, some, List, [], ◌∷◌, ◌≡◌, refl, arith, length, get_elem?,
  set,
}
use nuodb_drivers.Prelude.Outcome.{ℤ, pos, ok}
use nuodb_drivers.Client.{Client, returns}
use nuodb_drivers.Machine.{Machine, Handle, DbHandle, Statement, to}
use nuodb_drivers.Cpp.Statement.{last_key, get_generated_key_last_id}
use nuodb_drivers.Pdo.Driver.{handle_last_id, printed}
use nuodb_drivers.Pdo.Statement.Lifetime.{get_elem?-set_self}

-- The last of the keys, or the one before them
abbrev pub last_of : ℤ → List ℤ → ℤ
last_of id [] = id
last_of id (k ∷ ks) = last_of k ks

module _ (client : Client) where
  -- The result set has these keys left in the column `i`; the worlds are those before and after
  -- they are read.
  pub data Keys (r : client.Results) (i : ℕ) : List ℤ → client.World → client.World → Type 0 where
    done : {w w' : client.World} → client.next r w ≡ (returns false, w') → Keys r i [] w w'
    key :
        {k : ℤ} {ks : List ℤ} {w u v w' : client.World}
        → client.next r w ≡ (returns true, u)
        → client.get_int r i u ≡ (returns k, v)
        → Keys r i ks v w'
        → Keys r i (k ∷ ks) w w'

  abbrev at_world : Machine client → client.World → Machine client
  at_world m w = record m { world = w }

  last_key-Keys :
      {r : client.Results} {i : ℕ} {ks : List ℤ} {w w' : client.World} (fuel : ℕ) (id : ℤ)
      (m : Machine client)
      → Keys r i ks w w'
      → m.world ≡ w
      → length ks < fuel
      → last_key client fuel r i id m ≡ (ok (some (last_of id ks)), at_world m w')
  unfolding last_key
  last_key-Keys zero id m y e lt = absurd (omega arith)
  last_key-Keys {r} {w' = w'} (suc fuel) id m (done h) e lt =
      let h' : client.next r m.world ≡ (returns false, w') = rw e h in ground (arith, h')
  last_key-Keys {r} {i} {w' = w'} (suc fuel) id m (key {k = k} {ks = ks} {u = u} {v = v} h g rest) e
        lt =
      let h' : client.next r m.world ≡ (returns true, u) = rw e h in
      ground (arith, h', g, last_key-Keys {ks = ks} fuel k (at_world m v) rest refl (omega arith))

  module _ (lu : ℤ → ℕ) (fuel p : ℕ) (m : Machine client) (h : DbHandle client) (d : Handle client)
      (cpp : Statement client) where
    once :
        (r : client.Results) (ks : List ℤ) (w w' : client.World)
        → m.driver_data ≡ to h
        → h.db ≡ some d
        → d.last_stmt ≡ some p
        → get_elem? m.heap p ≡ some (some cpp)
        → cpp.rs_gen_keys ≡ some r
        → Keys r 1 ks m.world w
        → client.close_results r w ≡ (returns tt, w')
        → length ks < fuel
        → handle_last_id client lu fuel none m ≡ (
          ok (some (printed lu (last_of (pos 0) ks))),
          record m { heap = set m.heap p (some (record cpp { rs_gen_keys = none })); world = w' },
        )
    unfolding handle_last_id get_generated_key_last_id
    once r ks w w' e f g l n y c lt = ground (arith, last_key-Keys fuel (pos 0) m y refl lt)

    no_keys :
        m.driver_data ≡ to h
        → h.db ≡ some d
        → d.last_stmt ≡ some p
        → get_elem? m.heap p ≡ some (some cpp)
        → cpp.rs_gen_keys ≡ none
        → handle_last_id client lu fuel none m ≡ (ok (some none), m)
    unfolding handle_last_id get_generated_key_last_id
    no_keys e f g l n = ground arith

  -- Asked for the last id without a name, of a last statement with open generated keys that can be
  -- read and closed: with one more round than there are keys the loop over them ends, the number that
  -- `%lu` prints for the last key is returned, or NULL if the key is 0 or if there is none, and the
  -- result set is closed. A second call returns NULL, whatever the key was, with no call of the client
  -- library.
  pub last_id-last_id :
      (lu : ℤ → ℕ) (fuel p : ℕ) (m : Machine client) (h : DbHandle client) (d : Handle client)
      (cpp : Statement client) (r : client.Results) (ks : List ℤ) (w w' : client.World)
      → m.driver_data ≡ to h
      → h.db ≡ some d
      → d.last_stmt ≡ some p
      → get_elem? m.heap p ≡ some (some cpp)
      → cpp.rs_gen_keys ≡ some r
      → Keys r 1 ks m.world w
      → client.close_results r w ≡ (returns tt, w')
      → length ks < fuel
      → let m' : Machine client = record m {
        heap = set m.heap p (some (record cpp { rs_gen_keys = none }));
        world = w';
      } in
        (handle_last_id client lu fuel none m ≡ (ok (some (printed lu (last_of (pos 0) ks))), m'))
        × (handle_last_id client lu fuel none m' ≡ (ok (some none), m'))
  last_id-last_id lu fuel p m h d cpp r ks w w' e f g l n y c lt =
      let closed : Statement client = record cpp { rs_gen_keys = none } in
      let m' : Machine client = record m { heap = set m.heap p (some closed); world = w' } in
      (
        once lu fuel p m h d cpp r ks w w' e f g l n y c lt,
        no_keys lu fuel p m' h d closed e f g (get_elem?-set_self m.heap p (some closed) l) refl,
      )
