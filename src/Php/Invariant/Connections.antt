-- ===== src/Php/Invariant/Connections.antt =====
-- Opening connections keeps the tables consistent.
use nuodb_drivers.Prelude.{
  ℕ, ◌+◌, true, Option, none, some, [], ◌≡◌, ◌≢◌, refl, sym, subst, arith, Bytes, bytes_eq_iff,
  codes, ◌∷◌,
}
use native.Mathlib.Nat.{le_refl}
use nuodb_drivers.Prelude.Outcome.{
  Exception, Ends, Ends-continue, Ends-recover, Ends-weaken, Keeping, Keeping-bind, ◌>>◌, pure,
}
use nuodb_drivers.Client.{Attempt}
use nuodb_drivers.Php.Library.{Library}
use nuodb_drivers.Php.Registry.{Conn, Tables, Process, call, load_conn, update, at, at_key}
use nuodb_drivers.Php.Connections.{
  Target, key_of, text_of, set_error, create_connection, free_connection, open_database,
  put_property, give_up, opened, keep_default, connect_anew, connect,
}
use nuodb_drivers.Php.Invariant.{
  Kept, Good, Alive, Consistent, Preserves, Kept-Consistent, Keeps-call,
}
use nuodb_drivers.Php.Invariant.Closing.{set_error-Keeps, free_connection-Keeps}

module _ (lib : Library) (d : Option ℕ) where
  -- A new connection is not the default one, and has not been deleted.
  record Fresh (a : ℕ) (s : Process lib) : Type 0 where
    kept : Kept lib d none s.tables
    other : d ≢ some a
    alive : Alive (s.tables.conns a)

  Fresh-new :
      (t : Tables lib) (c : Conn lib)
      → Kept lib d none t
      → Kept lib d none (record t {
        conn_map = at_key lib t.conn_map c.hash (some t.next_conn);
        conns = at lib t.conns t.next_conn (some c);
        next_conn = t.next_conn + 1;
      })
  Fresh-new t c k =
      let unused = k.fresh_conns t.next_conn (le_refl t.next_conn) in
      record {
        default_is = k.default_is;
        default_alive = λ b f. ground (arith, k.default_alive b f);
        mapped = λ j b f. ground (arith, k.mapped j b, bytes_eq_iff c.hash j, unused);
        known = k.known;
        fresh_conns = λ b f. ground (arith, k.fresh_conns b);
        fresh_results = k.fresh_results;
      }

  Fresh-start :
      (hash : Bytes) (c : lib.Connection) (s : Process lib)
      → Kept lib d none s.tables
      → let new : Conn lib = record { hash = hash; error = []; c = c; autocommit = true; r = [] } in
        let t = s.tables in
        Fresh t.next_conn (record s {
          tables = record t {
            conn_map = at_key lib t.conn_map hash (some t.next_conn);
            conns = at lib t.conns t.next_conn (some new);
            next_conn = t.next_conn + 1;
          };
        })
  Fresh-start hash c s k =
      let unused = k.fresh_conns s.tables.next_conn (le_refl s.tables.next_conn) in
      let new : Conn lib = record { hash = hash; error = []; c = c; autocommit = true; r = [] } in
      record {
        kept = Fresh-new s.tables new k;
        other = λ e. ground (arith, k.default_alive s.tables.next_conn e, unused);
        alive = ground arith;
      }

  create_connection-Fresh :
      (hash : Bytes) (s : Process lib)
      → Good lib d none s
      → Ends Fresh (λ e s'. Good lib d none s') (create_connection lib hash s)
  unfolding create_connection
  create_connection-Fresh hash s k =
      Ends-continue (λ c s'. Good lib d none s') Fresh (λ e s'. Good lib d none s') _
        (call lib lib.create_connection s) (Keeps-call lib d none lib.create_connection s k)
        (λ c s' h. Fresh-start hash c s' h)

  -- A connection that is handed out has not been deleted.
  abbrev Settled : Option ℕ → Process lib → Type 0
  Settled none s = Kept lib d none s.tables
  Settled (some a) s = Kept lib d none s.tables × Alive (s.tables.conns a)

  Kept-default :
      (a : ℕ) (s : Process lib)
      → Kept lib d none s.tables
      → Alive (s.tables.conns a)
      → Consistent lib (record s { tables = record (s.tables) { default_connection = some a } })
  Kept-default a s k alive = record {
    default_is = refl;
    default_alive = λ b e. ground arith;
    mapped = k.mapped;
    known = k.known;
    fresh_conns = k.fresh_conns;
    fresh_results = k.fresh_results;
  }

  -- What the first block of `nuodb_connect` leaves.
  abbrev Made : Option ℕ → Process lib → Type 0
  Made none s = Kept lib d none s.tables
  Made (some a) s = Fresh a s

  give_up-Made :
      (e : Exception) (s : Process lib)
      → Good lib d none s
      → Ends Made (λ y s'. Good lib d none s') (give_up lib none e s)
  unfolding give_up
  give_up-Made e s k =
      Ends-continue (λ u s'. Good lib d none s') Made (λ y s'. Good lib d none s') (λ u. pure none)
        (set_error lib none (text_of e) s) (set_error-Keeps lib d none none (text_of e) s k)
        (λ u s' h. h)

  give_up-some :
      (a : ℕ) (e : Exception) (s : Process lib)
      → d ≢ some a
      → Good lib d none s
      → Ends Settled (λ y s'. Good lib d none s') (give_up lib (some a) e s)
  unfolding give_up
  give_up-some a e s ne k =
      Ends-continue (λ u s'. Good lib d none s') Settled (λ y s'. Good lib d none s')
        (λ u. free_connection lib a >> pure none) (set_error lib none (text_of e) s)
        (set_error-Keeps lib d none none (text_of e) s k)
        (λ u s' h.
          Ends-continue (λ u s''. Good lib d none s'') Settled (λ y s''. Good lib d none s'')
            (λ v. pure none) (free_connection lib a s') (free_connection-Keeps lib d a ne s' h)
            (λ v s'' l. l))

  call-Stays :
      {A : Type 0} (t : Tables lib) (f : lib.World → Attempt A × lib.World)
      → Keeping (λ s. s.tables ≡ t) (call lib f)
  call-Stays t f s e = ground arith

  put_property-Stays :
      (t : Tables lib) (q : lib.Properties) (name value : Bytes)
      → Keeping (λ s. s.tables ≡ t) (put_property lib q name value)
  unfolding put_property
  put_property-Stays t q name [] = λ s e. e
  put_property-Stays t q name (c ∷ cs) = call-Stays t (lib.put_value q name (c ∷ cs))

  load_conn-Stays : (t : Tables lib) (a : ℕ) → Keeping (λ s. s.tables ≡ t) (load_conn lib a)
  load_conn-Stays t a s e = ground arith

  -- Opening a database does not change the tables.
  pub open_database-Stays :
      (p : Target) (a : ℕ) (t : Tables lib) → Keeping (λ s. s.tables ≡ t) (open_database lib p a)
  unfolding open_database
  open_database-Stays p a t =
      let Same : Process lib → Type 0 = λ s. s.tables ≡ t in
      Keeping-bind Same _ _ (load_conn-Stays t a) (λ c.
        Keeping-bind Same _ _ (call-Stays t (lib.alloc_properties c.c)) (λ q.
          Keeping-bind Same _ _ (put_property-Stays t q (codes "user") p.user.bytes) (λ u.
            Keeping-bind Same _ _ (put_property-Stays t q (codes "password") p.passwd.bytes) (λ v.
              Keeping-bind Same _ _ (put_property-Stays t q (codes "schema") p.schema.bytes)
                (λ w. call-Stays t (lib.open_database c.c p.database.bytes q))))))

  opened-Settled :
      (p : Target) (a : ℕ) (s : Process lib)
      → Fresh a s
      → Ends Settled (λ e s'. Good lib d none s') (opened lib p a s)
  unfolding opened
  opened-Settled p a s f =
      Ends-recover Settled (λ e s'. s'.tables ≡ s.tables) (λ e s'. Good lib d none s')
        (give_up lib (some a)) _
        (Ends-continue (λ u s'. s'.tables ≡ s.tables) Settled (λ e s'. s'.tables ≡ s.tables)
          (λ u. pure (some a)) (open_database lib p a s) (open_database-Stays p a s.tables s refl)
          (λ u s' e. (
            subst (Kept lib d none) (sym e) f.kept,
            subst (λ t. Alive (t.conns a)) (sym e) f.alive,
          )))
        (λ y s' e. give_up-some a y s' f.other (subst (Kept lib d none) (sym e) f.kept))

  keep_default-Consistent :
      (r : Option ℕ) (s : Process lib)
      → Settled r s
      → Ends (λ u s'. Consistent lib s') (λ e s'. Consistent lib s') (keep_default lib r s)
  unfolding keep_default
  keep_default-Consistent none s k = Kept-Consistent lib d s k
  keep_default-Consistent (some a) s (k, alive) =
      elim s.tables.default_connection
        as (λ o.
          Ends (λ u s'. Consistent lib s') (λ e s'. Consistent lib s')
            (((elim o [
              | none ↦ update lib (λ t. record t { default_connection = some a })
              | some b ↦ pure tt
            ])
                >> pure (some a))
              s)) [ none ↦ Kept-default a s k alive | some b ↦ Kept-Consistent lib d s k ]

  connect_anew-Consistent :
      (p : Target) (s : Process lib)
      → Kept lib d none s.tables
      → Ends (λ u s'. Consistent lib s') (λ e s'. Consistent lib s') (connect_anew lib p s)
  unfolding connect_anew
  connect_anew-Consistent p s k =
      Ends-continue Made (λ u s'. Consistent lib s') (λ e s'. Consistent lib s') _ _
        (Ends-weaken Made Made (λ e s'. Good lib d none s') (λ e s'. Consistent lib s') _
          (Ends-recover Made (λ e s'. Good lib d none s') (λ e s'. Good lib d none s')
            (give_up lib none) _
            (Ends-continue Fresh Made (λ e s'. Good lib d none s') _
              (create_connection lib (key_of lib p) s) (create_connection-Fresh (key_of lib p) s k)
              (λ a s' f. f))
            (λ e s' g. give_up-Made e s' g))
          (λ r s' m. m) (λ e s' g. Kept-Consistent lib d s' g))
        (elim [
          | none ↦ λ s' g. keep_default-Consistent none s' g
          | some a ↦ λ s' f.
              Ends-continue Settled (λ u s''. Consistent lib s'') (λ e s''. Consistent lib s'')
                (keep_default lib) (opened lib p a s')
                (Ends-weaken Settled Settled (λ e s''. Good lib d none s'')
                  (λ e s''. Consistent lib s'') (opened lib p a s') (opened-Settled p a s' f)
                  (λ r s'' h. h) (λ e s'' g. Kept-Consistent lib d s'' g))
                keep_default-Consistent
        ])

module _ (lib : Library) where
  pub connect-Preserves : (p : Target) → Preserves lib (connect lib p)
  unfolding connect
  connect-Preserves p s c =
      ground (arith, connect_anew-Consistent lib s.tables.default_connection p s c)
