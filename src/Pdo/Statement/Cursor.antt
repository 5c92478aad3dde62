-- ===== src/Pdo/Statement/Cursor.antt =====
-- Executing a statement and fetching its rows.
use nuodb_drivers.Prelude.{
  ℕ, zero, suc, ◌+◌, true, false, some, ◌≡◌, refl, arith, get_elem?, ◌<◌, ap, if◌then◌else◌,
}
use nuodb_drivers.Prelude.Outcome.{ok, ◌>>=◌, pure}
use nuodb_drivers.Zend.{HashTable}
use nuodb_drivers.Client.{Client, returns}
use nuodb_drivers.Machine.{to, Statement}
use nuodb_drivers.Session.{Stmt, Session, Act}
use nuodb_drivers.Pdo.Statement.{stmt_fetch}

module _ (client : Client) (zend : HashTable) where
  -- The result set has `n` more rows; `w` and `w'` are the worlds before and after they are read.
  pub data Yields (r : client.Results) : ℕ → client.World → client.World → Type 0 where
    done : {w w' : client.World} → client.next r w ≡ (returns false, w') → Yields r zero w w'
    row :
        {n : ℕ} {w v w' : client.World}
        → client.next r w ≡ (returns true, v)
        → Yields r n v w'
        → Yields r (suc n) w w'

  -- An executed statement whose cursor is open on a result set.
  pub record Reading (x : Session client zend) (s : Stmt client zend) (r : client.Results)
      : Type 0 where
    pub cpp : Statement client
    pub place : ℕ
    pub executed : x.pdo.executed ≡ true
    pub driver_data : x.pdo.driver_data ≡ to s
    pub stmt : s.stmt ≡ some place
    pub on_heap : get_elem? x.machine.heap place ≡ some (some cpp)
    pub results : cpp.rs ≡ some r

  -- The session after `n` more rows, in the world `w`.
  abbrev read : Session client zend → ℕ → client.World → Session client zend
  read x n w = record x {
    machine = record (x.machine) { world = w };
    pdo = record (x.pdo) { row_count = x.pdo.row_count + n };
  }

  fetch_row :
      (x : Session client zend) (s : Stmt client zend) {r : client.Results} {v : client.World}
      → Reading x s r
      → s.exhausted ≡ false
      → client.next r x.machine.world ≡ (returns true, v)
      → stmt_fetch client zend x ≡ (ok true, read x 1 v)
  unfolding stmt_fetch
  fetch_row x s o open_ e = ground arith

  -- The cursor at its end.
  abbrev at_end : Session client zend → Stmt client zend → client.World → Session client zend
  at_end x s w = record x {
    machine = record (x.machine) { world = w };
    pdo = record (x.pdo) { driver_data = to (record s { exhausted = true }) };
  }

  fetch_end :
      (x : Session client zend) (s : Stmt client zend) {r : client.Results} {v : client.World}
      → Reading x s r
      → s.exhausted ≡ false
      → client.next r x.machine.world ≡ (returns false, v)
      → stmt_fetch client zend x ≡ (ok false, at_end x s v)
  unfolding stmt_fetch
  fetch_end x s o open_ e = ground arith

  fetch_exhausted :
      (x : Session client zend) (s : Stmt client zend)
      → x.pdo.executed ≡ true
      → x.pdo.driver_data ≡ to s
      → s.exhausted ≡ true
      → stmt_fetch client zend x ≡ (ok false, x)
  unfolding stmt_fetch
  fetch_exhausted x s e d h = ground arith

  -- What an application does: `k` fetches, and the number of rows that it gets.
  pub fetch_times : ℕ → Act client zend ℕ
  fetch_times zero = pure 0
  fetch_times (suc k) = do
    more ← stmt_fetch client zend
    n ← fetch_times k
    pure (if more then n + 1 else n)

  -- The session at the end of a cursor that had `n` rows.
  abbrev pub finished :
      Session client zend → Stmt client zend → ℕ → client.World → Session client zend
  finished x s n w = record x {
    machine = record (x.machine) { world = w };
    pdo = record (x.pdo) {
      driver_data = to (record s { exhausted = true });
      row_count = x.pdo.row_count + n;
    };
  }

  fetch_times_exhausted :
      (k : ℕ) (x : Session client zend) (s : Stmt client zend)
      → x.pdo.executed ≡ true
      → x.pdo.driver_data ≡ to s
      → s.exhausted ≡ true
      → fetch_times k x ≡ (ok 0, x)
  unfolding fetch_times
  fetch_times_exhausted zero x s e d h = refl
  fetch_times_exhausted (suc k) x s e d h =
      rw (fetch_exhausted x s e d h) (rw (fetch_times_exhausted k x s e d h))

  finished_end :
      (x : Session client zend) (s : Stmt client zend) (w : client.World)
      → at_end x s w ≡ finished x s 0 w
  finished_end x s w = ground arith

  finished_row :
      (x : Session client zend) (s : Stmt client zend) (n : ℕ) (v w : client.World)
      → finished (read x 1 v) s n w ≡ finished x s (suc n) w
  finished_row x s n v w = ground arith

  -- A cursor that is open on a result set with `n` more rows delivers exactly these, however
  -- often it is asked beyond its end: the row count grows by `n`, and the client library is not
  -- called again after it has said that there are no more rows.
  pub fetch_times-Yields :
      (k : ℕ) (x : Session client zend) (s : Stmt client zend) {r : client.Results} {n : ℕ}
      {w w' : client.World}
      → Yields r n w w'
      → Reading x s r
      → s.exhausted ≡ false
      → x.machine.world ≡ w
      → n < k
      → fetch_times k x ≡ (ok n, finished x s n w')
  unfolding fetch_times
  fetch_times-Yields zero x s y o open_ same lt = absurd (omega arith)
  fetch_times-Yields (suc k) x s {r} {w' = w'} (done e) o open_ same lt =
      let e' : client.next r x.machine.world ≡ (returns false, w') = rw same e in
      rw (fetch_end x s o open_ e') (
        rw
          (fetch_times_exhausted k (at_end x s w') (record s { exhausted = true }) o.executed refl
            refl)
          (ap (λ y. (ok 0, y)) (finished_end x s w')))
  fetch_times-Yields (suc k) x s {r} {w' = w'} (row {n = n} {v = v} e rest) o open_ same lt =
      let e' : client.next r x.machine.world ≡ (returns true, v) = rw same e in
      let o' : Reading (read x 1 v) s r = record {
        cpp = o.cpp;
        place = o.place;
        executed = o.executed;
        driver_data = o.driver_data;
        stmt = o.stmt;
        on_heap = o.on_heap;
        results = o.results;
      } in
      rw (fetch_row x s o open_ e') (
        rw (fetch_times-Yields k (read x 1 v) s rest o' open_ refl (omega arith))
          (ground (arith, finished_row x s n v w')))
