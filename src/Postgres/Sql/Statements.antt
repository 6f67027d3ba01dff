-- ===== src/Postgres/Sql/Statements.antt =====
-- The statements of the stores as they are called: on one primary key, with the error made of the
-- command tag.
use mathlib.Core.Option
use mathlib.Core.Option.{none-ne-some, some-ne-none}
use shipinator.Common.{
  ℕ, ◌≡◌, ◌≢◌, ◌↔◌, refl, sym, ◌∙◌, ap, String, true, false, Option, none, some, List, arith,
  string_eq, nat_eq,
}
use shipinator.Errors.{Error, Result, ok, err, is_sentinel}
use shipinator.Models.{Uuid, Time}
use shipinator.Effects.{Platform}
use shipinator.Postgres.{
  Value, uuid, text, int, time, nullable, Assignment, insert, update, delete, Driver, scan_text,
  scan_int, scan_time, scan_nullable,
}
use shipinator.Postgres.Helpers.{exec_error, affected_or_error, wrap_no_rows_by_id}
use shipinator.Postgres.Sql.{
  Row, Sql, kept, micros, entries, stored, column, assigned, affected, found, by_id, is_row,
}

-- What `Scan` makes of an optional column that was stored.
pub scan-kept_time :
    (o : Option Time) → scan_nullable scan_time (kept (nullable time o)) ≡ ok (Option.map micros o)
scan-kept_time none = refl
scan-kept_time (some t) = refl

pub scan-kept_text : (o : Option String) → scan_nullable scan_text (kept (nullable text o)) ≡ ok o
scan-kept_text none = refl
scan-kept_text (some t) = refl

pub scan-kept_int : (o : Option ℕ) → scan_nullable scan_int (kept (nullable int o)) ≡ ok o
scan-kept_int none = refl
scan-kept_int (some t) = refl

is_row_self : (t : String) (id : Uuid) → is_row t id t id ≡ true
is_row_self t id = ground arith

-- An error that is not `pgx.ErrNoRows` is passed on.
pub wrap_no_rows_by_id-other :
    (p : Platform) (entity : String) (id : Uuid) (e : Error)
    → is_sentinel "no rows in result set" e ≡ false
    → wrap_no_rows_by_id p entity id e ≡ e
unfolding wrap_no_rows_by_id
wrap_no_rows_by_id-other p entity id e h = rw h refl

-- The error made of a command tag.
module _ (p : Platform) (entity : String) (id : Uuid) where
  affected-err : (y : Error) → affected_or_error p entity id (err y) ≢ none
  unfolding affected_or_error
  affected-err y h = some-ne-none y h

  affected-zero : (n : ℕ) → n ≡ 0 → affected_or_error p entity id (ok n) ≢ none
  unfolding affected_or_error
  affected-zero n z h = ground arith

  zero-missing :
      (n : ℕ)
      → n ≡ 0
      → (e : Error) × (affected_or_error p entity id (ok n) ≡ some e)
        × (is_sentinel "not found" e ≡ true)
  unfolding affected_or_error is_sentinel nat_eq string_eq
  zero-missing n z = rw z (_, refl, refl)

  affected-one : (n : ℕ) {e : Error} → n ≡ 1 → affected_or_error p entity id (ok n) ≢ some e
  unfolding affected_or_error nat_eq
  affected-one n z h = some-ne-none _ (sym h ∙ rw z)

  foreign :
      (y : Error) {e : Error}
      → is_sentinel "not found" y ≡ false
      → affected_or_error p entity id (err y) ≡ some e
      → is_sentinel "not found" e ≢ true
  unfolding affected_or_error
  foreign y f h s = cc

module _ {d : Driver} (sql : Sql d) where
  open sql use {row, exec-insert, exec-update, exec-delete, query_row-by_id, exec-refused}

  pub query_row-row :
      (cs : List String) (t : String) (id : Uuid) (db : d.Db) (r : Option Row)
      → sql.fault db ≡ none
      → row db t id ≡ r
      → d.query_row (by_id cs t id) db ≡ found cs r
  query_row-row cs t id db r f e = query_row-by_id cs t id db f ∙ ap (found cs) e

  -- An INSERT with no error leaves its row under the key.
  pub row-insert :
      (t : String) (cs : List String) (vs : List Value) (id : Uuid) (db : d.Db)
      → column "id" (entries cs vs) ≡ uuid id
      → exec_error (d.exec (insert t cs vs) db).1 ≡ none
      → row (d.exec (insert t cs vs) db).0 t id ≡ some (stored cs vs)
  row-insert t cs vs id db k h = go (d.exec (insert t cs vs) db) refl h
    where
      go :
          (x : d.Db × Result ℕ)
          → d.exec (insert t cs vs) db ≡ x
          → exec_error x.1 ≡ none
          → row x.0 t id ≡ some (stored cs vs)
      go (db', ok n) e h = exec-insert t cs vs id db db' n k e t id ∙ rw (is_row_self t id)
      go (db', err x) e h = absurd (none-ne-some x (sym h))

  module _ (p : Platform) (entity t : String) (id : Uuid) (db : d.Db) where
    -- An UPDATE with no error found the row and leaves it with its assignments; every other row
    -- is as it was.
    pub row-update :
        (sets : List (String × Assignment))
        → let x = d.exec (update t sets ("id", uuid id)) db in
          affected_or_error p entity id x.1 ≡ none
          → (r : Row) × (row db t id ≡ some r)
            × (row x.0 t id ≡ some (assigned sets r))
            × ((t' : String) (i : Uuid) → is_row t id t' i ≡ false → row x.0 t' i ≡ row db t' i)
    row-update sets h = go (d.exec (update t sets ("id", uuid id)) db) refl (row db t id) refl h
      where
        go :
            (x : d.Db × Result ℕ)
            → d.exec (update t sets ("id", uuid id)) db ≡ x
            → (o : Option Row) → row db t id ≡ o
            → affected_or_error p entity id x.1 ≡ none
            → (r : Row) × (o ≡ some r)
              × (row x.0 t id ≡ some (assigned sets r))
              × ((t' : String) (i : Uuid) → is_row t id t' i ≡ false → row x.0 t' i ≡ row db t' i)
        go (db', err y) e o q h = absurd (affected-err p entity id y h)
        go (db', ok n) e none q h =
            absurd
              (affected-zero p entity id n ((exec-update t sets id db db' n e).0 ∙ ap affected q) h)
        go (db', ok n) e (some r) q h =
            let u = exec-update t sets id db db' n e in
            (
              r,
              refl,
              u.1 t id ∙ (rw (is_row_self t id) refl ∙ ap (Option.map (assigned sets)) q),
              λ t' i other. u.1 t' i ∙ rw other,
            )

    -- The same, from the row that was there.
    pub row-update_of :
        (sets : List (String × Assignment)) (r : Row)
        → row db t id ≡ some r
        → affected_or_error p entity id (d.exec (update t sets ("id", uuid id)) db).1 ≡ none
        → row (d.exec (update t sets ("id", uuid id)) db).0 t id ≡ some (assigned sets r)
    row-update_of sets r q h =
        let (r', q', u, _) = row-update sets h in u ∙ ap (Option.map (assigned sets)) (sym q' ∙ q)

    -- An UPDATE with an error, of a row that is there, leaves it.
    pub update-refused :
        (sets : List (String × Assignment)) (r : Row) {e : Error}
        → row db t id ≡ some r
        → affected_or_error p entity id (d.exec (update t sets ("id", uuid id)) db).1 ≡ some e
        → row (d.exec (update t sets ("id", uuid id)) db).0 t id ≡ some r
    update-refused sets r q h = go (d.exec (update t sets ("id", uuid id)) db) refl h
      where
        go :
            (x : d.Db × Result ℕ)
            → d.exec (update t sets ("id", uuid id)) db ≡ x
            → {e : Error} → affected_or_error p entity id x.1 ≡ some e
            → row x.0 t id ≡ some r
        go (db', err y) e h = (exec-refused _ db db' y e).0 t id ∙ q
        go (db', ok n) e h =
            absurd
              (affected-one p entity id n ((exec-update t sets id db db' n e).0 ∙ ap affected q) h)

    -- An UPDATE whose error is `ErrNotFound` had no row, and one that had no row has an error.
    pub update-missing :
        (sets : List (String × Assignment))
        → let x = d.exec (update t sets ("id", uuid id)) db in
          ((e : Error)
            → affected_or_error p entity id x.1 ≡ some e
            → is_sentinel "not found" e ≡ true
            → row db t id ≡ none)
          × (row db t id ≡ none → affected_or_error p entity id x.1 ≢ none)
    update-missing sets = (
      λ e. missing (d.exec (update t sets ("id", uuid id)) db) refl (row db t id) refl,
      λ absent h. some-ne-none _ (sym (row-update sets h).1 ∙ absent),
    )
      where
        missing :
            (x : d.Db × Result ℕ)
            → d.exec (update t sets ("id", uuid id)) db ≡ x
            → (o : Option Row) → row db t id ≡ o
            → {e : Error} → affected_or_error p entity id x.1 ≡ some e
            → is_sentinel "not found" e ≡ true
            → o ≡ none
        missing x e none q h s = refl
        missing (db', err y) e (some r) q h s =
            absurd (foreign p entity id y (exec-refused _ db db' y e).1 h s)
        missing (db', ok n) e (some r) q h s =
            absurd
              (affected-one p entity id n ((exec-update t sets id db db' n e).0 ∙ ap affected q) h)

    -- An UPDATE that was executed is answered with `ErrNotFound` exactly where there was no row.
    pub update-missing_iff :
        (sets : List (String × Assignment)) {n : ℕ}
        → (d.exec (update t sets ("id", uuid id)) db).1 ≡ ok n
        → row db t id ≡ none ↔ (
            (e : Error) × (affected_or_error p entity id
                (d.exec (update t sets ("id", uuid id)) db).1
              ≡ some e)
            × (is_sentinel "not found" e ≡ true))
    update-missing_iff sets {n} h = (
      λ q.
          let none_affected : n ≡ 0 =
            (exec-update t sets id db (d.exec (update t sets ("id", uuid id)) db).0 n
              (ap (λ r. ((d.exec (update t sets ("id", uuid id)) db).0, r)) h)).0
            ∙ ap affected q in
          let (e, w, k) = zero-missing p entity id n none_affected in
          (e, ap (affected_or_error p entity id) h ∙ w, k),
      λ (e, q, s). (update-missing sets).0 e q s,
    )

    -- A DELETE with no error found its row and leaves none.
    pub row-delete :
        affected_or_error p entity id (d.exec (delete t ("id", uuid id)) db).1 ≡ none
        → (row db t id ≢ none) × (row (d.exec (delete t ("id", uuid id)) db).0 t id ≡ none)
    row-delete h = go (d.exec (delete t ("id", uuid id)) db) refl h
      where
        go :
            (x : d.Db × Result ℕ)
            → d.exec (delete t ("id", uuid id)) db ≡ x
            → affected_or_error p entity id x.1 ≡ none
            → (row db t id ≢ none) × (row x.0 t id ≡ none)
        go (db', err y) e h = absurd (affected-err p entity id y h)
        go (db', ok n) e h =
            let u = exec-delete t id db db' n e in
            (
              λ q. affected-zero p entity id n (u.0 ∙ ap affected q) h,
              u.1 t id ∙ rw (is_row_self t id),
            )

    -- A DELETE whose error is `ErrNotFound` had no row.
    pub delete-missing :
        (e : Error)
        → affected_or_error p entity id (d.exec (delete t ("id", uuid id)) db).1 ≡ some e
        → is_sentinel "not found" e ≡ true
        → row db t id ≡ none
    delete-missing e = go (d.exec (delete t ("id", uuid id)) db) refl (row db t id) refl
      where
        go :
            (x : d.Db × Result ℕ)
            → d.exec (delete t ("id", uuid id)) db ≡ x
            → (o : Option Row) → row db t id ≡ o
            → affected_or_error p entity id x.1 ≡ some e
            → is_sentinel "not found" e ≡ true
            → o ≡ none
        go x q none r h s = refl
        go (db', err y) q (some r) o h s =
            absurd (foreign p entity id y (exec-refused _ db db' y q).1 h s)
        go (db', ok n) q (some r) o h s =
            absurd (affected-one p entity id n ((exec-delete t id db db' n q).0 ∙ ap affected o) h)
