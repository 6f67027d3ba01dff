-- ===== src/Postgres/Sql/Frames.antt =====
-- What the statements on one row leave alone, whether or not they succeed.
use mathlib.Core.Option.{none-ne-some}
use shipinator.Common.{
  ◌≢◌, arith, some, ℕ, ◌≡◌, refl, ◌∙◌, String, false, List, ◌==◌, string_eq, nat_eq,
}
use shipinator.Errors.{Error, Result, ok, err}
use shipinator.Models.{Uuid}
use shipinator.Postgres.{Value, uuid, Assignment, insert, update, Driver}
use shipinator.Postgres.Helpers.{exec_error}
use shipinator.Postgres.Sql.{Sql, entries, column, is_row}

module _ {d : Driver} (sql : Sql d) where
  open sql use {row, exec-insert, exec-update, exec-refused}

  -- An UPDATE of one row leaves the others.
  pub update-other :
      (t : String) (sets : List (String × Assignment)) (id : Uuid) (db : d.Db) (t' : String)
      (i : Uuid)
      → is_row t id t' i ≡ false
      → row (d.exec (update t sets ("id", uuid id)) db).0 t' i ≡ row db t' i
  update-other t sets id db t' i h = go (d.exec (update t sets ("id", uuid id)) db) refl
    where
      go :
          (x : d.Db × Result ℕ)
          → d.exec (update t sets ("id", uuid id)) db ≡ x
          → row x.0 t' i ≡ row db t' i
      go (db', ok n) e = (exec-update t sets id db db' n e).1 t' i ∙ rw h refl
      go (db', err y) e = (exec-refused _ db db' y e).0 t' i

  pub update-other_table :
      (t : String) (sets : List (String × Assignment)) (id : Uuid) (db : d.Db) (t' : String)
      (i : Uuid)
      → (t' == t) ≡ false
      → row (d.exec (update t sets ("id", uuid id)) db).0 t' i ≡ row db t' i
  update-other_table t sets id db t' i h = update-other t sets id db t' i (rw h refl)

  -- An INSERT leaves the other rows.
  pub insert-other_row :
      (t : String) (cs : List String) (vs : List Value) (id : Uuid) (db : d.Db)
      → column "id" (entries cs vs) ≡ uuid id
      → (t' : String) (i : Uuid) → is_row t id t' i ≡ false
      → row (d.exec (insert t cs vs) db).0 t' i ≡ row db t' i
  insert-other_row t cs vs id db k t' i h = go (d.exec (insert t cs vs) db) refl
    where
      go : (x : d.Db × Result ℕ) → d.exec (insert t cs vs) db ≡ x → row x.0 t' i ≡ row db t' i
      go (db', ok n) e = exec-insert t cs vs id db db' n k e t' i ∙ rw h refl
      go (db', err y) e = (exec-refused _ db db' y e).0 t' i

  -- An INSERT leaves the rows of the other tables.
  pub insert-other :
      (t : String) (cs : List String) (vs : List Value) (id : Uuid) (db : d.Db)
      → column "id" (entries cs vs) ≡ uuid id
      → (t' : String) (i : Uuid) → (t' == t) ≡ false
      → row (d.exec (insert t cs vs) db).0 t' i ≡ row db t' i
  insert-other t cs vs id db k t' i h = insert-other_row t cs vs id db k t' i (rw h refl)

  -- An INSERT with an error leaves every row.
  pub insert-refused :
      (t : String) (cs : List String) (vs : List Value) (db : d.Db) {e : Error}
      → exec_error (d.exec (insert t cs vs) db).1 ≡ some e
      → (t' : String) (i : Uuid) → row (d.exec (insert t cs vs) db).0 t' i ≡ row db t' i
  insert-refused t cs vs db {e = x} h t' i = go (d.exec (insert t cs vs) db) refl h
    where
      go :
          (y : d.Db × Result ℕ)
          → d.exec (insert t cs vs) db ≡ y
          → exec_error y.1 ≡ some x
          → row y.0 t' i ≡ row db t' i
      go (db', ok n) e h = absurd (none-ne-some _ h)
      go (db', err y) e h = (exec-refused _ db db' y e).0 t' i

  pub is_row_other : (t : String) (id i : Uuid) → i ≢ id → is_row t id t i ≡ false
  is_row_other t id i n = ground (arith, n)
