-- ===== src/Postgres/Sql/Memory.antt =====
-- A database in memory that meets the laws: its tables are functions from keys to rows.
use mathlib.Core.Option
use mathlib.Core.Option.{none-ne-some}
use mathlib.Core.Logic.{if_pos, if_neg}
use shipinator.Common.{
  ℕ, ◌≡◌, refl, sym, ap, ◌∙◌, String, Bool, false, Option, none, some, List, ◌==◌, string_eq,
  if◌then◌else◌,
}
use shipinator.Errors.{Error, external, Result, ok, err, is_sentinel}
use shipinator.Models.{Uuid}
use shipinator.Postgres.{Value, uuid, Statement, insert, update, delete, Where, Driver}
use shipinator.Postgres.Sql.{Row, Sql, stored, entries, column, assigned, affected, found, is_row}

abbrev pub Tables : Type 0
Tables = String → Uuid → Option Row

abbrev pub put : String → Uuid → Option Row → Tables → Tables
put t id o db t' i = if is_row t id t' i then o else db t' i

abbrev pub refusal : Error
refusal = external "refused"

abbrev pub insert_new : String → Row → Uuid → Tables → Option Row → Tables × Result ℕ
insert_new t r id db none = (put t id (some r) db, ok 1)
insert_new t r id db (some _) = (db, err refusal)

abbrev pub insert_row : String → Row → Value → Tables → Tables × Result ℕ
insert_row t r (uuid id) db = insert_new t r id db (db t id)
insert_row t r _ db = (db, err refusal)

-- A change of the row with a key.
abbrev pub change_row : String → (Option Row → Option Row) → Where → Tables → Tables × Result ℕ
change_row t f (c, uuid id) db =
    if c == "id" then (put t id (f (db t id)) db, ok (affected (db t id))) else (db, err refusal)
change_row t f (c, _) db = (db, err refusal)

abbrev pub exec : Statement → Tables → Tables × Result ℕ
exec (insert t cs vs) db = insert_row t (stored cs vs) (column "id" (entries cs vs)) db
exec (update t sets w) db = change_row t (Option.map (assigned sets)) w db
exec (delete t w) db = change_row t (λ _. none) w db

abbrev pub query_where : List String → String → Option Where → Tables → Result (List Value)
query_where cs t (some (c, uuid id)) db = if c == "id" then found cs (db t id) else err refusal
query_where cs t _ db = err refusal

abbrev pub memory : Driver
memory = record {
  Db = Tables;
  exec = exec;
  query_row = λ q db. query_where q.columns q.table q.rows db;
  query = λ q db. err refusal;
}

abbrev pub tag : Result ℕ → ℕ
tag (ok n) = n
tag (err _) = 0

abbrev pub IsRefused : Tables → Tables × Result ℕ → Type 0
IsRefused db x =
    (e : Error)
    → x.1 ≡ err e
    → ((t : String) (i : Uuid) → x.0 t i ≡ db t i) × (is_sentinel "not found" e ≡ false)

refused_lem : (db : Tables) → IsRefused db (db, err refusal)
unfolding is_sentinel
refused_lem db e h = (λ t i. refl, ap failing (sym h))
  where
    failing : Result ℕ → Bool
    failing (ok n) = false
    failing (err x) = is_sentinel "not found" x

accepted_lem : (db db' : Tables) (n : ℕ) → IsRefused db (db', ok n)
accepted_lem db db' n e h = cc

change-IsRefused :
    (t : String) (f : Option Row → Option Row) (w : Where) (db : Tables)
    → IsRefused db (change_row t f w db)
change-IsRefused t f (c, Value.uuid id) db = elim (string_eq.dec c "id") [
  | yes e ↦ rw (if_pos _ e) (accepted_lem db _ _)
  | no e ↦ rw (if_neg _ e) (refused_lem db)
]
change-IsRefused t f (c, Value.null) db = refused_lem db
change-IsRefused t f (c, Value.text _) db = refused_lem db
change-IsRefused t f (c, Value.int _) db = refused_lem db
change-IsRefused t f (c, Value.time _) db = refused_lem db

insert-IsRefused :
    (t : String) (r : Row) (v : Value) (db : Tables) → IsRefused db (insert_row t r v db)
insert-IsRefused t r (Value.uuid id) db = go (db t id)
  where
    go : (o : Option Row) → IsRefused db (insert_new t r id db o)
    go none = accepted_lem db _ _
    go (some _) = refused_lem db
insert-IsRefused t r Value.null db = refused_lem db
insert-IsRefused t r (Value.text _) db = refused_lem db
insert-IsRefused t r (Value.int _) db = refused_lem db
insert-IsRefused t r (Value.time _) db = refused_lem db

pub exec-IsRefused : (s : Statement) (db : Tables) → IsRefused db (exec s db)
exec-IsRefused (insert t cs vs) db =
    insert-IsRefused t (stored cs vs) (column "id" (entries cs vs)) db
exec-IsRefused (update t sets w) db = change-IsRefused t (Option.map (assigned sets)) w db
exec-IsRefused (delete t w) db = change-IsRefused t (λ _. none) w db

pub inserted :
    (t : String) (r : Row) (id : Uuid) (db db' : Tables) (n : ℕ) (o : Option Row)
    → insert_new t r id db o ≡ (db', ok n)
    → (t' : String) (i : Uuid) → db' t' i ≡ (if is_row t id t' i then some r else db t' i)
inserted t r id db db' n none h t' i = sym (ap (λ x. x.0 t' i) h)
inserted t r id db db' n (some _) h t' i = cc

pub changed :
    (t : String) (f : Option Row → Option Row) (id : Uuid) (db db' : Tables) (n : ℕ)
    → change_row t f ("id", uuid id) db ≡ (db', ok n)
    → (n ≡ affected (db t id))
      × ((t' : String) (i : Uuid) → db' t' i ≡ (if is_row t id t' i then f (db t id) else db t' i))
unfolding string_eq
changed t f id db db' n h = (sym (ap (λ x. tag x.1) h), λ t' i. sym (ap (λ x. x.0 t' i) h))

pub query_by_id :
    (cs : List String) (t : String) (id : Uuid) (db : Tables)
    → query_where cs t (some ("id", uuid id)) db ≡ found cs (db t id)
unfolding string_eq
query_by_id cs t id db = refl

abbrev pub memory_sql : Sql memory
memory_sql = record {
  row = λ db. db;
  fault = λ _. none;
  exec-refused = λ s db db' e h.
      let (same, foreign) = exec-IsRefused s db e (ap (λ x. x.1) h) in
      (λ t i. ap (λ x. x.0 t i) (sym h) ∙ same t i, foreign);
  exec-insert = λ t cs vs id db db' n k h.
      inserted t (stored cs vs) id db db' n (db t id)
        (ap (λ v. insert_row t (stored cs vs) v db) (sym k) ∙ h);
  exec-update = λ t sets id db db' n h. changed t (Option.map (assigned sets)) id db db' n h;
  exec-delete = λ t id db db' n h. changed t (λ _. none) id db db' n h;
  query_row-by_id = λ cs t id db _. query_by_id cs t id db;
  query_row-fault = λ q db {e} h. absurd (none-ne-some e h);
}
