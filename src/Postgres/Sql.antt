-- ===== src/Postgres/Sql.antt =====
-- What the stores rely on of the database: the rows under their primary keys, and what the
-- statements on a primary key do to them. A TIMESTAMPTZ column keeps microseconds.
pub mod Memory
pub mod Statements
pub mod Frames
pub mod Queries
use mathlib.Core.Option
use shipinator.Common.{
  ℕ, ◌*◌, ◌/◌, ◌≡◌, String, Bool, false, ◌&&◌, Option, none, some, List, [], ◌∷◌, map, ◌==◌, nat_eq,
  string_eq, if◌then◌else◌, lookup,
}
use shipinator.Errors.{Error, Result, ok, err, is_sentinel}
use shipinator.Models.{Uuid, Time}
use shipinator.Postgres.{
  Value, null, uuid, time, Assignment, assign, coalesce, Statement, insert, update, delete, Select,
  Driver,
}
use shipinator.Postgres.Helpers.{err_no_rows}

abbrev pub Row : Type 0
Row = List (String × Value)

abbrev pub micros : Time → Time
micros t = t / 1000 * 1000

abbrev pub kept : Value → Value
kept (time t) = time (micros t)
kept v = v

abbrev pub entries : List String → List Value → Row
entries (c ∷ cs) (v ∷ vs) = (c, v) ∷ entries cs vs
entries _ _ = []

-- The row that an INSERT stores.
abbrev pub stored : List String → List Value → Row
stored cs vs = entries cs (map kept vs)

abbrev pub column : String → Row → Value
column c [] = null
column c ((d, v) ∷ r) = if d == c then v else column c r

abbrev pub columns_of : List String → Row → List Value
columns_of cs r = map (λ c. column c r) cs

abbrev pub set_column : String → Value → Row → Row
set_column c v [] = (c, v) ∷ []
set_column c v ((d, w) ∷ r) = if d == c then (d, v) ∷ r else (d, w) ∷ set_column c v r

abbrev pub assigned : List (String × Assignment) → Row → Row
assigned [] r = r
assigned ((c, assign v) ∷ sets) r = assigned sets (set_column c (kept v) r)
assigned ((c, coalesce null) ∷ sets) r = assigned sets r
assigned ((c, coalesce v) ∷ sets) r = assigned sets (set_column c (kept v) r)

abbrev pub affected : Option Row → ℕ
affected none = 0
affected (some _) = 1

abbrev pub found : List String → Option Row → Result (List Value)
found cs none = err err_no_rows
found cs (some r) = ok (columns_of cs r)

abbrev pub by_id : List String → String → Uuid → Select
by_id cs t id = record { columns = cs; table = t; rows = some ("id", uuid id); order = none }

-- `t'` and `i` name the row that `t` and `id` do.
abbrev pub is_row : String → Uuid → String → Uuid → Bool
is_row t id t' i = t' == t && i == id

pub record Sql (d : Driver) : Type 0 where
  -- The row with a primary key, in each state.
  pub row : d.Db → String → Uuid → Option Row
  -- Why a query would fail now, if the database cannot be reached.
  pub fault : d.Db → Option Error
  -- A statement that fails changes nothing, and the program's own sentinels are not among its
  -- errors. PostgreSQL does this for each statement whose error it answers with; a connection that
  -- breaks after the statement has taken effect, and before its answer, is left out.
  pub exec-refused :
      (s : Statement) (db db' : d.Db) (e : Error)
      → d.exec s db ≡ (db', err e)
      → ((t : String) (i : Uuid) → row db' t i ≡ row db t i) × (is_sentinel "not found" e ≡ false)
  pub exec-insert :
      (t : String) (cs : List String) (vs : List Value) (id : Uuid) (db db' : d.Db) (n : ℕ)
      → column "id" (entries cs vs) ≡ uuid id
      → d.exec (insert t cs vs) db ≡ (db', ok n)
      → (t' : String) (i : Uuid)
      → row db' t' i ≡ (if is_row t id t' i then some (stored cs vs) else row db t' i)
  pub exec-update :
      (t : String) (sets : List (String × Assignment)) (id : Uuid) (db db' : d.Db) (n : ℕ)
      → d.exec (update t sets ("id", uuid id)) db ≡ (db', ok n)
      → (n ≡ affected (row db t id))
        × ((t' : String) (i : Uuid)
            → row db' t' i ≡ (
                if is_row t id t' i then Option.map (assigned sets) (row db t id) else row db t' i))
  pub exec-delete :
      (t : String) (id : Uuid) (db db' : d.Db) (n : ℕ)
      → d.exec (delete t ("id", uuid id)) db ≡ (db', ok n)
      → (n ≡ affected (row db t id))
        × ((t' : String) (i : Uuid)
            → row db' t' i ≡ (if is_row t id t' i then none else row db t' i))
  pub query_row-by_id :
      (cs : List String) (t : String) (id : Uuid) (db : d.Db)
      → fault db ≡ none
      → d.query_row (by_id cs t id) db ≡ found cs (row db t id)
  pub query_row-fault :
      (q : Select) (db : d.Db) {e : Error}
      → fault db ≡ some e
      → (d.query_row q db ≡ err e)
        × (is_sentinel "no rows in result set" e ≡ false)
        × (is_sentinel "not found" e ≡ false)
