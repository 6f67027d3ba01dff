-- ===== src/Postgres/Projects.antt =====
-- internal/store/postgres/project.go
pub mod Laws
use shipinator.Common.{String, Option, none, some, List, [], ◌∷◌}
use shipinator.Errors.{Error, Result, ok}
use shipinator.Models.{Uuid, Time, Project}
use shipinator.Stores.{ProjectStore}
use shipinator.Effects.{Platform}
use shipinator.Postgres.{
  Value, uuid, text, time, nullable, Assignment, assign, insert, update, delete, Driver, scan_uuid,
  scan_text, scan_time, scan_nullable, mismatch, scan_all,
}
use shipinator.Postgres.{◌>>=◌}
use shipinator.Postgres.Helpers.{
  ensure_id, wrap_no_rows_by_id, wrap_no_rows_by_name, exec_error, or_wrapped, affected_or_error,
}

abbrev pub columns : List String
columns = "id" ∷ "name" ∷ "description" ∷ "created_at" ∷ "updated_at" ∷ []

-- The arguments of the INSERT, in the order of its columns.
abbrev pub values : Project → List Value
values r =
    uuid r.id
    ∷ text r.name
    ∷ nullable text r.description
    ∷ time r.created_at
    ∷ time r.updated_at
    ∷ []

-- The targets of `Scan`, in the order of the columns.
abbrev pub scan : List Value → Result Project
scan (v0 ∷ v1 ∷ v2 ∷ v3 ∷ v4 ∷ []) = do
  id ← scan_uuid v0
  name ← scan_text v1
  description ← scan_nullable scan_text v2
  created_at ← scan_time v3
  updated_at ← scan_time v4
  ok (record {
    id = id;
    name = name;
    description = description;
    created_at = created_at;
    updated_at = updated_at;
  })
scan _ = mismatch

-- The record as `Create` leaves it, given `uuid.New()` and `time.Now()`.
unfoldable pub prepared : Uuid → Time → Project → Project
unfolding ensure_id
prepared fresh now r = record r { id = ensure_id fresh r.id; created_at = now; updated_at = now }

-- The SET clause of `Update`.
unfoldable pub modify_sets : Project → List (String × Assignment)
modify_sets r =
    (("name", assign (text r.name))
      ∷ ("description", assign (nullable text r.description))
      ∷ ("updated_at", assign (time r.updated_at))
      ∷ [])

module _ (p : Platform) (d : Driver) where
  open d use {Db, exec, query_row, query}

  -- The new state, the record as the caller then has it, and the error.
  unfoldable pub create : Uuid → Time → Project → Db → Db × Project × Option Error
  unfolding prepared
  create fresh now r db =
      let r' = prepared fresh now r in
      let (db', result) = exec (insert "projects" columns (values r')) db in
      (db', r', exec_error result)

  unfoldable pub get_by_id : Uuid → Db → Result Project
  unfolding wrap_no_rows_by_id
  get_by_id id db = or_wrapped (wrap_no_rows_by_id p "project" id) (
      query_row
        (record {
          columns = columns;
          table = "projects";
          rows = some ("id", uuid id);
          order = none;
        })
        db
      >>= scan)

  unfoldable pub get_by_name : String → Db → Result Project
  unfolding wrap_no_rows_by_name
  get_by_name name db = or_wrapped (wrap_no_rows_by_name "project" name) (
      query_row
        (record {
          columns = columns;
          table = "projects";
          rows = some ("name", text name);
          order = none;
        })
        db
      >>= scan)

  unfoldable pub list : Db → Result (List Project)
  unfolding scan_all
  list db =
      query
        (record { columns = columns; table = "projects"; rows = none; order = some "created_at" })
        db
      >>= scan_all scan

  -- The new state, the record as the caller then has it, and the error.
  unfoldable pub modify : Time → Project → Db → Db × Project × Option Error
  unfolding affected_or_error modify_sets
  modify now r db =
      let r' = record r { updated_at = now } in
      let (db', result) = exec (update "projects" (modify_sets r') ("id", uuid r'.id)) db in
      (db', r', affected_or_error p "project" r'.id result)

  unfoldable pub remove : Uuid → Db → Db × Option Error
  unfolding affected_or_error
  remove id db =
      let (db', result) = exec (delete "projects" ("id", uuid id)) db in
      (db', affected_or_error p "project" id result)

  abbrev pub new_project_store : ProjectStore Db
  new_project_store = record {
    create = create;
    get_by_id = get_by_id;
    get_by_name = get_by_name;
    list = list;
    modify = modify;
    remove = remove;
  }
