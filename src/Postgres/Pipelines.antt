-- ===== src/Postgres/Pipelines.antt =====
-- internal/store/postgres/pipeline.go
pub mod Laws
use shipinator.Common.{String, Option, none, some, List, [], ◌∷◌}
use shipinator.Errors.{Error, Result, ok}
use shipinator.Models.{Uuid, Time, Pipeline}
use shipinator.Stores.{PipelineStore}
use shipinator.Effects.{Platform}
use shipinator.Postgres.{
  Value, uuid, text, time, Assignment, assign, insert, update, delete, Driver, scan_uuid, scan_text,
  scan_time, mismatch, scan_all,
}
use shipinator.Postgres.{◌>>=◌}
use shipinator.Postgres.Helpers.{
  ensure_id, wrap_no_rows_by_id, exec_error, or_wrapped, affected_or_error,
}

abbrev pub columns : List String
columns = "id" ∷ "repository_id" ∷ "name" ∷ "trigger_type" ∷ "created_at" ∷ "updated_at" ∷ []

-- The arguments of the INSERT, in the order of its columns.
abbrev pub values : Pipeline → List Value
values r =
    uuid r.id
    ∷ uuid r.repository_id
    ∷ text r.name
    ∷ text r.trigger_type
    ∷ time r.created_at
    ∷ time r.updated_at
    ∷ []

-- The targets of `Scan`, in the order of the columns.
abbrev pub scan : List Value → Result Pipeline
scan (v0 ∷ v1 ∷ v2 ∷ v3 ∷ v4 ∷ v5 ∷ []) = do
  id ← scan_uuid v0
  repository_id ← scan_uuid v1
  name ← scan_text v2
  trigger_type ← scan_text v3
  created_at ← scan_time v4
  updated_at ← scan_time v5
  ok (record {
    id = id;
    repository_id = repository_id;
    name = name;
    trigger_type = trigger_type;
    created_at = created_at;
    updated_at = updated_at;
  })
scan _ = mismatch

-- The record as `Create` leaves it, given `uuid.New()` and `time.Now()`.
unfoldable pub prepared : Uuid → Time → Pipeline → Pipeline
unfolding ensure_id
prepared fresh now r = record r { id = ensure_id fresh r.id; created_at = now; updated_at = now }

-- The SET clause of `Update`.
unfoldable pub modify_sets : Pipeline → List (String × Assignment)
modify_sets r =
    (("repository_id", assign (uuid r.repository_id))
      ∷ ("name", assign (text r.name))
      ∷ ("trigger_type", assign (text r.trigger_type))
      ∷ ("updated_at", assign (time r.updated_at))
      ∷ [])

module _ (p : Platform) (d : Driver) where
  open d use {Db, exec, query_row, query}

  -- The new state, the record as the caller then has it, and the error.
  unfoldable pub create : Uuid → Time → Pipeline → Db → Db × Pipeline × Option Error
  unfolding prepared
  create fresh now r db =
      let r' = prepared fresh now r in
      let (db', result) = exec (insert "pipelines" columns (values r')) db in
      (db', r', exec_error result)

  unfoldable pub get_by_id : Uuid → Db → Result Pipeline
  unfolding wrap_no_rows_by_id
  get_by_id id db = or_wrapped (wrap_no_rows_by_id p "pipeline" id) (
      query_row
        (record {
          columns = columns;
          table = "pipelines";
          rows = some ("id", uuid id);
          order = none;
        })
        db
      >>= scan)

  unfoldable pub list_by_repository : Uuid → Db → Result (List Pipeline)
  unfolding scan_all
  list_by_repository key db =
      query
        (record {
          columns = columns;
          table = "pipelines";
          rows = some ("repository_id", uuid key);
          order = some "created_at";
        })
        db
      >>= scan_all scan

  -- The new state, the record as the caller then has it, and the error.
  unfoldable pub modify : Time → Pipeline → Db → Db × Pipeline × Option Error
  unfolding affected_or_error modify_sets
  modify now r db =
      let r' = record r { updated_at = now } in
      let (db', result) = exec (update "pipelines" (modify_sets r') ("id", uuid r'.id)) db in
      (db', r', affected_or_error p "pipeline" r'.id result)

  unfoldable pub remove : Uuid → Db → Db × Option Error
  unfolding affected_or_error
  remove id db =
      let (db', result) = exec (delete "pipelines" ("id", uuid id)) db in
      (db', affected_or_error p "pipeline" id result)

  abbrev pub new_pipeline_store : PipelineStore Db
  new_pipeline_store = record {
    create = create;
    get_by_id = get_by_id;
    list_by_repository = list_by_repository;
    modify = modify;
    remove = remove;
  }
