-- ===== src/Postgres/Artifacts.antt =====
-- internal/store/postgres/artifact.go
pub mod Laws
pub mod Lists
use shipinator.Common.{String, Option, none, some, List, [], ◌∷◌}
use shipinator.Errors.{Error, Result, ok}
use shipinator.Models.{Uuid, Time, Artifact}
use shipinator.Stores.{ArtifactStore}
use shipinator.Effects.{Platform}
use shipinator.Postgres.{
  Value, uuid, text, time, nullable, insert, Driver, scan_uuid, scan_text, scan_time, scan_nullable,
  mismatch, scan_all,
}
use shipinator.Postgres.{◌>>=◌}
use shipinator.Postgres.Helpers.{ensure_id, wrap_no_rows_by_id, exec_error, or_wrapped}

abbrev pub columns : List String
columns =
    "id" ∷ "job_id" ∷ "artifact_type" ∷ "storage_backend" ∷ "storage_path" ∷ "checksum"
    ∷ "created_at" ∷ []

-- The arguments of the INSERT, in the order of its columns.
abbrev pub values : Artifact → List Value
values r =
    uuid r.id
    ∷ uuid r.job_id
    ∷ text r.artifact_type
    ∷ text r.storage_backend
    ∷ text r.storage_path
    ∷ nullable text r.checksum
    ∷ time r.created_at
    ∷ []

-- The targets of `Scan`, in the order of the columns.
abbrev pub scan : List Value → Result Artifact
scan (v0 ∷ v1 ∷ v2 ∷ v3 ∷ v4 ∷ v5 ∷ v6 ∷ []) = do
  id ← scan_uuid v0
  job_id ← scan_uuid v1
  artifact_type ← scan_text v2
  storage_backend ← scan_text v3
  storage_path ← scan_text v4
  checksum ← scan_nullable scan_text v5
  created_at ← scan_time v6
  ok (record {
    id = id;
    job_id = job_id;
    artifact_type = artifact_type;
    storage_backend = storage_backend;
    storage_path = storage_path;
    checksum = checksum;
    created_at = created_at;
  })
scan _ = mismatch

-- The record as `Create` leaves it, given `uuid.New()` and `time.Now()`.
unfoldable pub prepared : Uuid → Time → Artifact → Artifact
unfolding ensure_id
prepared fresh now r = record r { id = ensure_id fresh r.id; created_at = now }

module _ (p : Platform) (d : Driver) where
  open d use {Db, exec, query_row, query}

  -- The new state, the record as the caller then has it, and the error.
  unfoldable pub create : Uuid → Time → Artifact → Db → Db × Artifact × Option Error
  unfolding prepared
  create fresh now r db =
      let r' = prepared fresh now r in
      let (db', result) = exec (insert "artifacts" columns (values r')) db in
      (db', r', exec_error result)

  unfoldable pub get_by_id : Uuid → Db → Result Artifact
  unfolding wrap_no_rows_by_id
  get_by_id id db = or_wrapped (wrap_no_rows_by_id p "artifact" id) (
      query_row
        (record {
          columns = columns;
          table = "artifacts";
          rows = some ("id", uuid id);
          order = none;
        })
        db
      >>= scan)

  unfoldable pub list_by_job : Uuid → Db → Result (List Artifact)
  unfolding scan_all
  list_by_job key db =
      query
        (record {
          columns = columns;
          table = "artifacts";
          rows = some ("job_id", uuid key);
          order = some "created_at";
        })
        db
      >>= scan_all scan

  abbrev pub new_artifact_store : ArtifactStore Db
  new_artifact_store = record { create = create; get_by_id = get_by_id; list_by_job = list_by_job }
