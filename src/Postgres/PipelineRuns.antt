-- ===== src/Postgres/PipelineRuns.antt =====
-- internal/store/postgres/pipeline_run.go
pub mod Laws
use shipinator.Common.{String, Option, none, some, List, [], ◌∷◌}
use shipinator.Errors.{Error, Result, ok}
use shipinator.Models.{Uuid, Time, PipelineRun}
use shipinator.Stores.{PipelineRunStore}
use shipinator.Effects.{Platform}
use shipinator.Postgres.{
  Value, uuid, text, time, nullable, Assignment, assign, coalesce, insert, update, Driver,
  scan_uuid, scan_text, scan_time, scan_nullable, mismatch, scan_all,
}
use shipinator.Postgres.{◌>>=◌}
use shipinator.Postgres.Helpers.{
  ensure_id, set_default_status, wrap_no_rows_by_id, exec_error, or_wrapped, affected_or_error,
  started_finished_for_status,
}

abbrev pub columns : List String
columns =
    "id" ∷ "pipeline_id" ∷ "git_ref" ∷ "git_sha" ∷ "status" ∷ "created_at" ∷ "started_at"
    ∷ "finished_at" ∷ []

-- The arguments of the INSERT, in the order of its columns.
abbrev pub values : PipelineRun → List Value
values r =
    uuid r.id
    ∷ uuid r.pipeline_id
    ∷ text r.git_ref
    ∷ text r.git_sha
    ∷ text r.status
    ∷ time r.created_at
    ∷ nullable time r.started_at
    ∷ nullable time r.finished_at
    ∷ []

-- The targets of `Scan`, in the order of the columns.
abbrev pub scan : List Value → Result PipelineRun
scan (v0 ∷ v1 ∷ v2 ∷ v3 ∷ v4 ∷ v5 ∷ v6 ∷ v7 ∷ []) = do
  id ← scan_uuid v0
  pipeline_id ← scan_uuid v1
  git_ref ← scan_text v2
  git_sha ← scan_text v3
  status ← scan_text v4
  created_at ← scan_time v5
  started_at ← scan_nullable scan_time v6
  finished_at ← scan_nullable scan_time v7
  ok (record {
    id = id;
    pipeline_id = pipeline_id;
    git_ref = git_ref;
    git_sha = git_sha;
    status = status;
    created_at = created_at;
    started_at = started_at;
    finished_at = finished_at;
  })
scan _ = mismatch

-- The record as `Create` leaves it, given `uuid.New()` and `time.Now()`.
unfoldable pub prepared : Uuid → Time → PipelineRun → PipelineRun
unfolding ensure_id set_default_status
prepared fresh now r = record r {
  id = ensure_id fresh r.id;
  status = set_default_status r.status "pending";
  created_at = now;
}

-- The SET clause of `UpdateStatus`.
unfoldable pub status_sets : Time → String → List (String × Assignment)
unfolding started_finished_for_status
status_sets now status =
    let (started_at, finished_at) = started_finished_for_status status now in
    ("status", assign (text status))
    ∷ ("started_at", coalesce (nullable time started_at))
    ∷ ("finished_at", coalesce (nullable time finished_at))
    ∷ []

module _ (p : Platform) (d : Driver) where
  open d use {Db, exec, query_row, query}

  -- The new state, the record as the caller then has it, and the error.
  unfoldable pub create : Uuid → Time → PipelineRun → Db → Db × PipelineRun × Option Error
  unfolding prepared
  create fresh now r db =
      let r' = prepared fresh now r in
      let (db', result) = exec (insert "pipeline_runs" columns (values r')) db in
      (db', r', exec_error result)

  unfoldable pub get_by_id : Uuid → Db → Result PipelineRun
  unfolding wrap_no_rows_by_id
  get_by_id id db = or_wrapped (wrap_no_rows_by_id p "pipeline run" id) (
      query_row
        (record {
          columns = columns;
          table = "pipeline_runs";
          rows = some ("id", uuid id);
          order = none;
        })
        db
      >>= scan)

  unfoldable pub list_by_pipeline : Uuid → Db → Result (List PipelineRun)
  unfolding scan_all
  list_by_pipeline key db =
      query
        (record {
          columns = columns;
          table = "pipeline_runs";
          rows = some ("pipeline_id", uuid key);
          order = some "created_at";
        })
        db
      >>= scan_all scan

  unfoldable pub list_by_status : String → Db → Result (List PipelineRun)
  unfolding scan_all
  list_by_status key db =
      query
        (record {
          columns = columns;
          table = "pipeline_runs";
          rows = some ("status", text key);
          order = some "created_at";
        })
        db
      >>= scan_all scan

  -- `UpdateStatus`, with `time.Now()` as an argument.
  unfoldable pub update_status : Time → Uuid → String → Db → Db × Option Error
  unfolding affected_or_error status_sets
  update_status now id status db =
      let (db', result) =
        exec (update "pipeline_runs" (status_sets now status) ("id", uuid id)) db in
      (db', affected_or_error p "pipeline run" id result)

  abbrev pub new_pipeline_run_store : PipelineRunStore Db
  new_pipeline_run_store = record {
    create = create;
    get_by_id = get_by_id;
    list_by_pipeline = list_by_pipeline;
    list_by_status = list_by_status;
    update_status = update_status;
  }
