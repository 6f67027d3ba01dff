-- ===== src/Postgres/JobSteps.antt =====
-- internal/store/postgres/job_step.go
pub mod Laws
use shipinator.Common.{String, Option, none, some, List, [], ◌∷◌}
use shipinator.Errors.{Error, Result, ok}
use shipinator.Models.{Uuid, Time, JobStep}
use shipinator.Stores.{JobStepStore}
use shipinator.Effects.{Platform}
use shipinator.Postgres.{
  Value, uuid, text, int, time, nullable, Assignment, assign, coalesce, insert, update, Driver,
  scan_uuid, scan_text, scan_int, scan_time, scan_nullable, mismatch, scan_all,
}
use shipinator.Postgres.{◌>>=◌}
use shipinator.Postgres.Helpers.{
  ensure_id, set_default_status, wrap_no_rows_by_id, exec_error, or_wrapped, affected_or_error,
  started_finished_for_status,
}

abbrev pub columns : List String
columns =
    "id" ∷ "job_id" ∷ "name" ∷ "execution_order" ∷ "parallel_group" ∷ "status" ∷ "created_at"
    ∷ "started_at" ∷ "finished_at" ∷ []

-- The arguments of the INSERT, in the order of its columns.
abbrev pub values : JobStep → List Value
values r =
    uuid r.id
    ∷ uuid r.job_id
    ∷ text r.name
    ∷ nullable int r.execution_order
    ∷ nullable text r.parallel_group
    ∷ text r.status
    ∷ time r.created_at
    ∷ nullable time r.started_at
    ∷ nullable time r.finished_at
    ∷ []

-- The targets of `Scan`, in the order of the columns.
abbrev pub scan : List Value → Result JobStep
scan (v0 ∷ v1 ∷ v2 ∷ v3 ∷ v4 ∷ v5 ∷ v6 ∷ v7 ∷ v8 ∷ []) = do
  id ← scan_uuid v0
  job_id ← scan_uuid v1
  name ← scan_text v2
  execution_order ← scan_nullable scan_int v3
  parallel_group ← scan_nullable scan_text v4
  status ← scan_text v5
  created_at ← scan_time v6
  started_at ← scan_nullable scan_time v7
  finished_at ← scan_nullable scan_time v8
  ok (record {
    id = id;
    job_id = job_id;
    name = name;
    execution_order = execution_order;
    parallel_group = parallel_group;
    status = status;
    created_at = created_at;
    started_at = started_at;
    finished_at = finished_at;
  })
scan _ = mismatch

-- The record as `Create` leaves it, given `uuid.New()` and `time.Now()`.
unfoldable pub prepared : Uuid → Time → JobStep → JobStep
unfolding ensure_id set_default_status
prepared fresh now r = record r {
  id = ensure_id fresh r.id;
  status = set_default_status r.status "pending";
  created_at = now;
}

-- The SET clause of `UpdateStatus`.
unfoldable pub status_sets : Time → String → List (String × Assignment)
unfolding started_finished_for_status
status_sets now status =
    let (started_at, finished_at) = started_finished_for_status status now in
    ("status", assign (text status))
    ∷ ("started_at", coalesce (nullable time started_at))
    ∷ ("finished_at", coalesce (nullable time finished_at))
    ∷ []

module _ (p : Platform) (d : Driver) where
  open d use {Db, exec, query_row, query}

  -- The new state, the record as the caller then has it, and the error.
  unfoldable pub create : Uuid → Time → JobStep → Db → Db × JobStep × Option Error
  unfolding prepared
  create fresh now r db =
      let r' = prepared fresh now r in
      let (db', result) = exec (insert "job_steps" columns (values r')) db in
      (db', r', exec_error result)

  unfoldable pub get_by_id : Uuid → Db → Result JobStep
  unfolding wrap_no_rows_by_id
  get_by_id id db = or_wrapped (wrap_no_rows_by_id p "job step" id) (
      query_row
        (record {
          columns = columns;
          table = "job_steps";
          rows = some ("id", uuid id);
          order = none;
        })
        db
      >>= scan)

  unfoldable pub list_by_job : Uuid → Db → Result (List JobStep)
  unfolding scan_all
  list_by_job key db =
      query
        (record {
          columns = columns;
          table = "job_steps";
          rows = some ("job_id", uuid key);
          order = some "created_at";
        })
        db
      >>= scan_all scan

  -- `UpdateStatus`, with `time.Now()` as an argument.
  unfoldable pub update_status : Time → Uuid → String → Db → Db × Option Error
  unfolding affected_or_error status_sets
  update_status now id status db =
      let (db', result) = exec (update "job_steps" (status_sets now status) ("id", uuid id)) db in
      (db', affected_or_error p "job step" id result)

  abbrev pub new_job_step_store : JobStepStore Db
  new_job_step_store = record {
    create = create;
    get_by_id = get_by_id;
    list_by_job = list_by_job;
    update_status = update_status;
  }
