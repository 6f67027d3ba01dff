-- ===== src/Postgres/Executions.antt =====
-- internal/store/postgres/execution.go
pub mod Laws
use shipinator.Common.{String, Option, none, some, List, [], ◌∷◌}
use shipinator.Errors.{Error, Result, ok}
use shipinator.Models.{Uuid, Time, Execution}
use shipinator.Stores.{ExecutionStore}
use shipinator.Effects.{Platform}
use shipinator.Postgres.{
  Value, uuid, text, time, nullable, Assignment, assign, coalesce, insert, update, Driver,
  scan_uuid, scan_text, scan_time, scan_nullable, mismatch, scan_all,
}
use shipinator.Postgres.{◌>>=◌}
use shipinator.Postgres.Helpers.{
  ensure_id, set_default_status, wrap_no_rows_by_id, exec_error, or_wrapped, affected_or_error,
  completed_at_for_status,
}

abbrev pub columns : List String
columns =
    "id" ∷ "job_step_id" ∷ "executor_type" ∷ "external_id" ∷ "status" ∷ "submitted_at"
    ∷ "completed_at" ∷ []

-- The arguments of the INSERT, in the order of its columns.
abbrev pub values : Execution → List Value
values r =
    uuid r.id
    ∷ uuid r.job_step_id
    ∷ text r.executor_type
    ∷ text r.external_id
    ∷ text r.status
    ∷ time r.submitted_at
    ∷ nullable time r.completed_at
    ∷ []

-- The targets of `Scan`, in the order of the columns.
abbrev pub scan : List Value → Result Execution
scan (v0 ∷ v1 ∷ v2 ∷ v3 ∷ v4 ∷ v5 ∷ v6 ∷ []) = do
  id ← scan_uuid v0
  job_step_id ← scan_uuid v1
  executor_type ← scan_text v2
  external_id ← scan_text v3
  status ← scan_text v4
  submitted_at ← scan_time v5
  completed_at ← scan_nullable scan_time v6
  ok (record {
    id = id;
    job_step_id = job_step_id;
    executor_type = executor_type;
    external_id = external_id;
    status = status;
    submitted_at = submitted_at;
    completed_at = completed_at;
  })
scan _ = mismatch

-- The record as `Create` leaves it, given `uuid.New()` and `time.Now()`.
unfoldable pub prepared : Uuid → Time → Execution → Execution
unfolding ensure_id set_default_status
prepared fresh now r = record r {
  id = ensure_id fresh r.id;
  status = set_default_status r.status "pending";
  submitted_at = now;
}

-- The SET clause of `UpdateStatus`.
unfoldable pub status_sets : Time → String → List (String × Assignment)
unfolding completed_at_for_status
status_sets now status =
    ("status", assign (text status))
    ∷ ("completed_at", coalesce (nullable time (completed_at_for_status status now)))
    ∷ []

module _ (p : Platform) (d : Driver) where
  open d use {Db, exec, query_row, query}

  -- The new state, the record as the caller then has it, and the error.
  unfoldable pub create : Uuid → Time → Execution → Db → Db × Execution × Option Error
  unfolding prepared
  create fresh now r db =
      let r' = prepared fresh now r in
      let (db', result) = exec (insert "executions" columns (values r')) db in
      (db', r', exec_error result)

  unfoldable pub get_by_id : Uuid → Db → Result Execution
  unfolding wrap_no_rows_by_id
  get_by_id id db = or_wrapped (wrap_no_rows_by_id p "execution" id) (
      query_row
        (record {
          columns = columns;
          table = "executions";
          rows = some ("id", uuid id);
          order = none;
        })
        db
      >>= scan)

  unfoldable pub list_by_job_step : Uuid → Db → Result (List Execution)
  unfolding scan_all
  list_by_job_step key db =
      query
        (record {
          columns = columns;
          table = "executions";
          rows = some ("job_step_id", uuid key);
          order = some "submitted_at";
        })
        db
      >>= scan_all scan

  -- `UpdateStatus`, with `time.Now()` as an argument.
  unfoldable pub update_status : Time → Uuid → String → Db → Db × Option Error
  unfolding affected_or_error status_sets
  update_status now id status db =
      let (db', result) = exec (update "executions" (status_sets now status) ("id", uuid id)) db in
      (db', affected_or_error p "execution" id result)

  abbrev pub new_execution_store : ExecutionStore Db
  new_execution_store = record {
    create = create;
    get_by_id = get_by_id;
    list_by_job_step = list_by_job_step;
    update_status = update_status;
  }
