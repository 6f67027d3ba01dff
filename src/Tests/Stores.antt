-- ===== src/Tests/Stores.antt =====
-- The theorems about the stores, over a database in memory.
use shipinator.Common.{false, ◌≡◌, ◌↔◌, refl, ◌<>◌, none, some, true, string_eq, nat_eq}
use shipinator.Errors.{err, Error, ok, is_sentinel}
use shipinator.Models.{Project, PipelineRun, JobStep, Execution}
use shipinator.Fsm.{state_succeeded}
use shipinator.Effects.{Platform}
use shipinator.Postgres.Sql.{stored}
use shipinator.Postgres.Sql.Memory.{Tables, put, memory, memory_sql}
use shipinator.Postgres.Helpers.{
  ensure_id, set_default_status, affected_or_error, ensure_rows_affected,
}
use shipinator.Postgres.JobSteps
use shipinator.Postgres.PipelineRuns
use shipinator.Postgres.Jobs
use shipinator.Postgres.Executions
use shipinator.Postgres.Projects
use shipinator.Postgres.JobSteps.Laws.{create-get_by_id}
use shipinator.Postgres.PipelineRuns.Laws.{update_status-Holds}
use shipinator.Postgres.Jobs.Laws.{update_status-missing}
use shipinator.Postgres.Executions.Laws.{update_status-succeeded}
use shipinator.Postgres.Projects.Laws.{modify-Holds, overwritten, get_by_id-missing}

abbrev pub platform : Platform
platform = record { uuid_string = λ id. "id"; path_join = λ base name. base <> ("/" <> name) }

abbrev pub empty : Tables
empty = λ t id. none

abbrev step : JobStep
step = record {
  id = 0;
  job_id = 4;
  name = "unit";
  execution_order = some 1;
  parallel_group = some "parallel-0";
  status = "";
  created_at = 0;
  started_at = none;
  finished_at = none;
}

create-get_by_id_example :
    JobSteps.get_by_id platform memory 9 (JobSteps.create platform memory 9 12345 step empty).0
    ≡ ok (record step { id = 9; status = "pending"; created_at = 12000 })
unfolding JobSteps.create JobSteps.prepared ensure_id set_default_status string_eq nat_eq
create-get_by_id_example = create-get_by_id platform memory_sql 9 12345 step empty refl refl

abbrev pipeline_run : PipelineRun
pipeline_run = record {
  id = 5;
  pipeline_id = 2;
  git_ref = "main";
  git_sha = "c0ffee";
  status = "pending";
  created_at = 1000;
  started_at = none;
  finished_at = none;
}

abbrev with_pipeline_run : Tables
with_pipeline_run =
    put "pipeline_runs" 5 (some (stored PipelineRuns.columns (PipelineRuns.values pipeline_run)))
      empty

update_status-Holds_example :
    (PipelineRuns.update_status platform memory 7000 5 "running" with_pipeline_run).0
      "pipeline_runs" 5
    ≡ some (
        stored PipelineRuns.columns (
          PipelineRuns.values (record pipeline_run { status = "running"; started_at = some 7000 })))
unfolding PipelineRuns.update_status PipelineRuns.status_sets affected_or_error ensure_rows_affected
    string_eq nat_eq
update_status-Holds_example =
    update_status-Holds platform memory_sql 7000 "running" pipeline_run with_pipeline_run refl refl

update_status-missing_example : empty "jobs" 3 ≡ none ↔ (
    (e : Error) × ((Jobs.update_status platform memory 7000 3 "failed" empty).1 ≡ some e)
    × (is_sentinel "not found" e ≡ true))
unfolding Jobs.status_sets string_eq
update_status-missing_example =
    update_status-missing platform memory_sql 7000 "failed" 3 empty {n = 0} refl

abbrev execution : Execution
execution = record {
  id = 8;
  job_step_id = 9;
  executor_type = "kubernetes";
  external_id = "shipinator-1";
  status = "running";
  submitted_at = 1000;
  completed_at = none;
}

abbrev with_execution : Tables
with_execution =
    put "executions" 8 (some (stored Executions.columns (Executions.values execution))) empty

update_status-succeeded_example :
    (Executions.update_status platform memory 7000 8 state_succeeded with_execution).0 "executions"
      8
    ≡ some (
        stored Executions.columns
          (Executions.values (record execution { status = state_succeeded })))
unfolding Executions.update_status Executions.status_sets affected_or_error ensure_rows_affected
    string_eq nat_eq
update_status-succeeded_example =
    update_status-succeeded platform memory_sql 7000 execution with_execution refl refl

abbrev project : Project
project = record {
  id = 1;
  name = "old";
  description = some "text";
  created_at = 1000;
  updated_at = 1000;
}

abbrev with_project : Tables
with_project = put "projects" 1 (some (stored Projects.columns (Projects.values project))) empty

modify-Holds_example :
    let r = record project { name = "new"; created_at = 0 } in
    (Projects.modify platform memory 7000 r with_project).0 "projects" 1
    ≡ some (stored Projects.columns (Projects.values (overwritten 7000 r project)))
unfolding Projects.modify Projects.modify_sets affected_or_error ensure_rows_affected string_eq
    nat_eq
modify-Holds_example =
    modify-Holds platform memory_sql 7000 (record project { name = "new"; created_at = 0 }) project
      with_project refl refl

get_by_id-missing_example :
    ((memory_sql.fault empty ≡ none)
      → empty "projects" 3 ≡ none
      → (e : Error) × (Projects.get_by_id platform memory 3 empty ≡ err e)
        × (is_sentinel "not found" e ≡ true))
    × ((e : Error)
        → memory_sql.fault empty ≡ some e
        → (Projects.get_by_id platform memory 3 empty ≡ err e)
          × (is_sentinel "not found" e ≡ false))
get_by_id-missing_example = get_by_id-missing platform memory_sql 3 empty
