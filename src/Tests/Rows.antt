-- ===== src/Tests/Rows.antt =====
-- A step and a job that succeed, over the stores in memory.
use shipinator.Common.{refl, none, some, [], ◌∷◌, string_eq, nat_eq}
use shipinator.Errors.{ok}
use shipinator.Models.{Execution}
use shipinator.Executor.{ExecutionHandle, ExecutionStatus, ExecutionSpec, is_terminal}
use shipinator.Effects.{Call, tick, ret, caller, detached}
use shipinator.Effects.Logic.{Trace, event, Executes}
use shipinator.Orchestrator
use shipinator.Orchestrator.{poll}
use shipinator.Postgres.Helpers.{
  ensure_id, set_default_status, affected_or_error, ensure_rows_affected,
}
use shipinator.Postgres.Sql.Memory.{Tables, memory, memory_sql}
use shipinator.Postgres.Jobs
use shipinator.Postgres.JobSteps
use shipinator.Postgres.Executions
use shipinator.Hosting.{Hosted}
use shipinator.Hosting.Kinds.{job_rows, step_rows}
use shipinator.Hosting.Lives.{RowStored, ElsewhereMade}
use shipinator.Hosting.StepRows.{given_step, step_record, step_event, run_step-RowStored}
use shipinator.Hosting.JobRows.{given_job, job_record, job_event, run_stage-RowStored}
use shipinator.Tests.Hosting.{platform, rounds}
use shipinator.Tests.Stores.{empty}

abbrev spec : ExecutionSpec
spec = record {
  image = "builder";
  command = "sh" ∷ "-c" ∷ "make" ∷ [];
  env = [];
  artifacts = [];
  timeout = 0;
}

abbrev handle : ExecutionHandle
handle = record { id = "shipinator-1" }

abbrev succeeded : ExecutionStatus
succeeded = record {
  phase = "succeeded";
  started_at = none;
  finished_at = none;
  exit_code = none;
  message = "";
}

abbrev execution : Execution
execution = record {
  id = 0;
  job_step_id = 9;
  executor_type = "kubernetes";
  external_id = "shipinator-1";
  status = "pending";
  submitted_at = 0;
  completed_at = none;
}

abbrev step_trace : Trace
step_trace =
    step_event 4 "make" 0 none (ok 9)
    ∷ event (Call.step_update_status caller 9 "running") none
    ∷ event (Call.submit caller spec) (ok handle)
    ∷ event (Call.execution_create caller execution) (ok 11)
    ∷ event Call.select tick
    ∷ event (Call.status caller handle) (ok succeeded)
    ∷ event (Call.execution_update_status caller 11 "succeeded") none
    ∷ event (Call.step_update_status detached 9 "succeeded") none
    ∷ []

step_executed : Executes (Orchestrator.run_step rounds 4 "make" 0 none spec) step_trace (some none)
unfolding Orchestrator.run_step poll is_terminal string_eq
step_executed = Executes.answers _ _ (
    Executes.answers _ none (
      Executes.answers _ _ (
        Executes.answers _ _ (
          Executes.answers _ tick (
            Executes.answers _ _
              (Executes.answers _ none (Executes.answers _ none (Executes.returns _))))))))

abbrev db1 : Tables
db1 = (JobSteps.create platform memory 9 7000 (given_step 4 "make" 0 none) empty).0

abbrev db2 : Tables
db2 = (JobSteps.update_status platform memory 8000 9 "running" db1).0

abbrev db3 : Tables
db3 = (Executions.create platform memory 11 8500 execution db2).0

abbrev db4 : Tables
db4 = (Executions.update_status platform memory 9000 11 "succeeded" db3).0

abbrev db5 : Tables
db5 = (JobSteps.update_status platform memory 9500 9 "succeeded" db4).0

step_trace-Hosted :
    Hosted platform memory
      (ElsewhereMade platform memory_sql
        (step_rows platform memory_sql)
        (step_record 4 "make" 0 none)
        (step_event 4 "make" 0 none)
        step_trace)
      step_trace
      empty
      db5
unfolding JobSteps.create JobSteps.prepared JobSteps.update_status JobSteps.status_sets
    Executions.create Executions.prepared Executions.update_status Executions.status_sets ensure_id
    set_default_status affected_or_error ensure_rows_affected string_eq nat_eq
step_trace-Hosted = (
  empty,
  db1,
  refl,
  (9, 7000, (refl, refl)),
  (
    db1,
    db2,
    refl,
    (8000, refl),
    (
      db2,
      db2,
      refl,
      refl,
      (
        db2,
        db3,
        refl,
        (11, 8500, (refl, refl)),
        (
          db3,
          db3,
          refl,
          refl,
          (
            db3,
            db3,
            refl,
            refl,
            (db3, db4, refl, (9000, refl), (db4, db5, refl, (9500, refl), refl)),
          ),
        ),
      ),
    ),
  ),
)

run_step-RowStored_example :
    RowStored platform memory_sql
      (step_rows platform memory_sql)
      (step_record 4 "make" 0 none)
      (step_event 4 "make" 0 none)
      db5
      step_trace
      none
run_step-RowStored_example =
    run_step-RowStored 4 "make" 0 none platform memory_sql rounds spec empty db5 step_executed
      step_trace-Hosted

abbrev job_trace : Trace
job_trace =
    job_event 5 "build" (ok 4)
    ∷ event (Call.job_update_status caller 4 "running") none
    ∷ event (Call.job_update_status detached 4 "succeeded") none
    ∷ []

-- A stage without steps.
job_executed :
    Executes (Orchestrator.run_stage 5 "build" (λ id. ret none)) job_trace (some (4, none))
unfolding Orchestrator.run_stage
job_executed =
    Executes.answers _ _ (Executes.answers _ none (Executes.answers _ none (Executes.returns _)))

abbrev job1 : Tables
job1 = (Jobs.create platform memory 4 7000 (given_job 5 "build") empty).0

abbrev job2 : Tables
job2 = (Jobs.update_status platform memory 8000 4 "running" job1).0

abbrev job3 : Tables
job3 = (Jobs.update_status platform memory 9000 4 "succeeded" job2).0

job_trace-Hosted :
    Hosted platform memory
      (ElsewhereMade platform memory_sql
        (job_rows platform memory_sql)
        (job_record 5 "build")
        (job_event 5 "build")
        job_trace)
      job_trace
      empty
      job3
unfolding Jobs.create Jobs.prepared Jobs.update_status Jobs.status_sets ensure_id set_default_status
    affected_or_error ensure_rows_affected string_eq nat_eq
job_trace-Hosted = (
  empty,
  job1,
  refl,
  (4, 7000, (refl, refl)),
  (job1, job2, refl, (8000, refl), (job2, job3, refl, (9000, refl), refl)),
)

run_stage-RowStored_example :
    RowStored platform memory_sql
      (job_rows platform memory_sql)
      (job_record 5 "build")
      (job_event 5 "build")
      job3
      job_trace
      none
run_stage-RowStored_example =
    run_stage-RowStored 5 "build" platform memory_sql (λ id. ret none) (λ id. tt) empty job3
      job_executed job_trace-Hosted
