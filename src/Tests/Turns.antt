-- ===== src/Tests/Turns.antt =====
-- A pipeline of two test steps that move in turns and fail, its trace and the stores in memory.
use shipinator.Common.{String, none, some, List, [], ◌∷◌, true, string_eq, nat_eq}
use shipinator.Errors.{Error, wrap, ok, err}
use shipinator.Models.{JobStep}
use shipinator.Config.{TestStep, ShipinatorConfig}
use shipinator.Executor.{ExecutionSpec}
use shipinator.Effects.{Call, caller, detached}
use shipinator.Effects.Logic.{Trace, event}
use shipinator.Postgres.Sql.{stored}
use shipinator.Postgres.Sql.Memory.{Tables, put, memory, refusal}
use shipinator.Postgres.PipelineRuns
use shipinator.Postgres.Jobs
use shipinator.Postgres.JobSteps
use shipinator.Hosting.StepRows.{given_step}
use shipinator.Hosting.JobRows.{job_record}
use shipinator.Tests.Hosting.{platform, pipeline_run}

abbrev checks : List TestStep
checks =
    record { name = "unit"; run = "go test"; parallel = true; artifacts = [] }
    ∷ record { name = "lint"; run = "helm lint"; parallel = true; artifacts = [] }
    ∷ []

abbrev pub pipeline : ShipinatorConfig
pipeline = record { build = none; test = some (record { steps = checks }); deploy = none }

abbrev unit : JobStep
unit = given_step 9 "unit" 0 (some "parallel-0")

abbrev lint : JobStep
lint = given_step 9 "lint" 1 (some "parallel-0")

abbrev spec : String → ExecutionSpec
spec run = record {
  image = "builder";
  command = "sh" ∷ "-c" ∷ run ∷ [];
  env = [];
  artifacts = [];
  timeout = 0;
}

abbrev pub failure : Error
failure = wrap "submit step: %w" [] refusal

abbrev pub trace : Trace
trace =
    event (Call.run_update_status caller 5 "running") none
    ∷ event (Call.job_create caller (job_record 5 "test" 0 0 "" none none)) (ok 9)
    ∷ event (Call.job_update_status caller 9 "running") none
    ∷ event (Call.schedule 2) 0
    ∷ event (Call.step_create caller unit) (ok 11)
    ∷ event (Call.schedule 2) 1
    ∷ event (Call.step_create caller lint) (ok 12)
    ∷ event (Call.schedule 2) 1
    ∷ event (Call.step_update_status caller 12 "running") none
    ∷ event (Call.schedule 2) 0
    ∷ event (Call.step_update_status caller 11 "running") none
    ∷ event (Call.schedule 2) 0
    ∷ event (Call.submit caller (spec "go test")) (err refusal)
    ∷ event (Call.schedule 2) 0
    ∷ event (Call.step_update_status detached 11 "failed") none
    ∷ event (Call.schedule 2) 0
    ∷ event (Call.schedule 1) 0
    ∷ event (Call.submit caller (spec "helm lint")) (err refusal)
    ∷ event (Call.schedule 1) 0
    ∷ event (Call.step_update_status detached 12 "failed") none
    ∷ event (Call.schedule 1) 0
    ∷ event (Call.job_update_status detached 9 "failed") none
    ∷ event Call.context_err none
    ∷ event (Call.run_update_status detached 5 "failed") none
    ∷ []

abbrev pub db0 : Tables
db0 =
    put "pipeline_runs" 5 (some (stored PipelineRuns.columns (PipelineRuns.values pipeline_run)))
      (λ t id. none)

abbrev pub db1 : Tables
db1 = (PipelineRuns.update_status platform memory 7000 5 "running" db0).0

abbrev pub db2 : Tables
db2 = (Jobs.create platform memory 9 8000 (job_record 5 "test" 0 0 "" none none) db1).0

abbrev pub db3 : Tables
db3 = (Jobs.update_status platform memory 8000 9 "running" db2).0

abbrev pub db4 : Tables
db4 = (JobSteps.create platform memory 11 8100 unit db3).0

abbrev pub db5 : Tables
db5 = (JobSteps.create platform memory 12 8200 lint db4).0

abbrev pub db6 : Tables
db6 = (JobSteps.update_status platform memory 8300 12 "running" db5).0

abbrev pub db7 : Tables
db7 = (JobSteps.update_status platform memory 8400 11 "running" db6).0

abbrev pub db8 : Tables
db8 = (JobSteps.update_status platform memory 8600 11 "failed" db7).0

abbrev pub db9 : Tables
db9 = (JobSteps.update_status platform memory 8700 12 "failed" db8).0

abbrev pub db10 : Tables
db10 = (Jobs.update_status platform memory 8800 9 "failed" db9).0

abbrev pub db11 : Tables
db11 = (PipelineRuns.update_status platform memory 9000 5 "failed" db10).0
