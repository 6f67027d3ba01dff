-- ===== src/Tests/Hosting.antt =====
-- A `Run` over the stores in memory: its one stage fails, since the artifacts cannot be listed.
use shipinator.Models.{JobId}
use shipinator.Effects.Stories.{jobs, story}
use shipinator.Orchestrator.Runs.{RunEnds}
use shipinator.Common.{In, refl, ◌<>◌, none, some, [], ◌∷◌, string_eq, nat_eq}
use shipinator.Errors.{Error, wrap, ok, err}
use shipinator.Models.{PipelineRun, Job}
use shipinator.Config.{ShipinatorConfig}
use shipinator.Effects.{Platform, Call, caller, detached}
use shipinator.Effects.Logic.{Trace, event, Executes}
use shipinator.Orchestrator
use shipinator.Orchestrator.{Rounds, Config}
use shipinator.Deployinator
use shipinator.Postgres.Helpers.{
  ensure_id, set_default_status, affected_or_error, ensure_rows_affected,
}
use shipinator.Postgres.Sql.{stored}
use shipinator.Postgres.Sql.Memory.{Tables, put, memory, memory_sql, refusal}
use shipinator.Postgres.PipelineRuns
use shipinator.Postgres.Jobs
use shipinator.Postgres.Artifacts
use shipinator.Hosting.{Hosted}
use shipinator.Hosting.Rows.{Elsewhere}
use shipinator.Hosting.RunJobs.{ElsewhereJobs, JobHeld, run-JobHeld}
use shipinator.Hosting.Runs.{RunStored, run-RunStored}

abbrev pub platform : Platform
platform = record { uuid_string = λ id. "id"; path_join = λ base name. base <> ("/" <> name) }

abbrev pub rounds : Rounds
rounds = record { polls = 3; moves = 40 }

abbrev pub settings : Config
settings = record {
  builder_image = "builder";
  artifact_backend = "nfs";
  artifact_base_path = "/artifacts";
  poll_interval = 0;
}

abbrev pipeline : ShipinatorConfig
pipeline = record {
  build = none;
  test = none;
  deploy = some (record { artifact = "helm_chart"; target = "app"; namespace = "prod" });
}

abbrev pub pipeline_run : PipelineRun
pipeline_run = record {
  id = 5;
  pipeline_id = 2;
  git_ref = "main";
  git_sha = "c0ffee";
  status = "pending";
  created_at = 1000;
  started_at = none;
  finished_at = none;
}

abbrev job : Job
job = record {
  id = 0;
  pipeline_run_id = 5;
  job_type = "deploy";
  name = "deploy";
  status = "";
  created_at = 0;
  started_at = none;
  finished_at = none;
}

abbrev trace : Trace
trace =
    event (Call.run_update_status caller 5 "running") none
    ∷ event (Call.job_create caller job) (ok 9)
    ∷ event (Call.job_update_status caller 9 "running") none
    ∷ event (Call.artifact_list_by_job caller 0) (err refusal)
    ∷ event (Call.job_update_status detached 9 "failed") none
    ∷ event Call.context_err none
    ∷ event (Call.run_update_status detached 5 "failed") none
    ∷ []

abbrev failure : Error
failure = wrap "list build artifacts: %w" [] refusal

executed :
    Executes (Orchestrator.run platform rounds settings 5 pipeline) trace (some (some failure))
unfolding Orchestrator.run Deployinator.run Orchestrator.run_stage
executed = Executes.answers _ none (
    Executes.answers _ _ (
      Executes.answers _ none (
        Executes.answers _ _ (
          Executes.answers _ none
            (Executes.answers _ none (Executes.answers _ none (Executes.returns _)))))))

abbrev db0 : Tables
db0 =
    put "pipeline_runs" 5 (some (stored PipelineRuns.columns (PipelineRuns.values pipeline_run)))
      (λ t id. none)

abbrev db1 : Tables
db1 = (PipelineRuns.update_status platform memory 7000 5 "running" db0).0

abbrev db2 : Tables
db2 = (Jobs.create platform memory 9 8000 job db1).0

abbrev db3 : Tables
db3 = (Jobs.update_status platform memory 8000 9 "running" db2).0

abbrev db4 : Tables
db4 = (Jobs.update_status platform memory 8500 9 "failed" db3).0

abbrev db5 : Tables
db5 = (PipelineRuns.update_status platform memory 9000 5 "failed" db4).0

hosted :
    Hosted platform memory (Elsewhere platform memory_sql "pipeline_runs" (some 5)) trace db0 db5
unfolding PipelineRuns.update_status PipelineRuns.status_sets Jobs.create Jobs.prepared
    Jobs.update_status Jobs.status_sets Artifacts.list_by_job ensure_id set_default_status
    affected_or_error ensure_rows_affected string_eq nat_eq
hosted = (
  db0,
  db1,
  refl,
  (7000, refl),
  (
    db1,
    db2,
    refl,
    (9, 8000, (refl, refl)),
    (
      db2,
      db3,
      refl,
      (8000, refl),
      (
        db3,
        db3,
        refl,
        (refl, refl),
        (
          db3,
          db4,
          refl,
          (8500, refl),
          (db4, db4, refl, refl, (db4, db5, refl, (9000, refl), refl)),
        ),
      ),
    ),
  ),
)

run-RunStored_example :
    RunStored platform memory_sql ("deploy" ∷ []) pipeline_run db5 trace (some failure)
unfolding string_eq nat_eq
run-RunStored_example =
    run-RunStored platform memory_sql rounds settings pipeline pipeline_run db0 db5 executed refl
      hosted

trace-Hosted : Hosted platform memory (ElsewhereJobs platform memory_sql 5 (9 ∷ [])) trace db0 db5
unfolding PipelineRuns.update_status PipelineRuns.status_sets Jobs.create Jobs.prepared
    Jobs.update_status Jobs.status_sets Artifacts.list_by_job ensure_id set_default_status
    affected_or_error ensure_rows_affected string_eq nat_eq
trace-Hosted = (
  db0,
  db1,
  λ i m. refl,
  (7000, refl),
  (
    db1,
    db2,
    λ i m. refl,
    (9, 8000, (refl, refl)),
    (
      db2,
      db3,
      λ i m. refl,
      (8000, refl),
      (
        db3,
        db3,
        λ i m. refl,
        (refl, refl),
        (
          db3,
          db4,
          λ i m. refl,
          (8500, refl),
          (db4, db4, λ i m. refl, refl, (db4, db5, λ i m. refl, (9000, refl), λ i m. refl)),
        ),
      ),
    ),
  ),
)

run-JobHeld_example :
    RunEnds 5 ("deploy" ∷ []) trace (some failure)
    × ((id : JobId) → In id (9 ∷ []) → JobHeld platform memory_sql 5 (story jobs trace) db5 id)
run-JobHeld_example =
    run-JobHeld platform memory_sql 5 rounds settings pipeline db0 db5 executed ((λ i. i), tt)
      trace-Hosted
