-- ===== src/Storetest.antt =====
-- internal/store/storetest/helpers.go, over the interfaces of the stores. `t.Fatalf` ends the
-- helper, with the rows made so far left in the database.
pub mod Scripts
pub mod TestPool
pub mod Laws
use shipinator.Common.{ℕ, String, ◌<>◌, Option, none, some, ◌==◌, string_eq, if◌then◌else◌}
use shipinator.Errors.{Error, Result, ok, err}
use shipinator.Models.{
  Uuid, Time, Project, Repository, Pipeline, PipelineRun, Job, JobStep, ProjectId, RepositoryId,
  PipelineId, PipelineRunId, JobId, JobStepId,
}
use shipinator.Stores.{
  ProjectStore, RepositoryStore, PipelineStore, PipelineRunStore, JobStore, JobStepStore,
}

pub record EntityChain : Type 0 where
  pub project_id : ProjectId
  pub repository_id : RepositoryId
  pub pipeline_id : PipelineId
  pub pipeline_run_id : PipelineRunId
  pub job_id : JobId
  pub job_step_id : JobStepId

-- Calls on a database, one after the other, up to the first error.
abbrev pub Script {ℓ} : Type ℓ → Type ℓ → Type ℓ
Script Db A = Db → Db × Result A

module _ {ℓ} {Db : Type ℓ} where
  abbrev pub then_do : {A B : Type ℓ} → (A → Script Db B) → Db × Result A → Db × Result B
  then_do f (db, ok a) = f a db
  then_do f (db, err e) = (db, err e)

  infixl 5 ◌>>=◌
  abbrev pub ◌>>=◌ : {A B : Type ℓ} → Script Db A → (A → Script Db B) → Script Db B
  (m >>= f) db = then_do f (m db)

  abbrev pub return : {A : Type ℓ} → A → Script Db A
  return a db = (db, ok a)

  -- A `Create` whose error is fatal, and the record as the caller then has it.
  abbrev pub record_or_error : {A : Type ℓ} → Db × A × Option Error → Db × Result A
  record_or_error (db, a, none) = (db, ok a)
  record_or_error (db, a, some e) = (db, err e)

  abbrev pub must : {A : Type ℓ} → (Db → Db × A × Option Error) → Script Db A
  must create db = record_or_error (create db)

-- The records that the helper makes, with the fields that it leaves zero.
abbrev pub test_project : String → Project
test_project suffix = record {
  id = 0;
  name = "test-project-" <> suffix;
  description = none;
  created_at = 0;
  updated_at = 0;
}

abbrev pub test_repository : ProjectId → Repository
test_repository project = record {
  id = 0;
  project_id = project;
  vcs_provider = "git";
  clone_url = "https://example.com/repo.git";
  default_branch = "main";
  created_at = 0;
  updated_at = 0;
}

abbrev pub test_pipeline : RepositoryId → Pipeline
test_pipeline repository = record {
  id = 0;
  repository_id = repository;
  name = "test-pipeline";
  trigger_type = "push";
  created_at = 0;
  updated_at = 0;
}

abbrev pub test_run : PipelineId → PipelineRun
test_run pipeline = record {
  id = 0;
  pipeline_id = pipeline;
  git_ref = "refs/heads/main";
  git_sha = "abc123def456";
  status = "";
  created_at = 0;
  started_at = none;
  finished_at = none;
}

abbrev pub test_job : PipelineRunId → Job
test_job run = record {
  id = 0;
  pipeline_run_id = run;
  job_type = "build";
  name = "test-job";
  status = "";
  created_at = 0;
  started_at = none;
  finished_at = none;
}

abbrev pub test_step : JobId → JobStep
test_step job = record {
  id = 0;
  job_id = job;
  name = "test-step";
  execution_order = none;
  parallel_group = none;
  status = "";
  created_at = 0;
  started_at = none;
  finished_at = none;
}

module _ {Db : Type 0} (projects : ProjectStore Db) (repositories : RepositoryStore Db)
    (pipelines : PipelineStore Db) (runs : PipelineRunStore Db) (jobs : JobStore Db)
    (steps : JobStepStore Db) where
  -- `suffix` is the start of a UUID's text, and `fresh` and `now` are what the calls of each store
  -- have of `uuid.New()` and `time.Now()`.
  unfoldable pub create_entity_chain :
      String → (fresh : ℕ → Uuid) (now : ℕ → Time) → Script Db EntityChain
  create_entity_chain suffix fresh now = do
    p ← must (projects.create (fresh 0) (now 0) (test_project suffix))
    r ← must (repositories.create (fresh 1) (now 1) (test_repository p.id))
    pl ← must (pipelines.create (fresh 2) (now 2) (test_pipeline r.id))
    run ← must (runs.create (fresh 3) (now 3) (test_run pl.id))
    j ← must (jobs.create (fresh 4) (now 4) (test_job run.id))
    step ← must (steps.create (fresh 5) (now 5) (test_step j.id))
    return (record {
      project_id = p.id;
      repository_id = r.id;
      pipeline_id = pl.id;
      pipeline_run_id = run.id;
      job_id = j.id;
      job_step_id = step.id;
    })
