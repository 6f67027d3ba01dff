-- ===== src/Hosting.antt =====
-- The orchestrator over the Postgres stores: its calls of internal/store/store.go answered by the
-- methods of internal/store/postgres.
pub mod Frames
pub mod Rows
pub mod Kinds
pub mod Keeps
pub mod Lives
pub mod StepRows
pub mod JobRows
pub mod JobLives
pub mod RunJobs
pub mod StepFits
pub mod StepPools
pub mod StepLives
pub mod StepHolds
pub mod StepEnds
pub mod RunSteps
pub mod Deploys
pub mod Runs
use shipinator.Common.{◌≡◌, Option, none, some, List, [], ◌∷◌}
use shipinator.Errors.{Error, Result, ok, err}
use shipinator.Models.{Uuid, Time}
use shipinator.Stores.{PipelineRunStore, JobStore, JobStepStore, ExecutionStore, ArtifactStore}
use shipinator.Effects.{Platform, Call, Reply}
use shipinator.Effects.Logic.{Trace, event}
use shipinator.Postgres.{Driver}
use shipinator.Postgres.Helpers
use shipinator.Postgres.PipelineRuns
use shipinator.Postgres.Jobs
use shipinator.Postgres.JobSteps
use shipinator.Postgres.Executions
use shipinator.Postgres.Artifacts

-- What the caller of a `Create` has: the ID that it left in the record, or the error.
abbrev pub id_or_error : Uuid → Option Error → Result Uuid
id_or_error id none = ok id
id_or_error id (some e) = err e

-- The stores that `New` of the orchestrator takes.
pub record Stores (Db : Type 0) : Type 0 where
  pub runs : PipelineRunStore Db
  pub jobs : JobStore Db
  pub steps : JobStepStore Db
  pub executions : ExecutionStore Db
  pub artifacts : ArtifactStore Db

-- Those of internal/store/postgres on one pool.
abbrev pub postgres_stores : Platform → (d : Driver) → Stores d.Db
postgres_stores p d = record {
  runs = PipelineRuns.new_pipeline_run_store p d;
  jobs = Jobs.new_job_store p d;
  steps = JobSteps.new_job_step_store p d;
  executions = Executions.new_execution_store p d;
  artifacts = Artifacts.new_artifact_store p d;
}

-- `r` is the answer of the store to `c` in `db`, which becomes `db'`, for some instant and some
-- fresh ID. A call that is not of a store leaves the database.
abbrev pub Answers : {Db : Type 0} → Stores Db → (c : Call) → Reply c → Db → Db → Type 0
Answers stores (Call.run_update_status _ id s) r db db' =
    (now : Time) × (stores.runs.update_status now id s db ≡ (db', r))
Answers stores (Call.job_create _ j) r db db' =
    (fresh : Uuid) × (now : Time) × let x = stores.jobs.create fresh now j db in
      (db' ≡ x.0) × (r ≡ id_or_error x.1.id x.2)
Answers stores (Call.job_update_status _ id s) r db db' =
    (now : Time) × (stores.jobs.update_status now id s db ≡ (db', r))
Answers stores (Call.step_create _ s) r db db' =
    (fresh : Uuid) × (now : Time) × let x = stores.steps.create fresh now s db in
      (db' ≡ x.0) × (r ≡ id_or_error x.1.id x.2)
Answers stores (Call.step_update_status _ id s) r db db' =
    (now : Time) × (stores.steps.update_status now id s db ≡ (db', r))
Answers stores (Call.execution_create _ e) r db db' =
    (fresh : Uuid) × (now : Time) × let x = stores.executions.create fresh now e db in
      (db' ≡ x.0) × (r ≡ id_or_error x.1.id x.2)
Answers stores (Call.execution_update_status _ id s) r db db' =
    (now : Time) × (stores.executions.update_status now id s db ≡ (db', r))
Answers stores (Call.artifact_create _ a) r db db' =
    (fresh : Uuid) × (now : Time) × let x = stores.artifacts.create fresh now a db in
      (db' ≡ x.0) × (r ≡ x.2)
Answers stores (Call.artifact_list_by_job _ id) r db db' =
    (db' ≡ db) × (r ≡ stores.artifacts.list_by_job id db)
Answers stores _ r db db' = db' ≡ db

-- The calls of a trace, answered in turn by the stores from one state of the database to another.
-- Between two of them other clients may do what `Elsewhere` allows.
abbrev pub Hosted : Platform → (d : Driver) → (d.Db → d.Db → Type 0) → Trace → d.Db → d.Db → Type 0
Hosted p d Elsewhere [] db db' = Elsewhere db db'
Hosted p d Elsewhere (event c r ∷ t) db db' =
    (before after : d.Db) × Elsewhere db before
    × Answers (postgres_stores p d) c r before after
    × Hosted p d Elsewhere t after db'
