-- ===== src/Stores.antt =====
-- internal/store/store.go: what a client has of the stores, over the states of their database. A
-- method that calls `uuid.New()` or `time.Now()` has the answer as an argument, and one that writes
-- to the record of its caller returns it.
use shipinator.Common.{String, Option, List}
use shipinator.Errors.{Error, Result}
use shipinator.Models.{
  Uuid, Time, Project, Repository, Pipeline, PipelineRun, Job, JobStep, Artifact, Execution,
}

pub record ProjectStore (Db : Type 0) : Type 0 where
  pub create : Uuid → Time → Project → Db → Db × Project × Option Error
  pub get_by_id : Uuid → Db → Result Project
  pub get_by_name : String → Db → Result Project
  pub list : Db → Result (List Project)
  pub modify : Time → Project → Db → Db × Project × Option Error
  pub remove : Uuid → Db → Db × Option Error

pub record RepositoryStore (Db : Type 0) : Type 0 where
  pub create : Uuid → Time → Repository → Db → Db × Repository × Option Error
  pub get_by_id : Uuid → Db → Result Repository
  pub list_by_project : Uuid → Db → Result (List Repository)
  pub modify : Time → Repository → Db → Db × Repository × Option Error
  pub remove : Uuid → Db → Db × Option Error

pub record PipelineStore (Db : Type 0) : Type 0 where
  pub create : Uuid → Time → Pipeline → Db → Db × Pipeline × Option Error
  pub get_by_id : Uuid → Db → Result Pipeline
  pub list_by_repository : Uuid → Db → Result (List Pipeline)
  pub modify : Time → Pipeline → Db → Db × Pipeline × Option Error
  pub remove : Uuid → Db → Db × Option Error

pub record PipelineRunStore (Db : Type 0) : Type 0 where
  pub create : Uuid → Time → PipelineRun → Db → Db × PipelineRun × Option Error
  pub get_by_id : Uuid → Db → Result PipelineRun
  pub list_by_pipeline : Uuid → Db → Result (List PipelineRun)
  pub list_by_status : String → Db → Result (List PipelineRun)
  pub update_status : Time → Uuid → String → Db → Db × Option Error

pub record JobStore (Db : Type 0) : Type 0 where
  pub create : Uuid → Time → Job → Db → Db × Job × Option Error
  pub get_by_id : Uuid → Db → Result Job
  pub list_by_pipeline_run : Uuid → Db → Result (List Job)
  pub update_status : Time → Uuid → String → Db → Db × Option Error

pub record JobStepStore (Db : Type 0) : Type 0 where
  pub create : Uuid → Time → JobStep → Db → Db × JobStep × Option Error
  pub get_by_id : Uuid → Db → Result JobStep
  pub list_by_job : Uuid → Db → Result (List JobStep)
  pub update_status : Time → Uuid → String → Db → Db × Option Error

pub record ArtifactStore (Db : Type 0) : Type 0 where
  pub create : Uuid → Time → Artifact → Db → Db × Artifact × Option Error
  pub get_by_id : Uuid → Db → Result Artifact
  pub list_by_job : Uuid → Db → Result (List Artifact)

pub record ExecutionStore (Db : Type 0) : Type 0 where
  pub create : Uuid → Time → Execution → Db → Db × Execution × Option Error
  pub get_by_id : Uuid → Db → Result Execution
  pub list_by_job_step : Uuid → Db → Result (List Execution)
  pub update_status : Time → Uuid → String → Db → Db × Option Error
