-- ===== src/Models.antt =====
-- internal/store/models.go. Instants are numbers of nanoseconds, with 0 for Go's zero time.
use shipinator.Common.{ℕ, String, Option}

-- The 16 bytes of a uuid.UUID as one number; the zero value is 0. The source has a type of its own
-- for the IDs of each entity.
abbrev pub Uuid : Type 0
Uuid = ℕ

abbrev pub ProjectId : Type 0
ProjectId = Uuid

abbrev pub RepositoryId : Type 0
RepositoryId = Uuid

abbrev pub PipelineId : Type 0
PipelineId = Uuid

abbrev pub PipelineRunId : Type 0
PipelineRunId = Uuid

abbrev pub JobId : Type 0
JobId = Uuid

abbrev pub JobStepId : Type 0
JobStepId = Uuid

abbrev pub ArtifactId : Type 0
ArtifactId = Uuid

abbrev pub ExecutionId : Type 0
ExecutionId = Uuid

abbrev pub Time : Type 0
Time = ℕ

abbrev pub job_type_build : String
job_type_build = "build"

abbrev pub job_type_test : String
job_type_test = "test"

abbrev pub job_type_deploy : String
job_type_deploy = "deploy"

pub record Project : Type 0 where
  pub id : ProjectId
  pub name : String
  pub description : Option String
  pub created_at : Time
  pub updated_at : Time

pub record Repository : Type 0 where
  pub id : RepositoryId
  pub project_id : ProjectId
  pub vcs_provider : String
  pub clone_url : String
  pub default_branch : String
  pub created_at : Time
  pub updated_at : Time

pub record Pipeline : Type 0 where
  pub id : PipelineId
  pub repository_id : RepositoryId
  pub name : String
  pub trigger_type : String
  pub created_at : Time
  pub updated_at : Time

pub record PipelineRun : Type 0 where
  pub id : PipelineRunId
  pub pipeline_id : PipelineId
  pub git_ref : String
  pub git_sha : String
  pub status : String
  pub created_at : Time
  pub started_at : Option Time
  pub finished_at : Option Time

pub record Job : Type 0 where
  pub id : JobId
  pub pipeline_run_id : PipelineRunId
  pub job_type : String
  pub name : String
  pub status : String
  pub created_at : Time
  pub started_at : Option Time
  pub finished_at : Option Time

pub record JobStep : Type 0 where
  pub id : JobStepId
  pub job_id : JobId
  pub name : String
  pub execution_order : Option ℕ
  pub parallel_group : Option String
  pub status : String
  pub created_at : Time
  pub started_at : Option Time
  pub finished_at : Option Time

pub record Artifact : Type 0 where
  pub id : ArtifactId
  pub job_id : JobId
  pub artifact_type : String
  pub storage_backend : String
  pub storage_path : String
  pub checksum : Option String
  pub created_at : Time

pub record Execution : Type 0 where
  pub id : ExecutionId
  pub job_step_id : JobStepId
  pub executor_type : String
  pub external_id : String
  pub status : String
  pub submitted_at : Time
  pub completed_at : Option Time
