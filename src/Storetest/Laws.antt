-- ===== src/Storetest/Laws.antt =====
-- The chain over the Postgres stores.
use shipinator.Common.{ℕ, ◌≡◌, refl, ◌∙◌, String, false, none, ◌==◌, string_eq}
use shipinator.Errors.{ok}
use shipinator.Models.{Uuid, Time, Project, Repository, Pipeline, PipelineRun, Job, JobStep}
use shipinator.Effects.{Platform}
use shipinator.Postgres.{Driver}
use shipinator.Postgres.Helpers.{set_default_status}
use shipinator.Postgres.Sql.{Sql}
use shipinator.Postgres.Sql.Frames.{insert-other}
use shipinator.Postgres.Projects
use shipinator.Postgres.Repositories
use shipinator.Postgres.Pipelines
use shipinator.Postgres.PipelineRuns
use shipinator.Postgres.Jobs
use shipinator.Postgres.JobSteps
use shipinator.Postgres.Projects.Laws as ProjectLaws
use shipinator.Postgres.Repositories.Laws as RepositoryLaws
use shipinator.Postgres.Pipelines.Laws as PipelineLaws
use shipinator.Postgres.PipelineRuns.Laws as RunLaws
use shipinator.Postgres.Jobs.Laws as JobLaws
use shipinator.Postgres.JobSteps.Laws as StepLaws
use shipinator.Storetest.Scripts.{Returns, Returns-return, Returns-record_or_error, Returns-then_do}
use shipinator.Storetest.{
  EntityChain, record_or_error, create_entity_chain, test_project, test_repository, test_pipeline,
  test_run, test_job, test_step,
}

-- The rows of the other tables are as they were.
abbrev Kept : {d : Driver} → Sql d → String → d.Db → d.Db → Type 0
Kept sql t db db' =
    (t' : String) (i : Uuid) → (t' == t) ≡ false → sql.row db' t' i ≡ sql.row db t' i

module _ (p : Platform) {d : Driver} (sql : Sql d) (fresh : Uuid) (now : Time) (db : d.Db) where
  project_made :
      (r : Project)
      → Returns
          (record_or_error (Projects.create p d fresh now r db))
          (λ db' a. ProjectLaws.Holds p sql db' a × Kept sql "projects" db db')
  unfolding Projects.create Projects.prepared string_eq
  project_made r = Returns-record_or_error _ (Projects.create p d fresh now r db) (λ h. (
    ProjectLaws.create-Holds p sql fresh now r db h,
    insert-other sql "projects" Projects.columns (Projects.values (Projects.prepared fresh now r))
        (Projects.prepared fresh now r).id db refl,
  ))

  repository_made :
      (r : Repository)
      → Returns (record_or_error (Repositories.create p d fresh now r db)) (λ db' a.
        RepositoryLaws.Holds p sql db' a
        × Kept sql "repositories" db db'
        × (a.project_id ≡ r.project_id))
  unfolding Repositories.create Repositories.prepared string_eq
  repository_made r = Returns-record_or_error _ (Repositories.create p d fresh now r db) (λ h. (
    RepositoryLaws.create-Holds p sql fresh now r db h,
    insert-other sql "repositories" Repositories.columns
        (Repositories.values (Repositories.prepared fresh now r))
        (Repositories.prepared fresh now r).id db refl,
    refl,
  ))

  pipeline_made :
      (r : Pipeline)
      → Returns (record_or_error (Pipelines.create p d fresh now r db)) (λ db' a.
        PipelineLaws.Holds p sql db' a
        × Kept sql "pipelines" db db'
        × (a.repository_id ≡ r.repository_id))
  unfolding Pipelines.create Pipelines.prepared string_eq
  pipeline_made r = Returns-record_or_error _ (Pipelines.create p d fresh now r db) (λ h. (
    PipelineLaws.create-Holds p sql fresh now r db h,
    insert-other sql "pipelines" Pipelines.columns
        (Pipelines.values (Pipelines.prepared fresh now r)) (Pipelines.prepared fresh now r).id db
        refl,
    refl,
  ))

  run_made :
      (r : PipelineRun)
      → Returns (record_or_error (PipelineRuns.create p d fresh now r db)) (λ db' a.
        RunLaws.Holds p sql db' a
        × Kept sql "pipeline_runs" db db'
        × (a.pipeline_id ≡ r.pipeline_id)
        × (a.status ≡ set_default_status r.status "pending"))
  unfolding PipelineRuns.create PipelineRuns.prepared string_eq
  run_made r = Returns-record_or_error _ (PipelineRuns.create p d fresh now r db) (λ h. (
    RunLaws.create-Holds p sql fresh now r db h,
    insert-other sql "pipeline_runs" PipelineRuns.columns
        (PipelineRuns.values (PipelineRuns.prepared fresh now r))
        (PipelineRuns.prepared fresh now r).id db refl,
    refl,
    refl,
  ))

  job_made :
      (r : Job)
      → Returns (record_or_error (Jobs.create p d fresh now r db)) (λ db' a.
        JobLaws.Holds p sql db' a
        × Kept sql "jobs" db db'
        × (a.pipeline_run_id ≡ r.pipeline_run_id)
        × (a.status ≡ set_default_status r.status "pending"))
  unfolding Jobs.create Jobs.prepared string_eq
  job_made r = Returns-record_or_error _ (Jobs.create p d fresh now r db) (λ h. (
    JobLaws.create-Holds p sql fresh now r db h,
    insert-other sql "jobs" Jobs.columns (Jobs.values (Jobs.prepared fresh now r))
        (Jobs.prepared fresh now r).id db refl,
    refl,
    refl,
  ))

  step_made :
      (r : JobStep)
      → Returns (record_or_error (JobSteps.create p d fresh now r db)) (λ db' a.
        StepLaws.Holds p sql db' a
        × Kept sql "job_steps" db db'
        × (a.job_id ≡ r.job_id)
        × (a.status ≡ set_default_status r.status "pending"))
  unfolding JobSteps.create JobSteps.prepared string_eq
  step_made r = Returns-record_or_error _ (JobSteps.create p d fresh now r db) (λ h. (
    StepLaws.create-Holds p sql fresh now r db h,
    insert-other sql "job_steps" JobSteps.columns (JobSteps.values (JobSteps.prepared fresh now r))
        (JobSteps.prepared fresh now r).id db refl,
    refl,
    refl,
  ))

module _ (p : Platform) {d : Driver} (sql : Sql d) where
  -- Every ID of the chain is read back, each record belongs to the one before it, and the statuses
  -- are the first ones.
  abbrev pub IsChain : d.Db → EntityChain → Type 0
  IsChain db c =
      (a : Project) × (r : Repository) × (pl : Pipeline) × (run : PipelineRun) × (j : Job)
      × (step : JobStep) × (Projects.get_by_id p d c.project_id db ≡ ok a)
      × (Repositories.get_by_id p d c.repository_id db ≡ ok r)
      × (Pipelines.get_by_id p d c.pipeline_id db ≡ ok pl)
      × (PipelineRuns.get_by_id p d c.pipeline_run_id db ≡ ok run)
      × (Jobs.get_by_id p d c.job_id db ≡ ok j)
      × (JobSteps.get_by_id p d c.job_step_id db ≡ ok step)
      × (r.project_id ≡ c.project_id)
      × (pl.repository_id ≡ c.repository_id)
      × (run.pipeline_id ≡ c.pipeline_id)
      × (j.pipeline_run_id ≡ c.pipeline_run_id)
      × (step.job_id ≡ c.job_id)
      × (run.status ≡ "pending")
      × (j.status ≡ "pending")
      × (step.status ≡ "pending")

  -- Where `CreateEntityChain` over the Postgres stores returns and the database can then be
  -- reached, each of the six stores reads back the entity of the returned ID; each entity belongs
  -- to the one before it, and the run, the job and the step are pending.
  pub create_entity_chain_lem :
      (suffix : String) (fresh : ℕ → Uuid) (now : ℕ → Time) (db db' : d.Db) (c : EntityChain)
      → create_entity_chain
          (Projects.new_project_store p d)
          (Repositories.new_repository_store p d)
          (Pipelines.new_pipeline_store p d)
          (PipelineRuns.new_pipeline_run_store p d)
          (Jobs.new_job_store p d)
          (JobSteps.new_job_step_store p d)
          suffix
          fresh
          now
          db
        ≡ (db', ok c)
      → sql.fault db' ≡ none
      → IsChain db' c
  unfolding create_entity_chain set_default_status string_eq
  create_entity_chain_lem suffix fresh now db db' c e f =
      Returns-then_do {P = λ db c. sql.fault db ≡ none → IsChain db c} _ _
        (project_made p sql (fresh 0) (now 0) db (test_project suffix))
        (λ db1 a h1.
          Returns-then_do _ _ (repository_made p sql (fresh 1) (now 1) db1 (test_repository a.id))
            (λ db2 r h2.
              Returns-then_do _ _ (pipeline_made p sql (fresh 2) (now 2) db2 (test_pipeline r.id))
                (λ db3 pl h3.
                  Returns-then_do _ _ (run_made p sql (fresh 3) (now 3) db3 (test_run pl.id))
                    (λ db4 run h4.
                      Returns-then_do _ _ (job_made p sql (fresh 4) (now 4) db4 (test_job run.id))
                        (λ db5 j h5.
                          Returns-then_do _ _
                            (step_made p sql (fresh 5) (now 5) db5 (test_step j.id))
                            (λ db6 step h6. Returns-return _ _ db6 (λ f. (
                              ProjectLaws.as_read a,
                              RepositoryLaws.as_read r,
                              PipelineLaws.as_read pl,
                              RunLaws.as_read run,
                              JobLaws.as_read j,
                              StepLaws.as_read step,
                              ProjectLaws.get_by_id-Holds p sql db6 a f (
                                  h6.1 _ _ refl
                                  ∙ (h5.1 _ _ refl
                                      ∙ (h4.1 _ _ refl
                                          ∙ (h3.1 _ _ refl ∙ (h2.1 _ _ refl ∙ h1.0))))),
                              RepositoryLaws.get_by_id-Holds p sql db6 r f (
                                  h6.1 _ _ refl
                                  ∙ (h5.1 _ _ refl ∙ (h4.1 _ _ refl ∙ (h3.1 _ _ refl ∙ h2.0)))),
                              PipelineLaws.get_by_id-Holds p sql db6 pl f
                                  (h6.1 _ _ refl ∙ (h5.1 _ _ refl ∙ (h4.1 _ _ refl ∙ h3.0))),
                              RunLaws.get_by_id-Holds p sql db6 run f
                                  (h6.1 _ _ refl ∙ (h5.1 _ _ refl ∙ h4.0)),
                              JobLaws.get_by_id-Holds p sql db6 j f (h6.1 _ _ refl ∙ h5.0),
                              StepLaws.get_by_id-Holds p sql db6 step f h6.0,
                              h2.2,
                              h3.2,
                              h4.2,
                              h5.2,
                              h6.2,
                              h4.3,
                              h5.3,
                              h6.3,
                            ))))))))
        db' c e f
