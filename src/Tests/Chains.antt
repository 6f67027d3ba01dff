-- ===== src/Tests/Chains.antt =====
-- The theorem about the chain of test entities, over a database in memory.
use shipinator.Common.{suc, refl, string_eq, nat_eq, ◌+◌}
use shipinator.Postgres.Sql.Memory.{Tables, memory, memory_sql}
use shipinator.Postgres.Helpers.{ensure_id, set_default_status}
use shipinator.Postgres.Projects
use shipinator.Postgres.Repositories
use shipinator.Postgres.Pipelines
use shipinator.Postgres.PipelineRuns
use shipinator.Postgres.Jobs
use shipinator.Postgres.JobSteps
use shipinator.Storetest.{EntityChain, create_entity_chain}
use shipinator.Storetest.Laws.{IsChain, create_entity_chain_lem}
use shipinator.Tests.Stores.{platform, empty}

abbrev chain : EntityChain
chain = record {
  project_id = 1;
  repository_id = 2;
  pipeline_id = 3;
  pipeline_run_id = 4;
  job_id = 5;
  job_step_id = 6;
}

abbrev seeded : Tables
unfolding create_entity_chain
seeded =
    (create_entity_chain (Projects.new_project_store platform memory)
      (Repositories.new_repository_store platform memory)
      (Pipelines.new_pipeline_store platform memory)
      (PipelineRuns.new_pipeline_run_store platform memory) (Jobs.new_job_store platform memory)
      (JobSteps.new_job_step_store platform memory) "1a2b3c4d" suc (λ n. 1000 + n) empty).0

create_entity_chain_lem_example : IsChain platform memory_sql seeded chain
unfolding create_entity_chain Projects.create Projects.prepared Repositories.create
    Repositories.prepared Pipelines.create Pipelines.prepared PipelineRuns.create
    PipelineRuns.prepared Jobs.create Jobs.prepared JobSteps.create JobSteps.prepared ensure_id
    set_default_status string_eq nat_eq
create_entity_chain_lem_example =
    create_entity_chain_lem platform memory_sql "1a2b3c4d" suc (λ n. 1000 + n) empty seeded chain
      refl refl
