-- ===== src/Tests/Runs.antt =====
-- The orchestrator's theorems at a small configuration.
use shipinator.Common.{◌≤◌, arith, ◌≡◌, ◌<>◌, none, some, [], ◌∷◌, map, All, true}
use shipinator.Errors.{errorf}
use shipinator.Config.{ShipinatorConfig}
use shipinator.Executor.{ExecutionSpec, ExecutionHandle}
use shipinator.Fsm.{state_pending, run_validate_transition}
use shipinator.Fsm.Paths.{Follows}
use shipinator.Effects.{Platform, ret, Call, tick, caller}
use shipinator.Errors.{ok, err}
use shipinator.Effects.Logic.{event, Executes, Ensures}
use shipinator.Effects.Logs.{step_log, job_log, run_log, phases, recorded, cancels, ticks}
use shipinator.Orchestrator.{Rounds, Config, poll, run_step, run_stage, execute_stages, run}
use shipinator.Orchestrator.Poll.{
  PollEnds, IsOpen, interruptions, poll-PollEnds, poll-recorded, poll_returns,
}
use shipinator.Orchestrator.Lifecycle.{Lifecycle, statuses}
use shipinator.Orchestrator.Steps.{StepOnly, run_step-Lifecycle}
use shipinator.Orchestrator.Stages.{
  JobsOnly, StageRuns, run_stage-Lifecycle, execute_stages-StageRuns,
}
use shipinator.Orchestrator.Artifacts.{RunArtifacts, run-RunArtifacts}
use shipinator.Orchestrator.Patience.{run_returns}
use shipinator.Buildinator
use shipinator.Orchestrator.Runs.{RunEnds, run-RunEnds, run-Follows}

abbrev platform : Platform
platform = record { uuid_string = λ id. "id"; path_join = λ base name. base <> ("/" <> name) }

abbrev rounds : Rounds
rounds = record { polls = 3; moves = 40 }

abbrev settings : Config
settings = record {
  builder_image = "builder";
  artifact_backend = "nfs";
  artifact_base_path = "/artifacts";
  poll_interval = 0;
}

abbrev spec : ExecutionSpec
spec = record {
  image = "builder";
  command = "sh" ∷ "-c" ∷ "make" ∷ [];
  env = [];
  artifacts = [];
  timeout = 0;
}

abbrev handle : ExecutionHandle
handle = record { id = "shipinator-1" }

abbrev pipeline : ShipinatorConfig
pipeline = record {
  build = some (record {
    steps =
        record {
          name = "chart";
          run = "make chart";
          outputs = record { type = "helm_chart"; path = "c.tgz"; ref = "" } ∷ [];
        }
        ∷ [];
  });
  test = some (record {
    steps =
        record { name = "unit"; run = "go test"; parallel = true; artifacts = [] }
        ∷ record { name = "lint"; run = "helm lint"; parallel = true; artifacts = [] }
        ∷ [];
  });
  deploy = some (record { artifact = "helm_chart"; target = "app"; namespace = "prod" });
}

poll-PollEnds_example :
    Ensures (poll 3 7 handle) (λ t result. PollEnds handle (phases t) (cancels t) result)
poll-PollEnds_example = poll-PollEnds 3 7 handle

poll-recorded_example :
    Ensures (poll 3 7 handle) (λ t _. recorded t ≡ map (λ phase. (7, phase)) (phases t))
poll-recorded_example = poll-recorded 3 7 handle

poll_returns_example :
    let t = event Call.select tick ∷ event (Call.status caller handle) (err (errorf "" [])) ∷ [] in
    (ticks t ≡ 1) × All IsOpen (phases t) × (interruptions t ≡ [])
unfolding poll
poll_returns_example = poll_returns 1 7 handle (
    Executes.answers Call.select tick
      (Executes.answers (Call.status caller handle) (err (errorf "" [])) Executes.hangs))

run_step-Lifecycle_example :
    Ensures
      (run_step rounds 4 "unit" 0 none spec)
      (λ t result. Lifecycle "unit" (step_log t) result × StepOnly t)
run_step-Lifecycle_example = run_step-Lifecycle rounds 4 "unit" 0 none spec

run_stage-Lifecycle_example :
    Ensures
      (run_stage 9 "test" (λ _. ret none))
      (λ t (_, result). Lifecycle "test" (job_log t) result × JobsOnly t)
run_stage-Lifecycle_example = run_stage-Lifecycle "test" (λ _. ret none) (λ _. tt) 9

execute_stages-StageRuns_example :
    Ensures
      (execute_stages platform rounds settings 9 pipeline)
      (λ t result. StageRuns ("build" ∷ "test" ∷ "deploy" ∷ []) (job_log t) result × JobsOnly t)
execute_stages-StageRuns_example = execute_stages-StageRuns platform rounds settings 9 pipeline

run-RunEnds_example :
    Ensures
      (run platform rounds settings 9 pipeline)
      (λ t result. RunEnds 9 ("build" ∷ "test" ∷ "deploy" ∷ []) t result)
run-RunEnds_example = run-RunEnds platform rounds settings 9 pipeline

run-Follows_example :
    Ensures
      (run platform rounds settings 9 pipeline)
      (λ t _. Follows run_validate_transition state_pending (statuses (run_log t)))
run-Follows_example = run-Follows platform rounds settings 9 pipeline

run-RunArtifacts_example :
    Ensures
      (run platform rounds settings 9 pipeline)
      (λ t r. RunArtifacts platform rounds settings pipeline.build t r)
run-RunArtifacts_example = run-RunArtifacts platform rounds settings 9 pipeline

-- A run whose first poll has one round and does not get to know the status.
abbrev one_round : Rounds
one_round = record { polls = 1; moves = 40 }

run_returns_example : 1 ≤ 1
unfolding run run_stage Buildinator.run run_step poll
run_returns_example = run_returns one_round platform settings 9 pipeline (omega arith) (
    Executes.answers _ none (
      Executes.answers _ (ok 3) (
        Executes.answers _ none (
          Executes.answers _ 6 (
            Executes.answers _ (ok 4) (
              Executes.answers _ none (
                Executes.answers _ (ok handle) (
                  Executes.answers _ (ok 5) (
                    Executes.answers _ tick
                      (Executes.answers _ (err (errorf "" [])) Executes.hangs))))))))))
