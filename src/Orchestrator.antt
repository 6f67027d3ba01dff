-- ===== src/Orchestrator.antt =====
-- internal/orchestrator/orchestrator.go, without its log lines.
pub mod Poll
pub mod Lifecycle
pub mod Steps
pub mod StepCalls
pub mod BatchCalls
pub mod StageCalls
pub mod Inner
pub mod Stages
pub mod Runs
pub mod Artifacts
pub mod Patience
use shipinator.Common.{
  ℕ, zero, suc, String, Option, none, some, List, [], ◌∷◌, ◌==◌, string_eq, nat_eq, not,
  if◌then◌else◌,
}
use shipinator.Errors.{Error, errorf, wrap}
use shipinator.Models.{
  PipelineRunId, JobId, JobStepId, ExecutionId, Job, job_type_build, job_type_test, job_type_deploy,
}
use shipinator.Config.{BuildConfig, TestConfig, DeployConfig, ShipinatorConfig}
use shipinator.Fsm.{
  StageState, PipelineRunState, state_running, state_success, state_failed, state_canceled,
  state_succeeded,
}
use shipinator.Executor.{
  ExecutionSpec, ExecutionHandle, ExecutionStatus, phase_pending, phase_succeeded, is_terminal,
}
use shipinator.Effects.{
  Context, caller, detached, background, Call, Ready, done, tick, Prog, ret, call, hang, ◌>>=◌, ask,
  check, given, Platform,
}
use shipinator.Errors.{Result, ok, err}
use shipinator.Buildinator
use shipinator.Buildinator.{Buildinator}
use shipinator.Testinator
use shipinator.Testinator.{Testinator}
use shipinator.Deployinator
use shipinator.Deployinator.{Deployinator}

-- What is passed to `New`, less the stores and the executor, which answer the calls. The interval
-- is in nanoseconds; a negative one, at which `time.NewTicker` panics, is left out.
pub record Config : Type 0 where
  pub builder_image : String
  pub poll_interval : ℕ
  pub artifact_backend : String
  pub artifact_base_path : String

-- Fuel: how often a poll may select, and how many moves the goroutines of a batch may make.
pub record Rounds : Type 0 where
  pub polls : ℕ
  pub moves : ℕ

-- The status that ends a job or a step.
unfoldable pub final_stage_state : Option Error → StageState
final_stage_state none = state_succeeded
final_stage_state (some _) = state_failed

-- The switch of `Run`, on `ctx.Err()` and the error of the stages.
unfoldable pub final_run_state : Option Error → Option Error → PipelineRunState
final_run_state (some _) run_err = state_canceled
final_run_state none (some _) = state_failed
final_run_state none none = state_success

-- The part of `poll` that is reached once a status has come in and is terminal.
unfoldable pub finished : ExecutionHandle → ExecutionStatus → Option Error
finished handle status =
    if status.phase == phase_succeeded
    then none
    else some (errorf "execution %s: phase=%s" (handle.id ∷ status.phase ∷ []))

-- The `for` of `poll`.
unfoldable pub poll : ℕ → ExecutionId → ExecutionHandle → Prog (Option Error)
unfolding is_terminal finished
poll zero exec_id handle = hang
poll (suc fuel) exec_id handle =
    let again = poll fuel exec_id handle in
    call Call.select elim [
      | done e ↦ call (Call.cancel background handle) (λ _. ret (some e))
      | tick ↦ call (Call.status caller handle) elim [
        | err _ ↦ again
        | ok status ↦
            call (Call.execution_update_status caller exec_id status.phase)
              (λ _. if not (is_terminal status) then again else ret (finished handle status))
      ]
    ]

module _ (rounds : Rounds) where
  unfoldable pub execute_and_poll : JobStepId → ExecutionSpec → Prog (Option Error)
  unfolding poll
  execute_and_poll step_id spec = do
    submitted ← ask (Call.submit caller spec)
    given submitted (λ e. some (wrap "submit step: %w" [] e))
        λ handle. do
          recorded ← ask (
              Call.execution_create caller (record {
                id = 0;
                job_step_id = step_id;
                executor_type = "kubernetes";
                external_id = handle.id;
                status = phase_pending;
                submitted_at = 0;
                completed_at = none;
              }))
          given recorded (λ e. some (wrap "record execution: %w" [] e))
              (λ exec_id. poll rounds.polls exec_id handle)

  -- `runStep` from the creation of the step's record on.
  unfoldable pub step_created : String → ExecutionSpec → JobStepId → Prog (Option Error)
  unfolding execute_and_poll final_stage_state
  step_created name spec step_id = do
    started ← ask (Call.step_update_status caller step_id state_running)
    check started (λ e. some (wrap "start step %q: %w" (name ∷ []) e))
        do
          step_err ← execute_and_poll step_id spec
          _ ← ask (Call.step_update_status detached step_id (final_stage_state step_err))
          ret step_err

  unfoldable pub run_step : JobId → String → ℕ → Option String → ExecutionSpec → Prog (Option Error)
  unfolding step_created
  run_step job_id name order parallel_group spec = do
    created ← ask (
        Call.step_create caller (record {
          id = 0;
          job_id = job_id;
          name = name;
          execution_order = some order;
          parallel_group = parallel_group;
          status = "";
          created_at = 0;
          started_at = none;
          finished_at = none;
        }))
    given created (λ e. some (wrap "create step %q: %w" (name ∷ []) e)) (step_created name spec)

-- `runStage` from the creation of the job's record on.
unfoldable pub job_created :
    String → (JobId → Prog (Option Error)) → JobId → Prog (JobId × Option Error)
unfolding final_stage_state
job_created job_type fn job_id = do
  started ← ask (Call.job_update_status caller job_id state_running)
  check started (λ e. (0, some (wrap "start %s job: %w" (job_type ∷ []) e)))
      do
        stage_err ← fn job_id
        _ ← ask (Call.job_update_status detached job_id (final_stage_state stage_err))
        ret (job_id, stage_err)

unfoldable pub run_stage :
    PipelineRunId → String → (JobId → Prog (Option Error)) → Prog (JobId × Option Error)
unfolding job_created
run_stage run_id job_type fn = do
  created ← ask (
      Call.job_create caller (record {
        id = 0;
        pipeline_run_id = run_id;
        job_type = job_type;
        name = job_type;
        status = "";
        created_at = 0;
        started_at = none;
        finished_at = none;
      }))
  given created (λ e. (0, some (wrap "create %s job: %w" (job_type ∷ []) e)))
      (job_created job_type fn)

-- The subsystems that `New` makes, and the interval: time that passes before a tick, of which the
-- calls see nothing else.
pub record Orchestrator : Type 0 where
  pub build : Buildinator
  pub test : Testinator
  pub deploy : Deployinator
  pub poll_interval : ℕ

-- 5 seconds.
abbrev pub default_poll_interval : ℕ
default_poll_interval = 5000000000

abbrev pub interval_or_default : ℕ → ℕ
interval_or_default pi = if pi == 0 then default_poll_interval else pi

abbrev pub new : Rounds → Config → Orchestrator
new rounds config = record {
  build =
      Buildinator.new (run_step rounds) config.artifact_backend config.artifact_base_path
        config.builder_image;
  test = Testinator.new (run_step rounds) config.builder_image;
  deploy = Deployinator.new (run_step rounds) config.builder_image;
  poll_interval = interval_or_default config.poll_interval;
}

module _ (p : Platform) (rounds : Rounds) (config : Config) where
  unfoldable pub build : Buildinator
  build = (new rounds config).build

  unfoldable pub test : Testinator
  test = (new rounds config).test

  unfoldable pub deploy : Deployinator
  deploy = (new rounds config).deploy

  -- The three parts of `executeStages`. A stage that is not configured leaves the zero job ID.
  unfoldable pub build_stage : PipelineRunId → Option BuildConfig → Prog (JobId × Option Error)
  unfolding build
  build_stage run_id none = ret (0, none)
  build_stage run_id (some cfg) =
      run_stage run_id job_type_build (λ job_id. Buildinator.run p build job_id cfg.steps)

  unfoldable pub test_stage : PipelineRunId → Option TestConfig → Prog (JobId × Option Error)
  unfolding test
  test_stage run_id none = ret (0, none)
  test_stage run_id (some cfg) =
      run_stage run_id job_type_test (λ job_id. Testinator.run rounds.moves test job_id cfg.steps)

  unfoldable pub deploy_stage :
      PipelineRunId → JobId → Option DeployConfig → Prog (JobId × Option Error)
  unfolding deploy
  deploy_stage run_id build_job_id none = ret (0, none)
  deploy_stage run_id build_job_id (some cfg) =
      run_stage run_id job_type_deploy (λ job_id. Deployinator.run p deploy job_id build_job_id cfg)

  unfoldable pub execute_stages : PipelineRunId → ShipinatorConfig → Prog (Option Error)
  unfolding build_stage test_stage deploy_stage
  execute_stages run_id cfg = do
    built ← build_stage run_id cfg.build
    check built.1 some do
      tested ← test_stage run_id cfg.test
      check tested.1 some
          do deployed ← deploy_stage run_id built.0 cfg.deploy; check deployed.1 some (ret none)

  unfoldable pub run : PipelineRunId → ShipinatorConfig → Prog (Option Error)
  unfolding execute_stages final_run_state
  run run_id cfg = do
    started ← ask (Call.run_update_status caller run_id state_running)
    check started (λ e. some (wrap "start pipeline run: %w" [] e))
        do
          run_err ← execute_stages run_id cfg
          cancelled ← ask Call.context_err
          _ ← ask (Call.run_update_status detached run_id (final_run_state cancelled run_err))
          ret run_err
