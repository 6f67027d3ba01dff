-- ===== src/Hosting/StepLives.antt =====
-- A `Run` brings each of its steps from its making to its end.
use shipinator.Common.{ℕ, ◌≡◌, ◌≢◌, refl, sym, ap, inr, String, Option, none, some, length, arith}
use shipinator.Errors.{ok, err, ok-injective}
use shipinator.Models.{Uuid, PipelineRunId, JobId, JobStepId}
use shipinator.Config.{BuildConfig, TestConfig, DeployConfig, ShipinatorConfig}
use shipinator.Executor.{ExecutionSpec}
use shipinator.Effects.{Platform}
use shipinator.Effects.Judgements.{checks, only_judgement}
use shipinator.Orchestrator.{
  Rounds, Config, execute_and_poll, step_created, run_step, build, test, deploy, build_stage,
  test_stage, deploy_stage, execute_stages, run,
}
use shipinator.Orchestrator.StepCalls.{PollCalls, poll-Only, execute_and_poll-J}
use shipinator.Orchestrator.StageCalls.{StepJ, build-J, test-J, deploy-J, run_stage-J}
use shipinator.Effects.Only.{Only}
use shipinator.Hosting.StepFits.{
  outside, pending, IsStill, Fits, Fits-bind, Only-Fits, working-Fits, fitting,
}
use shipinator.Hosting.StepPools.{run_parallel-Fits}

abbrev still_calls : PollCalls IsStill
still_calls = record {
  execution_create = λ c e. tt;
  execution_update_status = λ c id s. tt;
  submit = λ c s. tt;
  status = λ c h. tt;
  cancel = λ c h. tt;
  select = tt;
}

module _ (i : Uuid) (rounds : Rounds) where
  execute_and_poll-IsStill :
      (id : JobStepId) (spec : ExecutionSpec) → Only IsStill (execute_and_poll rounds id spec)
  execute_and_poll-IsStill =
      execute_and_poll-J (only_judgement IsStill) rounds
        (poll-Only IsStill still_calls rounds.polls) still_calls

  own-Fits :
      (job_id : JobId) (name : String) (order : ℕ) (group : Option String) (spec : ExecutionSpec)
      (id : JobStepId)
      → id ≡ i
      → Fits rounds i outside (step_created rounds name spec id) (pending job_id name order group)
  unfolding step_created
  own-Fits job_id name order group spec id e r = inr (
    e,
    refl,
    (λ q. (
      spec,
      rw q (
          working-Fits rounds i (execute_and_poll rounds id spec) _ job_id name order group outside
            (execute_and_poll-IsStill id spec) (λ result r. inr (e, result, refl, refl, refl))),
    )),
    (λ x q. rw q refl),
  )

  other-Fits :
      (name : String) (spec : ExecutionSpec) (id : JobStepId)
      → i ≢ id
      → Fits rounds i outside (step_created rounds name spec id) outside
  unfolding step_created
  other-Fits name spec id n = elim [
    | some x ↦ (n, refl)
    | none ↦ (
      n,
      Fits-bind rounds i (execute_and_poll rounds id spec) _ outside outside outside
          (Only-Fits rounds i (execute_and_poll rounds id spec) outside
            (execute_and_poll-IsStill id spec))
          (λ result r. (n, refl)),
    )
  ]

  run_step-Fits : StepJ (fitting rounds i) (run_step rounds)
  unfolding run_step
  run_step-Fits job_id name order group spec = elim [
    | err e ↦ ((λ q. cc), λ n. refl)
    | ok id ↦ (
      (λ q. (
        job_id,
        name,
        order,
        group,
        refl,
        own-Fits job_id name order group spec id (ok-injective q),
      )),
      (λ n. other-Fits name spec id (λ e. n (ap ok (sym e)))),
    )
  ]

  module _ (p : Platform) (config : Config) (run_id : PipelineRunId) where
    build_stage-Fits :
        (cfg : Option BuildConfig)
        → Fits rounds i outside (build_stage p rounds config run_id cfg) outside
    unfolding build_stage build
    build_stage-Fits none = refl
    build_stage-Fits (some cfg) =
        run_stage-J (fitting rounds i) (λ c j. tt) (λ c id s. tt) run_id _ _
          (λ id.
            build-J (fitting rounds i) tt (λ c a. tt) p (build p rounds config) run_step-Fits id
              cfg.steps)

    test_stage-Fits :
        (cfg : Option TestConfig)
        → Fits rounds i outside (test_stage p rounds config run_id cfg) outside
    unfolding test_stage test
    test_stage-Fits none = refl
    test_stage-Fits (some cfg) =
        run_stage-J (fitting rounds i) (λ c j. tt) (λ c id s. tt) run_id _ _
          (λ id.
            test-J (fitting rounds i) (length cfg.steps) rounds.moves (test p rounds config)
              run_step-Fits id
              (λ ss _ order group.
                run_parallel-Fits rounds i rounds.moves (test p rounds config) run_step-Fits id ss
                  order group)
              cfg.steps (omega arith))

    deploy_stage-Fits :
        (build_job_id : JobId) (cfg : Option DeployConfig)
        → Fits rounds i outside (deploy_stage p rounds config run_id build_job_id cfg) outside
    unfolding deploy_stage deploy
    deploy_stage-Fits build_job_id none = refl
    deploy_stage-Fits build_job_id (some cfg) =
        run_stage-J (fitting rounds i) (λ c j. tt) (λ c id s. tt) run_id _ _
          (λ id.
            deploy-J (fitting rounds i) (λ c id. tt) p (deploy p rounds config) run_step-Fits id
              build_job_id cfg)

    execute_stages-Fits :
        (cfg : ShipinatorConfig)
        → Fits rounds i outside (execute_stages p rounds config run_id cfg) outside
    unfolding execute_stages
    execute_stages-Fits cfg =
        Fits-bind rounds i (build_stage p rounds config run_id cfg.build) _ outside outside outside
          (build_stage-Fits cfg.build)
          λ built. checks (fitting rounds i) built.1 _ _ (
            Fits-bind rounds i (test_stage p rounds config run_id cfg.test) _ outside outside
              outside (test_stage-Fits cfg.test)
              λ tested. checks (fitting rounds i) tested.1 _ _ (
                Fits-bind rounds i (deploy_stage p rounds config run_id built.0 cfg.deploy) _
                  outside outside outside (deploy_stage-Fits built.0 cfg.deploy)
                  (λ deployed. checks (fitting rounds i) deployed.1 _ _ refl)))

    -- The step is begun and ended by one `runStep`.
    pub run-Fits :
        (cfg : ShipinatorConfig) → Fits rounds i outside (run p rounds config run_id cfg) outside
    unfolding run
    run-Fits cfg = elim [
      | some e ↦ refl
      | none ↦
          Fits-bind rounds i (execute_stages p rounds config run_id cfg) _ outside outside outside
            (execute_stages-Fits cfg) (λ run_err c last. refl)
    ]
