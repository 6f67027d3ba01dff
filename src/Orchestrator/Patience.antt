-- ===== src/Orchestrator/Patience.antt =====
-- How a `Run` can fail to return: only by a poll that goes on.
use native.Mathlib.Nat.{mul-le-mul_right}
use shipinator.Common.{
  ℕ, zero, suc, ◌+◌, ◌-◌, ◌*◌, ◌≤◌, ◌<◌, ◌≡◌, refl, String, Option, none, some, length, inl, inr,
  Bool-cases, arith,
}
use shipinator.Errors.{ok, err}
use shipinator.Models.{JobId, JobStepId, PipelineRunId, ExecutionId}
use shipinator.Config.{BuildConfig, TestConfig, DeployConfig, ShipinatorConfig}
use shipinator.Executor.{ExecutionSpec, ExecutionHandle, is_terminal}
use shipinator.Effects.{done, tick, Platform}
use shipinator.Effects.Logic.{Trace, Executes, Stalls-Executes}
use shipinator.Effects.Logs.{ticks}
use shipinator.Effects.Judgements.{Judgement, checks}
use shipinator.Effects.Lasts.{Lasts, Lasts-le, Lasts-bind, lasting, Lasts-Stalls}
use shipinator.Testinator.Halting.{Short, Short-le, Short-bind, run_parallel-Lasts}
use shipinator.Orchestrator.{
  Rounds, Config, poll, execute_and_poll, run_step, build, test, deploy, build_stage, test_stage,
  deploy_stage, execute_stages, run,
}
use shipinator.Orchestrator.StepCalls.{StepCalls, run_step-J}
use shipinator.Orchestrator.StageCalls.{build-J, test-J, deploy-J, run_stage-J}

poll-Lasts :
    (fuel : ℕ) (exec_id : ExecutionId) (handle : ExecutionHandle)
    → Lasts fuel (poll fuel exec_id handle)
unfolding poll
poll-Lasts zero exec_id handle = refl
poll-Lasts (suc fuel) exec_id handle =
    let again = λ (k : ℕ) (h : k ≤ fuel).
      Lasts-le (poll fuel exec_id handle) k fuel h (poll-Lasts fuel exec_id handle) in
    elim [
      | done e ↦ λ _. tt
      | tick ↦ elim [
        | err _ ↦ again (suc fuel - 1 - 0) (omega arith)
        | ok status ↦ λ _. elim (Bool-cases (is_terminal status)) [
          | inl e ↦ rw e tt
          | inr e ↦ rw e (again (suc fuel - 1 - 0 - 0) (omega arith))
        ]
      ]
    ]

-- The calls of a poll that is given some rounds.
abbrev poll_calls : ℕ → ℕ
poll_calls zero = 0
poll_calls (suc fuel) = suc (suc (suc (poll_calls fuel)))

poll_calls_lem : (fuel : ℕ) → poll_calls fuel ≡ 3 * fuel
poll_calls_lem zero = refl
poll_calls_lem (suc fuel) = omega (arith, poll_calls_lem fuel)

poll-Short :
    (fuel : ℕ) (exec_id : ExecutionId) (handle : ExecutionHandle)
    → Short (poll_calls fuel) (poll fuel exec_id handle)
unfolding poll
poll-Short zero exec_id handle = tt
poll-Short (suc fuel) exec_id handle =
    let again = poll-Short fuel exec_id handle in
    elim [
      | done e ↦ λ _. tt
      | tick ↦ elim [
        | err _ ↦ Short-le (poll fuel exec_id handle) _ _ (omega arith) again
        | ok status ↦
            λ _. elim (Bool-cases (is_terminal status)) [ inl e ↦ rw e tt | inr e ↦ rw e again ]
      ]
    ]

abbrev all_calls : StepCalls (λ _. Unit)
all_calls = record {
  polling = record {
    execution_create = λ c e. tt;
    execution_update_status = λ c id s. tt;
    submit = λ c s. tt;
    status = λ c h. tt;
    cancel = λ c h. tt;
    select = tt;
  };
  step_create = λ c s. tt;
  step_update_status = λ c id s. tt;
}

-- What holds of all calls and of the stages holds of `Run`.
run-J :
    (j : Judgement (λ _. Unit)) (p : Platform) (rounds : Rounds) (config : Config)
    (run_id : PipelineRunId) (cfg : ShipinatorConfig)
    → j.J (execute_stages p rounds config run_id cfg)
    → j.J (run p rounds config run_id cfg)
unfolding run
run-J j p rounds config run_id cfg h = j.calls tt elim [
  | some e ↦ j.returns _
  | none ↦
      j.binds (execute_stages p rounds config run_id cfg) _ h
        (λ run_err. j.calls tt (λ _. j.calls tt (λ _. j.returns _)))
]

-- The test steps of a configuration.
abbrev pub test_steps : Option TestConfig → ℕ
test_steps none = 0
test_steps (some cfg) = length cfg.steps

module _ (rounds : Rounds) where
  -- The calls of a step: those of its poll, and five others.
  step_calls : ℕ
  step_calls = 3 * rounds.polls + 5

  run_step-Lasts :
      (job_id : JobId) (name : String) (order : ℕ) (group : Option String) (spec : ExecutionSpec)
      → Lasts rounds.polls (run_step rounds job_id name order group spec)
  run_step-Lasts = run_step-J (lasting rounds.polls) rounds (poll-Lasts rounds.polls) all_calls

  execute_and_poll-Short :
      (step_id : JobStepId) (spec : ExecutionSpec)
      → Short (suc (suc (poll_calls rounds.polls))) (execute_and_poll rounds step_id spec)
  unfolding execute_and_poll
  execute_and_poll-Short step_id spec = elim [
    | err e ↦ tt
    | ok handle ↦ elim [ err e ↦ tt | ok exec_id ↦ poll-Short rounds.polls exec_id handle ]
  ]

  run_step-Short :
      (job_id : JobId) (name : String) (order : ℕ) (group : Option String) (spec : ExecutionSpec)
      → Short step_calls (run_step rounds job_id name order group spec)
  unfolding run_step step_calls
  run_step-Short job_id name order group spec =
      Short-le (run_step rounds job_id name order group spec)
        (suc (suc (suc (suc (poll_calls rounds.polls)) + 1))) _
        (omega (arith, poll_calls_lem rounds.polls))
        elim [
          | err e ↦ tt
          | ok step_id ↦ elim [
            | some e ↦ tt
            | none ↦
                Short-bind (execute_and_poll rounds step_id spec)
                  (suc (suc (poll_calls rounds.polls))) 1 _ (execute_and_poll-Short step_id spec)
                  (λ _ r. tt)
          ]
        ]

  module _ (p : Platform) (config : Config) where
    test_stage-Lasts :
        (run_id : PipelineRunId) (cfg : Option TestConfig)
        → test_steps cfg * (3 * rounds.polls + 6) < rounds.moves
        → Lasts rounds.polls (test_stage p rounds config run_id cfg)
    unfolding test_stage test step_calls
    test_stage-Lasts run_id none h = tt
    test_stage-Lasts run_id (some cfg) h =
        run_stage-J (lasting rounds.polls) (λ _ _. tt) (λ _ _ _. tt) run_id _ _
          (λ id.
            test-J (lasting rounds.polls) (length cfg.steps) rounds.moves (test p rounds config)
              run_step-Lasts id
              (λ ss l order group.
                run_parallel-Lasts rounds.moves (test p rounds config) id group step_calls
                  rounds.polls
                  (λ s order.
                    (run_step-Short id s.name order _ _, run_step-Lasts id s.name order _ _))
                  ss order (omega (arith, h, mul-le-mul_right (3 * rounds.polls + 6) l)))
              cfg.steps (omega arith))

    build_stage-Lasts :
        (run_id : PipelineRunId) (cfg : Option BuildConfig)
        → Lasts rounds.polls (build_stage p rounds config run_id cfg)
    unfolding build_stage build
    build_stage-Lasts run_id none = tt
    build_stage-Lasts run_id (some cfg) =
        run_stage-J (lasting rounds.polls) (λ _ _. tt) (λ _ _ _. tt) run_id _ _
          (λ id.
            build-J (lasting rounds.polls) tt (λ _ _. tt) p (build p rounds config) run_step-Lasts
              id cfg.steps)

    deploy_stage-Lasts :
        (run_id : PipelineRunId) (build_job_id : JobId) (cfg : Option DeployConfig)
        → Lasts rounds.polls (deploy_stage p rounds config run_id build_job_id cfg)
    unfolding deploy_stage deploy
    deploy_stage-Lasts run_id build_job_id none = tt
    deploy_stage-Lasts run_id build_job_id (some cfg) =
        run_stage-J (lasting rounds.polls) (λ _ _. tt) (λ _ _ _. tt) run_id _ _
          (λ id.
            deploy-J (lasting rounds.polls) (λ _ _. tt) p (deploy p rounds config) run_step-Lasts id
              build_job_id cfg)

    execute_stages-Lasts :
        (run_id : PipelineRunId) (cfg : ShipinatorConfig)
        → test_steps cfg.test * (3 * rounds.polls + 6) < rounds.moves
        → Lasts rounds.polls (execute_stages p rounds config run_id cfg)
    unfolding execute_stages
    execute_stages-Lasts run_id cfg h =
        let j = lasting rounds.polls in
        Lasts-bind (build_stage p rounds config run_id cfg.build) rounds.polls _
          (build_stage-Lasts run_id cfg.build)
          λ built. checks j built.1 _ _ (
            Lasts-bind (test_stage p rounds config run_id cfg.test) rounds.polls _
              (test_stage-Lasts run_id cfg.test h)
              λ tested. checks j tested.1 _ _ (
                Lasts-bind (deploy_stage p rounds config run_id built.0 cfg.deploy) rounds.polls _
                  (deploy_stage-Lasts run_id built.0 cfg.deploy)
                  (λ deployed. checks j deployed.1 _ _ tt)))

    run-Lasts :
        (run_id : PipelineRunId) (cfg : ShipinatorConfig)
        → test_steps cfg.test * (3 * rounds.polls + 6) < rounds.moves
        → Lasts rounds.polls (run p rounds config run_id cfg)
    run-Lasts run_id cfg h =
        run-J (lasting rounds.polls) p rounds config run_id cfg (execute_stages-Lasts run_id cfg h)

    -- Where there are moves for the batches of the test stage, an execution of `Run` that has not
    -- returned has taken `polls` ticks at least, whatever was answered and however the goroutines
    -- were scheduled: nothing but a poll that goes on keeps a `Run` from returning.
    pub run_returns :
        (run_id : PipelineRunId) (cfg : ShipinatorConfig) {t : Trace}
        → test_steps cfg.test * (3 * rounds.polls + 6) < rounds.moves
        → Executes (run p rounds config run_id cfg) t none
        → rounds.polls ≤ ticks t
    run_returns run_id cfg h x =
        Stalls-Executes x (λ t. rounds.polls ≤ ticks t)
          (Lasts-Stalls (run p rounds config run_id cfg) rounds.polls (run-Lasts run_id cfg h)) refl
