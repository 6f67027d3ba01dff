-- ===== src/Orchestrator/Inner.antt =====
-- The three subsystems leave runs and jobs to the orchestrator.
use shipinator.Common.{ℕ, List, length, arith}
use shipinator.Models.{JobId}
use shipinator.Config.{BuildStep, TestStep, DeployConfig}
use shipinator.Effects.{Call, Platform}
use shipinator.Effects.Only.{Only, IsInner}
use shipinator.Effects.Judgements.{only_judgement}
use shipinator.Buildinator
use shipinator.Buildinator.{Buildinator}
use shipinator.Testinator
use shipinator.Testinator.{Testinator}
use shipinator.Deployinator
use shipinator.Deployinator.{Deployinator}
use shipinator.Orchestrator.{Rounds, run_step}
use shipinator.Orchestrator.StepCalls.{StepCalls, poll-Only, run_step-J}
use shipinator.Orchestrator.BatchCalls.{StepOnly, run_parallel-Only}
use shipinator.Orchestrator.StageCalls.{build-J, test-J, deploy-J}

-- Only calls of a kind, for kinds that have the calls of a step and the scheduler's.
module _ (K : Call → Type 0) (kinds : StepCalls K) where
  pub run_step-Only : (rounds : Rounds) → StepOnly K (run_step rounds)
  run_step-Only rounds =
      run_step-J (only_judgement K) rounds (poll-Only K kinds.polling rounds.polls) kinds

  pub test-Only :
      ((n : ℕ) → K (Call.schedule n))
      → (moves : ℕ) (t : Testinator) → StepOnly K t.step
      → (job_id : JobId) (steps : List TestStep) → Only K (Testinator.run moves t job_id steps)
  test-Only schedules moves t inner job_id steps =
      test-J (only_judgement K) (length steps) moves t inner job_id
        (λ ss _ order group. run_parallel-Only K schedules moves t inner job_id ss order group)
        steps (omega arith)

abbrev inner_calls : StepCalls IsInner
inner_calls = record {
  polling = record {
    execution_create = λ c e. tt;
    execution_update_status = λ c id s. tt;
    submit = λ c s. tt;
    status = λ c h. tt;
    cancel = λ c h. tt;
    select = tt;
  };
  step_create = λ c s. tt;
  step_update_status = λ c id s. tt;
}

pub run_step-IsInner : (rounds : Rounds) → StepOnly IsInner (run_step rounds)
run_step-IsInner rounds = run_step-Only IsInner inner_calls rounds

pub build-IsInner :
    (p : Platform) (b : Buildinator)
    → StepOnly IsInner b.step
    → (job_id : JobId) (steps : List BuildStep) → Only IsInner (Buildinator.run p b job_id steps)
build-IsInner p b inner = build-J (only_judgement IsInner) tt (λ c a. tt) p b inner

pub deploy-IsInner :
    (p : Platform) (d : Deployinator)
    → StepOnly IsInner d.step
    → (job_id build_job_id : JobId) (cfg : DeployConfig)
    → Only IsInner (Deployinator.run p d job_id build_job_id cfg)
deploy-IsInner p d inner = deploy-J (only_judgement IsInner) (λ c id. tt) p d inner

pub test-IsInner :
    (moves : ℕ) (t : Testinator)
    → StepOnly IsInner t.step
    → (job_id : JobId) (steps : List TestStep) → Only IsInner (Testinator.run moves t job_id steps)
test-IsInner moves t inner = test-Only IsInner inner_calls (λ n. tt) moves t inner
