-- ===== src/Orchestrator/StepCalls.antt =====
-- `runStep` makes only the calls of a step.
use shipinator.Common.{ℕ, zero, suc, String, Option, none, some, inl, inr, Bool-cases}
use shipinator.Errors.{ok, err}
use shipinator.Models.{JobId, JobStepId, ExecutionId, JobStep, Execution}
use shipinator.Executor.{ExecutionSpec, ExecutionHandle, is_terminal}
use shipinator.Fsm.{state_running}
use shipinator.Effects.{Call, Context, caller, detached, background, done, tick}
use shipinator.Effects.Only.{Only}
use shipinator.Effects.Judgements.{Judgement}
use shipinator.Orchestrator.{Rounds, poll, execute_and_poll, run_step}

-- The calls of `executeAndPoll` are of a kind.
pub record PollCalls (K : Call → Type 0) : Type 0 where
  pub execution_create : (c : Context) (e : Execution) → K (Call.execution_create c e)
  pub execution_update_status :
      (c : Context) (id : ExecutionId) (s : String) → K (Call.execution_update_status c id s)
  pub submit : (c : Context) (s : ExecutionSpec) → K (Call.submit c s)
  pub status : (c : Context) (h : ExecutionHandle) → K (Call.status c h)
  pub cancel : (c : Context) (h : ExecutionHandle) → K (Call.cancel c h)
  pub select : K Call.select

-- So are those of `runStep`.
pub record StepCalls (K : Call → Type 0) : Type 0 where
  pub polling : PollCalls K
  pub step_create : (c : Context) (s : JobStep) → K (Call.step_create c s)
  pub step_update_status :
      (c : Context) (id : JobStepId) (s : String) → K (Call.step_update_status c id s)

-- `poll` makes only calls of a kind that has all the calls of a poll.
pub poll-Only :
    (K : Call → Type 0)
    → PollCalls K
    → (fuel : ℕ) (exec_id : ExecutionId) (handle : ExecutionHandle)
    → Only K (poll fuel exec_id handle)
unfolding poll
poll-Only K kinds zero exec_id handle = tt
poll-Only K kinds (suc fuel) exec_id handle =
    let again = poll-Only K kinds fuel exec_id handle in
    (
      kinds.select,
      elim [
        | done e ↦ (kinds.cancel background handle, λ _. tt)
        | tick ↦ (
          kinds.status caller handle,
          elim [
            | err _ ↦ again
            | ok status ↦ (
              kinds.execution_update_status caller exec_id status.phase,
              λ _. elim (Bool-cases (is_terminal status)) [ inl e ↦ rw e tt | inr e ↦ rw e again ],
            )
          ],
        )
      ],
    )

-- What holds of `poll` and of calls of such a kind holds of `executeAndPoll` and of `runStep`.
module _ {K : Call → Type 0} (j : Judgement K) (rounds : Rounds)
    (polls : (exec_id : ExecutionId) (handle : ExecutionHandle)
      → j.J (poll rounds.polls exec_id handle)) where
  open j use {J, returns, calls, binds}

  pub execute_and_poll-J :
      PollCalls K
      → (step_id : JobStepId) (spec : ExecutionSpec) → J (execute_and_poll rounds step_id spec)
  unfolding execute_and_poll
  execute_and_poll-J kinds step_id spec = calls (kinds.submit caller spec) elim [
    | err e ↦ returns _
    | ok handle ↦
        calls (kinds.execution_create caller _)
          elim [ err e ↦ returns _ | ok exec_id ↦ polls exec_id handle ]
  ]

  pub run_step-J :
      StepCalls K
      → (job_id : JobId) (name : String) (order : ℕ) (group : Option String) (spec : ExecutionSpec)
      → J (run_step rounds job_id name order group spec)
  unfolding run_step
  run_step-J kinds job_id name order group spec = calls (kinds.step_create caller _) elim [
    | err e ↦ returns _
    | ok step_id ↦ calls (kinds.step_update_status caller step_id state_running) elim [
      | some e ↦ returns _
      | none ↦
          binds (execute_and_poll rounds step_id spec) _
            (execute_and_poll-J kinds.polling step_id spec)
            (λ _. calls (kinds.step_update_status detached step_id _) (λ _. returns _))
    ]
  ]
