-- ===== src/Orchestrator/Steps.antt =====
-- `runStep`: the life of a step's record.
use shipinator.Common.{ℕ, ◌≡◌, refl, String, Option, none, some, [], ◌∷◌, ◌++◌, ◌∙◌}
use shipinator.Errors.{ok, err}
use shipinator.Models.{JobId, JobStepId}
use shipinator.Executor.{ExecutionSpec}
use shipinator.Effects.Logic.{Trace, Ensures, Ensures_mono, Ensures_then}
use shipinator.Effects.Logs.{
  Entry, step_log, job_log, run_log, artifact_log, step_log-quiet, job_log-quiet, run_log-quiet,
  artifact_log-quiet,
}
use shipinator.Fsm.{state_running}
use shipinator.Orchestrator.{Rounds, execute_and_poll, step_created, run_step}
use shipinator.Orchestrator.Poll.{IsQuiet, poll-IsQuiet}
use shipinator.Orchestrator.Lifecycle.{Lifecycle, final-Lifecycle, Lifecycle-Follows, statuses}
use shipinator.Fsm.{state_pending, stage_validate_transition}
use shipinator.Fsm.Paths.{Follows}

pub execute_and_poll-IsQuiet :
    (rounds : Rounds) (step_id : JobStepId) (spec : ExecutionSpec)
    → Ensures (execute_and_poll rounds step_id spec) (λ t _. IsQuiet t)
unfolding execute_and_poll
execute_and_poll-IsQuiet rounds step_id spec = elim [
  | err e ↦ (refl, refl, refl, refl)
  | ok handle ↦ elim [
    | err e ↦ (refl, refl, refl, refl)
    | ok exec_id ↦ poll-IsQuiet rounds.polls exec_id handle
  ]
]

-- What `runStep` leaves alone.
abbrev pub StepOnly : Trace → Type 0
StepOnly t = (job_log t ≡ []) × (run_log t ≡ []) × (artifact_log t ≡ [])

then-StepOnly : (t u : Trace) → IsQuiet t → StepOnly u → StepOnly (t ++ u)
then-StepOnly t u (s, j, r, a) (j', r', a') =
    (job_log-quiet t u j ∙ j', run_log-quiet t u r ∙ r', artifact_log-quiet t u a ∙ a')

step_created-Lifecycle :
    (rounds : Rounds) (name : String) (spec : ExecutionSpec) (step_id : JobStepId)
    → Ensures
        (step_created rounds name spec step_id)
        (λ t result. Lifecycle name (Entry.created name step_id ∷ step_log t) result × StepOnly t)
unfolding step_created
step_created-Lifecycle rounds name spec step_id = elim [
  | some e ↦ (Lifecycle.not_started e _ step_id refl refl, (refl, refl, refl))
  | none ↦
      Ensures_then (execute_and_poll rounds step_id spec) _
        (λ t result.
          Lifecycle name
            (Entry.created name step_id ∷ Entry.updated step_id state_running none ∷ step_log t)
            result
          × StepOnly t)
        (execute_and_poll-IsQuiet rounds step_id spec)
        λ t result q r. (
          final-Lifecycle name step_id result r _ (step_log-quiet t _ q.0),
          then-StepOnly t _ q (refl, refl, refl),
        )
]

-- However the store and the executor answer, a `runStep` that returns has asked once for the record
-- of its step under its name. If that was refused, or if the step was made and its update to
-- running was refused, it has touched no step any more and returns an error. If both were accepted
-- it has asked once for the last update of the step: to succeeded if it returns nil and to failed
-- if it returns an error. It touches no other step, and no job, run or artifact.
pub run_step-Lifecycle :
    (rounds : Rounds) (job_id : JobId) (name : String) (order : ℕ) (group : Option String)
    (spec : ExecutionSpec)
    → Ensures
        (run_step rounds job_id name order group spec)
        (λ t result. Lifecycle name (step_log t) result × StepOnly t)
unfolding run_step
run_step-Lifecycle rounds job_id name order group spec = elim [
  | err e ↦ (Lifecycle.not_created e _ refl refl, (refl, refl, refl))
  | ok step_id ↦ step_created-Lifecycle rounds name spec step_id
]

-- Though `runStep` never asks `ValidateTransition`, the statuses that a returning `runStep` sends
-- for its step, from `pending` on, are all transitions that the stage machine permits.
run_step-Follows :
    (rounds : Rounds) (job_id : JobId) (name : String) (order : ℕ) (group : Option String)
    (spec : ExecutionSpec)
    → Ensures
        (run_step rounds job_id name order group spec)
        (λ t _. Follows stage_validate_transition state_pending (statuses (step_log t)))
run_step-Follows rounds job_id name order group spec =
    Ensures_mono (run_step rounds job_id name order group spec)
      (λ t result h. Lifecycle-Follows name (step_log t) result h.0)
      (run_step-Lifecycle rounds job_id name order group spec)
