-- ===== src/Fsm.antt =====
-- internal/orchestrator: states.go, stage_fsm.go and pipeline_run_fsm.go. A state is a string, and
-- an error result is `Option Error`, `none` for nil.
pub mod Stage
pub mod PipelineRun
pub mod Paths
use shipinator.Common.{
  String, List, [], ◌∷◌, Bool, Option, none, some, ◌==◌, string_eq, if◌then◌else◌, contains, lookup,
}
use shipinator.Errors.{Error, wrap, err_invalid_transition}

abbrev pub state_pending : String
state_pending = "pending"

abbrev pub state_running : String
state_running = "running"

abbrev pub state_success : String
state_success = "success"

abbrev pub state_failed : String
state_failed = "failed"

abbrev pub state_canceled : String
state_canceled = "canceled"

abbrev pub state_succeeded : String
state_succeeded = "succeeded"

abbrev pub StageState : Type 0
StageState = String

abbrev pub PipelineRunState : Type 0
PipelineRunState = String

abbrev pub stage_transitions : List (StageState × List StageState)
stage_transitions =
    (state_pending, state_running ∷ [])
    ∷ (state_running, state_succeeded ∷ state_failed ∷ [])
    ∷ (state_succeeded, [])
    ∷ (state_failed, [])
    ∷ []

abbrev pub stage_terminal_states : List StageState
stage_terminal_states = state_succeeded ∷ state_failed ∷ []

abbrev pub pipeline_run_transitions : List (PipelineRunState × List PipelineRunState)
pipeline_run_transitions =
    (state_pending, state_running ∷ state_failed ∷ state_canceled ∷ [])
    ∷ (state_running, state_success ∷ state_failed ∷ state_canceled ∷ [])
    ∷ (state_success, [])
    ∷ (state_failed, [])
    ∷ (state_canceled, [])
    ∷ []

abbrev pub terminal_states : List PipelineRunState
terminal_states = state_success ∷ state_failed ∷ state_canceled ∷ []

abbrev check_target : String → List String → String → String → Option Error
check_target refusal allowed current target =
    if contains allowed target
    then none
    else some (wrap refusal (current ∷ target ∷ []) err_invalid_transition)

unfoldable pub stage_validate_transition : StageState → StageState → Option Error
stage_validate_transition current target =
    if current == target then none else elim (lookup current stage_transitions) [
      | none ↦ some (wrap "stage state %q: %w" (current ∷ []) err_invalid_transition)
      | some allowed ↦ check_target "stage: %q → %q: %w" allowed current target
    ]

unfoldable pub stage_is_terminal : StageState → Bool
stage_is_terminal s = contains stage_terminal_states s

unfoldable pub run_validate_transition : PipelineRunState → PipelineRunState → Option Error
run_validate_transition current target =
    if current == target then none else elim (lookup current pipeline_run_transitions) [
      | none ↦ some (wrap "pipeline run state %q: %w" (current ∷ []) err_invalid_transition)
      | some allowed ↦ check_target "pipeline run: %q → %q: %w" allowed current target
    ]

unfoldable pub run_is_terminal : PipelineRunState → Bool
run_is_terminal s = contains terminal_states s
