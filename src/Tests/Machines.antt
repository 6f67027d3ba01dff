-- ===== src/Tests/Machines.antt =====
-- The two state machines at their own states.
use shipinator.Common.{◌≤◌, ◌≡◌, refl, ◌⊎◌, ◌↔◌, none, [], ◌∷◌, string_eq}
use shipinator.Fsm.{
  state_pending, state_running, state_success, state_failed, stage_validate_transition,
  run_validate_transition,
}
use shipinator.Fsm.Stage.{StageEdge, stage_validate_transition_iff}
use shipinator.Fsm.PipelineRun.{RunEdge, run_validate_transition_iff}
use shipinator.Fsm.Paths.{changes, stage-changes-le_two}

stage_validate_transition_iff_example :
    (stage_validate_transition state_running state_failed ≡ none)
    ↔ ((state_running ≡ state_failed) ⊎ StageEdge state_running state_failed)
stage_validate_transition_iff_example = stage_validate_transition_iff state_running state_failed

run_validate_transition_iff_example :
    (run_validate_transition state_pending state_success ≡ none)
    ↔ ((state_pending ≡ state_success) ⊎ RunEdge state_pending state_success)
run_validate_transition_iff_example = run_validate_transition_iff state_pending state_success

stage-changes-le_two_example :
    changes state_pending (state_running ∷ state_running ∷ state_failed ∷ []) ≤ 2
unfolding stage_validate_transition string_eq
stage-changes-le_two_example =
    stage-changes-le_two (state_running ∷ state_running ∷ state_failed ∷ [])
      (refl, (refl, (refl, tt)))
