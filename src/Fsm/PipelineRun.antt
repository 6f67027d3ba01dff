-- ===== src/Fsm/PipelineRun.antt =====
-- The run machine of pipeline_run_fsm.go: its table against the diagram in its comment.
use shipinator.Common.{◌≡◌, refl, ◌⊎◌, ◌↔◌, inl, inr, true, none, some, arith, string_eq, ◌∙◌, sym}
use shipinator.Errors.{Error, is_sentinel}
use shipinator.Fsm.{
  PipelineRunState, state_pending, state_running, state_success, state_failed, state_canceled,
  run_validate_transition, run_is_terminal,
}
use shipinator.Fsm.Stage.{running≢pending, failed≢running}

-- The arrows of the diagram, and those from `pending` that the comment adds to it.
pub data RunEdge (s t : PipelineRunState) : Type 0 where
  start : s ≡ state_pending → t ≡ state_running → RunEdge s t
  succeed : s ≡ state_running → t ≡ state_success → RunEdge s t
  fail : s ≡ state_running → t ≡ state_failed → RunEdge s t
  cancel : s ≡ state_running → t ≡ state_canceled → RunEdge s t
  fail_early : s ≡ state_pending → t ≡ state_failed → RunEdge s t
  cancel_early : s ≡ state_pending → t ≡ state_canceled → RunEdge s t

run_sound :
    (s t : PipelineRunState)
    → run_validate_transition s t ≡ none
    → (s ≡ t)
      ⊎ ((s ≡ state_pending) × ((t ≡ state_running) ⊎ ((t ≡ state_failed) ⊎ (t ≡ state_canceled)))
          ⊎ (s ≡ state_running)
            × ((t ≡ state_success) ⊎ ((t ≡ state_failed) ⊎ (t ≡ state_canceled))))
unfolding run_validate_transition
run_sound s t h = ground arith

run_refl : (s : PipelineRunState) → run_validate_transition s s ≡ none
unfolding run_validate_transition
run_refl s = ground arith

run_edges :
    (run_validate_transition state_pending state_running ≡ none)
    × (run_validate_transition state_running state_success ≡ none)
    × (run_validate_transition state_running state_failed ≡ none)
    × (run_validate_transition state_running state_canceled ≡ none)
    × (run_validate_transition state_pending state_failed ≡ none)
    × (run_validate_transition state_pending state_canceled ≡ none)
unfolding run_validate_transition string_eq
run_edges = (refl, refl, refl, refl, refl, refl)

run_complete : (s t : PipelineRunState) → RunEdge s t → run_validate_transition s t ≡ none
run_complete s t (RunEdge.start p q) = rw (p, q) run_edges.0
run_complete s t (RunEdge.succeed p q) = rw (p, q) run_edges.1
run_complete s t (RunEdge.fail p q) = rw (p, q) run_edges.2
run_complete s t (RunEdge.cancel p q) = rw (p, q) run_edges.3
run_complete s t (RunEdge.fail_early p q) = rw (p, q) run_edges.4
run_complete s t (RunEdge.cancel_early p q) = rw (p, q) run_edges.5

-- For all strings `s` and `t`: `ValidateTransition` returns nil exactly when `s` and `t` are the
-- same or the documented diagram has an arrow from `s` to `t`.
pub run_validate_transition_iff :
    (s t : PipelineRunState) → (run_validate_transition s t ≡ none) ↔ ((s ≡ t) ⊎ RunEdge s t)
run_validate_transition_iff s t = (
  λ h. elim (run_sound s t h) [
    | inl e ↦ inl e
    | inr (inl (p, inl q)) ↦ inr (RunEdge.start p q)
    | inr (inl (p, inr (inl q))) ↦ inr (RunEdge.fail_early p q)
    | inr (inl (p, inr (inr q))) ↦ inr (RunEdge.cancel_early p q)
    | inr (inr (p, inl q)) ↦ inr (RunEdge.succeed p q)
    | inr (inr (p, inr (inl q))) ↦ inr (RunEdge.fail p q)
    | inr (inr (p, inr (inr q))) ↦ inr (RunEdge.cancel p q)
  ],
  elim [ inl e ↦ rw e (run_refl t) | inr e ↦ run_complete s t e ],
)

-- Every refusal of `ValidateTransition` is an `ErrInvalidTransition` in the sense of `errors.Is`.
run_refusal-IsInvalidTransition :
    (s t : PipelineRunState) {e : Error}
    → run_validate_transition s t ≡ some e
    → is_sentinel "invalid state transition" e ≡ true
unfolding run_validate_transition is_sentinel
run_refusal-IsInvalidTransition s t h = ground arith

run_terminal_cases :
    (s : PipelineRunState)
    → run_is_terminal s ≡ true
    → (s ≡ state_success) ⊎ ((s ≡ state_failed) ⊎ (s ≡ state_canceled))
unfolding run_is_terminal
run_terminal_cases s h = ground arith

run_dead_ends :
    (t : PipelineRunState)
    → ((run_validate_transition state_success t ≡ none) → t ≡ state_success)
      × ((run_validate_transition state_failed t ≡ none) → t ≡ state_failed)
      × ((run_validate_transition state_canceled t ≡ none) → t ≡ state_canceled)
unfolding run_validate_transition string_eq
run_dead_ends t = (λ h. ground arith, λ h. ground arith, λ h. ground arith)

-- The five constants of the type.
pub data IsRunState (s : PipelineRunState) : Type 0 where
  pending : s ≡ state_pending → IsRunState s
  running : s ≡ state_running → IsRunState s
  success : s ≡ state_success → IsRunState s
  failed : s ≡ state_failed → IsRunState s
  canceled : s ≡ state_canceled → IsRunState s

run_terminal_absorbs :
    (s t : PipelineRunState) → run_is_terminal s ≡ true → run_validate_transition s t ≡ none → t ≡ s
run_terminal_absorbs s t h v = elim (run_terminal_cases s h) [
  | inl e ↦ (run_dead_ends t).0 (rw e at v) ∙ sym e
  | inr (inl e) ↦ (run_dead_ends t).1 (rw e at v) ∙ sym e
  | inr (inr e) ↦ (run_dead_ends t).2 (rw e at v) ∙ sym e
]

run_terminals :
    (run_is_terminal state_success ≡ true)
    × (run_is_terminal state_failed ≡ true)
    × (run_is_terminal state_canceled ≡ true)
unfolding run_is_terminal string_eq
run_terminals = (refl, refl, refl)

run_stuck-is_terminal :
    (s : PipelineRunState)
    → IsRunState s
    → ((t : PipelineRunState) → run_validate_transition s t ≡ none → t ≡ s)
    → run_is_terminal s ≡ true
run_stuck-is_terminal s (IsRunState.pending e) h =
    absurd (running≢pending (h state_running (rw e run_edges.0) ∙ e))
run_stuck-is_terminal s (IsRunState.running e) h =
    absurd (failed≢running (h state_failed (rw e run_edges.2) ∙ e))
run_stuck-is_terminal s (IsRunState.success e) h = rw e run_terminals.0
run_stuck-is_terminal s (IsRunState.failed e) h = rw e run_terminals.1
run_stuck-is_terminal s (IsRunState.canceled e) h = rw e run_terminals.2

-- One of the five run states is reported terminal exactly when `ValidateTransition` permits no
-- transition from it to any other string.
run_is_terminal_iff :
    (s : PipelineRunState)
    → IsRunState s
    → (run_is_terminal s ≡ true)
      ↔ ((t : PipelineRunState) → run_validate_transition s t ≡ none → t ≡ s)
run_is_terminal_iff s d = (λ h t v. run_terminal_absorbs s t h v, run_stuck-is_terminal s d)
