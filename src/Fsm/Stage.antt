-- ===== src/Fsm/Stage.antt =====
-- The stage machine of stage_fsm.go: its table against the diagram in its comment.
use shipinator.Common.{
  ◌≡◌, refl, ◌⊎◌, ◌↔◌, ◌≢◌, inl, inr, true, none, some, arith, string_eq, ◌∙◌, sym, ne_of_test,
}
use shipinator.Errors.{Error, is_sentinel}
use shipinator.Fsm.{
  StageState, state_pending, state_running, state_succeeded, state_failed,
  stage_validate_transition, stage_is_terminal,
}

-- The arrows of the diagram.
pub data StageEdge (s t : StageState) : Type 0 where
  start : s ≡ state_pending → t ≡ state_running → StageEdge s t
  succeed : s ≡ state_running → t ≡ state_succeeded → StageEdge s t
  fail : s ≡ state_running → t ≡ state_failed → StageEdge s t

stage_sound :
    (s t : StageState)
    → stage_validate_transition s t ≡ none
    → (s ≡ t)
      ⊎ ((s ≡ state_pending) × (t ≡ state_running)
          ⊎ ((s ≡ state_running) × (t ≡ state_succeeded)
              ⊎ (s ≡ state_running) × (t ≡ state_failed)))
unfolding stage_validate_transition
stage_sound s t h = ground arith

stage_refl : (s : StageState) → stage_validate_transition s s ≡ none
unfolding stage_validate_transition
stage_refl s = ground arith

stage_edges :
    (stage_validate_transition state_pending state_running ≡ none)
    × (stage_validate_transition state_running state_succeeded ≡ none)
    × (stage_validate_transition state_running state_failed ≡ none)
unfolding stage_validate_transition string_eq
stage_edges = (refl, refl, refl)

stage_complete : (s t : StageState) → StageEdge s t → stage_validate_transition s t ≡ none
stage_complete s t (StageEdge.start p q) = rw (p, q) stage_edges.0
stage_complete s t (StageEdge.succeed p q) = rw (p, q) stage_edges.1
stage_complete s t (StageEdge.fail p q) = rw (p, q) stage_edges.2

-- For all strings `s` and `t`: `ValidateTransition` returns nil exactly when `s` and `t` are the
-- same or the diagram has an arrow from `s` to `t`.
pub stage_validate_transition_iff :
    (s t : StageState) → (stage_validate_transition s t ≡ none) ↔ ((s ≡ t) ⊎ StageEdge s t)
stage_validate_transition_iff s t = (
  λ h. elim (stage_sound s t h) [
    | inl e ↦ inl e
    | inr (inl (p, q)) ↦ inr (StageEdge.start p q)
    | inr (inr (inl (p, q))) ↦ inr (StageEdge.succeed p q)
    | inr (inr (inr (p, q))) ↦ inr (StageEdge.fail p q)
  ],
  elim [ inl e ↦ rw e (stage_refl t) | inr e ↦ stage_complete s t e ],
)

-- Every refusal of `ValidateTransition` is an `ErrInvalidTransition` in the sense of `errors.Is`.
stage_refusal-IsInvalidTransition :
    (s t : StageState) {e : Error}
    → stage_validate_transition s t ≡ some e
    → is_sentinel "invalid state transition" e ≡ true
unfolding stage_validate_transition is_sentinel
stage_refusal-IsInvalidTransition s t h = ground arith

stage_terminal_cases :
    (s : StageState) → stage_is_terminal s ≡ true → (s ≡ state_succeeded) ⊎ (s ≡ state_failed)
unfolding stage_is_terminal
stage_terminal_cases s h = ground arith

stage_dead_ends :
    (t : StageState)
    → ((stage_validate_transition state_succeeded t ≡ none) → t ≡ state_succeeded)
      × ((stage_validate_transition state_failed t ≡ none) → t ≡ state_failed)
unfolding stage_validate_transition string_eq
stage_dead_ends t = (λ h. ground arith, λ h. ground arith)

-- The four constants of the type.
pub data IsStageState (s : StageState) : Type 0 where
  pending : s ≡ state_pending → IsStageState s
  running : s ≡ state_running → IsStageState s
  succeeded : s ≡ state_succeeded → IsStageState s
  failed : s ≡ state_failed → IsStageState s

pub running≢pending : state_running ≢ state_pending
unfolding string_eq
running≢pending = ne_of_test state_running state_pending refl

pub failed≢running : state_failed ≢ state_running
unfolding string_eq
failed≢running = ne_of_test state_failed state_running refl

stage_terminal_absorbs :
    (s t : StageState) → stage_is_terminal s ≡ true → stage_validate_transition s t ≡ none → t ≡ s
stage_terminal_absorbs s t h v = elim (stage_terminal_cases s h) [
  | inl e ↦ (stage_dead_ends t).0 (rw e at v) ∙ sym e
  | inr e ↦ (stage_dead_ends t).1 (rw e at v) ∙ sym e
]

stage_terminals :
    (stage_is_terminal state_succeeded ≡ true) × (stage_is_terminal state_failed ≡ true)
unfolding stage_is_terminal string_eq
stage_terminals = (refl, refl)

stage_stuck-is_terminal :
    (s : StageState)
    → IsStageState s
    → ((t : StageState) → stage_validate_transition s t ≡ none → t ≡ s)
    → stage_is_terminal s ≡ true
stage_stuck-is_terminal s (IsStageState.pending e) h =
    absurd (running≢pending (h state_running (rw e stage_edges.0) ∙ e))
stage_stuck-is_terminal s (IsStageState.running e) h =
    absurd (failed≢running (h state_failed (rw e stage_edges.2) ∙ e))
stage_stuck-is_terminal s (IsStageState.succeeded e) h = rw e stage_terminals.0
stage_stuck-is_terminal s (IsStageState.failed e) h = rw e stage_terminals.1

-- One of the four stage states is reported terminal exactly when `ValidateTransition` permits no
-- transition from it to any other string.
stage_is_terminal_iff :
    (s : StageState)
    → IsStageState s
    → (stage_is_terminal s ≡ true)
      ↔ ((t : StageState) → stage_validate_transition s t ≡ none → t ≡ s)
stage_is_terminal_iff s d = (λ h t v. stage_terminal_absorbs s t h v, stage_stuck-is_terminal s d)
