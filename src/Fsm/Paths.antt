-- ===== src/Fsm/Paths.antt =====
-- Sequences of status updates that a machine permits.
use shipinator.Common.{
  ℕ, ◌+◌, ◌≤◌, ◌≡◌, refl, inl, inr, String, List, [], ◌∷◌, Option, none, arith, ◌==◌, string_eq,
  if◌then◌else◌,
}
use shipinator.Errors.{Error}
use shipinator.Fsm.{
  state_pending, state_running, stage_validate_transition, run_validate_transition,
}
use shipinator.Fsm.Stage.{StageEdge, stage_validate_transition_iff}
use shipinator.Fsm.PipelineRun.{RunEdge, run_validate_transition_iff}

-- Each status of the list is a permitted transition from the one before it, from `s` on.
abbrev pub Follows : (String → String → Option Error) → String → List String → Type 0
Follows validate s [] = Unit {0}
Follows validate s (t ∷ ts) = (validate s t ≡ none) × Follows validate t ts

-- How often the status really changes; a repeated status is the idempotent no-op.
pub changes : String → List String → ℕ
changes s [] = 0
changes s (t ∷ ts) = (if s == t then 0 else 1) + changes t ts

-- How many changes a state has before it.
rank : String → ℕ
rank s = if s == state_pending then 2 else if s == state_running then 1 else 0

rank_same : (s t : String) → s ≡ t → (if s == t then 0 else 1) + rank t ≤ rank s
rank_same s t e = ground arith

rank_stage :
    (s t : String)
    → stage_validate_transition s t ≡ none
    → (if s == t then 0 else 1) + rank t ≤ rank s
unfolding rank string_eq
rank_stage s t h = elim ((stage_validate_transition_iff s t).0 h) [
  | inl e ↦ rank_same s t e
  | inr (StageEdge.start p q) ↦ rw (p, q) (omega arith)
  | inr (StageEdge.succeed p q) ↦ rw (p, q) (omega arith)
  | inr (StageEdge.fail p q) ↦ rw (p, q) (omega arith)
]

rank_run :
    (s t : String)
    → run_validate_transition s t ≡ none
    → (if s == t then 0 else 1) + rank t ≤ rank s
unfolding rank string_eq
rank_run s t h = elim ((run_validate_transition_iff s t).0 h) [
  | inl e ↦ rank_same s t e
  | inr (RunEdge.start p q) ↦ rw (p, q) (omega arith)
  | inr (RunEdge.succeed p q) ↦ rw (p, q) (omega arith)
  | inr (RunEdge.fail p q) ↦ rw (p, q) (omega arith)
  | inr (RunEdge.cancel p q) ↦ rw (p, q) (omega arith)
  | inr (RunEdge.fail_early p q) ↦ rw (p, q) (omega arith)
  | inr (RunEdge.cancel_early p q) ↦ rw (p, q) (omega arith)
]

changes-le-rank :
    (validate : String → String → Option Error)
    → ((s t : String) → validate s t ≡ none → (if s == t then 0 else 1) + rank t ≤ rank s)
    → (s : String) (ts : List String) → Follows validate s ts
    → changes s ts ≤ rank s
unfolding changes
changes-le-rank validate step s [] h = omega arith
changes-le-rank validate step s (t ∷ ts) (v, h) =
    omega (arith, step s t v, changes-le-rank validate step t ts h)

rank_pending : rank state_pending ≡ 2
unfolding rank string_eq
rank_pending = refl

-- Any sequence of stage statuses from `pending` on, each permitted by `ValidateTransition` after
-- the one before it, changes the status at most twice.
pub stage-changes-le_two :
    (ts : List String)
    → Follows stage_validate_transition state_pending ts
    → changes state_pending ts ≤ 2
stage-changes-le_two ts h =
    rw rank_pending at (changes-le-rank stage_validate_transition rank_stage state_pending ts h)

-- Any sequence of run statuses from `pending` on, each permitted by `ValidateTransition` after
-- the one before it, changes the status at most twice.
run-changes-le_two :
    (ts : List String)
    → Follows run_validate_transition state_pending ts
    → changes state_pending ts ≤ 2
run-changes-le_two ts h =
    rw rank_pending at (changes-le-rank run_validate_transition rank_run state_pending ts h)
