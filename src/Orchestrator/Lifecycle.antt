-- ===== src/Orchestrator/Lifecycle.antt =====
-- The life of a job or of a step, as the orchestrator drives it.
use shipinator.Common.{◌≡◌, refl, inr, String, Option, none, some, List, [], ◌∷◌}
use shipinator.Errors.{Error}
use shipinator.Models.{Uuid}
use shipinator.Fsm.{
  state_pending, state_running, state_succeeded, state_failed, stage_validate_transition,
}
use shipinator.Orchestrator.{final_stage_state}
use shipinator.Fsm.Paths.{Follows}
use shipinator.Fsm.Stage.{StageEdge, stage_validate_transition_iff}
use shipinator.Effects.Logs.{Entry, refused, created, updated}

-- What the calls about one record say, and the error that comes of it.
pub data Lifecycle (name : String) (log : List Entry) (result : Option Error) : Type 0 where
  -- The record could not be made.
  not_created :
      (x e : Error) → log ≡ refused name x ∷ [] → result ≡ some e → Lifecycle name log result
  -- It was made and could not be set to running.
  not_started :
      (x e : Error) (id : Uuid)
      → log ≡ created name id ∷ updated id "running" (some x) ∷ []
      → result ≡ some e
      → Lifecycle name log result
  -- It was set to running, and then to its end, whether or not that was accepted.
  succeeds :
      (id : Uuid) (last : Option Error)
      → log ≡ created name id ∷ updated id "running" none ∷ updated id "succeeded" last ∷ []
      → result ≡ none
      → Lifecycle name log result
  fails :
      (e : Error) (id : Uuid) (last : Option Error)
      → log ≡ created name id ∷ updated id "running" none ∷ updated id "failed" last ∷ []
      → result ≡ some e
      → Lifecycle name log result

-- The statuses that a log sends.
abbrev pub statuses : List Entry → List String
statuses [] = []
statuses (updated _ s _ ∷ log) = s ∷ statuses log
statuses (_ ∷ log) = statuses log

pub final-Lifecycle :
    (name : String) (id : Uuid) (result last : Option Error) (log : List Entry)
    → log ≡ updated id (final_stage_state result) last ∷ []
    → Lifecycle name (created name id ∷ updated id state_running none ∷ log) result
unfolding final_stage_state
final-Lifecycle name id none last log e = Lifecycle.succeeds id last (rw e) refl
final-Lifecycle name id (some x) last log e = Lifecycle.fails x id last (rw e) refl

arrows :
    (stage_validate_transition state_pending state_running ≡ none)
    × (stage_validate_transition state_running state_succeeded ≡ none)
    × (stage_validate_transition state_running state_failed ≡ none)
arrows = (
  (stage_validate_transition_iff _ _).1 (inr (StageEdge.start refl refl)),
  (stage_validate_transition_iff _ _).1 (inr (StageEdge.succeed refl refl)),
  (stage_validate_transition_iff _ _).1 (inr (StageEdge.fail refl refl)),
)

-- A life sends only statuses that the stage machine permits, from `pending` on.
pub Lifecycle-Follows :
    (name : String) (log : List Entry) (result : Option Error)
    → Lifecycle name log result
    → Follows stage_validate_transition state_pending (statuses log)
Lifecycle-Follows name log result (Lifecycle.not_created x e l r) = rw l tt
Lifecycle-Follows name log result (Lifecycle.not_started x e id l r) = rw l (arrows.0, tt)
Lifecycle-Follows name log result (Lifecycle.succeeds id last l r) = rw l (arrows.0, (arrows.1, tt))
Lifecycle-Follows name log result (Lifecycle.fails e id last l r) = rw l (arrows.0, (arrows.2, tt))
