-- ===== src/Orchestrator/Runs.antt =====
-- `Run`: the statuses of the run, and what its stages have done by then.
use shipinator.Common.{◌≡◌, refl, inr, String, Option, none, some, List, [], ◌∷◌, ◌++◌}
use shipinator.Errors.{Error}
use shipinator.Models.{PipelineRunId}
use shipinator.Config.{ShipinatorConfig}
use shipinator.Fsm.{
  state_pending, state_running, state_success, state_failed, state_canceled,
  run_validate_transition,
}
use shipinator.Fsm.PipelineRun.{RunEdge, run_validate_transition_iff}
use shipinator.Fsm.Paths.{Follows}
use shipinator.Effects.{Platform, Call, caller, detached}
use shipinator.Effects.Logic.{Trace, event, Ensures, Ensures_mono, Ensures_then}
use shipinator.Effects.Logs.{updated, job_log, run_log, context_errors, run_log-quiet}
use shipinator.Orchestrator.{Rounds, Config, final_run_state, execute_stages, run}
use shipinator.Orchestrator.Lifecycle.{statuses}
use shipinator.Orchestrator.Stages.{StageRuns, configured, execute_stages-StageRuns}

-- The status that ends a run, by the answer of `ctx.Err()` after the stages and their error.
pub data Ending : Option Error → Option Error → String → Type 0 where
  canceled : (c : Error) (result : Option Error) → Ending (some c) result "canceled"
  failed : (e : Error) → Ending none (some e) "failed"
  succeeded : Ending none none "success"

final-Ending : (c result : Option Error) → Ending c result (final_run_state c result)
unfolding final_run_state
final-Ending (some c) result = Ending.canceled c result
final-Ending none (some e) = Ending.failed e
final-Ending none none = Ending.succeeded

module _ (id : PipelineRunId) (stages : List String) where
  -- A trace of a run that was started: the work of its stages, the look at the context, and the
  -- last update, with its status and its answer.
  pub data Works (t : Trace) (result : Option Error) (status : String) (last : Option Error)
      : Type 0 where
    works :
        (work : Trace) (c : Option Error)
        → t
          ≡ event (Call.run_update_status caller id "running") none
            ∷ (work
                ++ (event Call.context_err c
                    ∷ event (Call.run_update_status detached id status) last
                    ∷ []))
        → StageRuns stages (job_log work) result
        → run_log work ≡ []
        → context_errors work ≡ []
        → Ending c result status
        → Works t result status last

  -- How a run ends.
  pub data RunEnds (t : Trace) (result : Option Error) : Type 0 where
    not_started :
        (e x : Error)
        → t ≡ event (Call.run_update_status caller id "running") (some e) ∷ []
        → result ≡ some x
        → RunEnds t result
    started :
        (status : String) (last : Option Error) → Works t result status last → RunEnds t result

module _ (p : Platform) (rounds : Rounds) (config : Config) (run_id : PipelineRunId)
    (cfg : ShipinatorConfig) where
  -- Whatever is answered, the first call of a `Run` that returns is the update of its run to
  -- running. If that was refused it has made no other call and returns an error. If not, the jobs
  -- that follow are those of the configured stages, run in order until one fails. After them it
  -- looks at the context, once, and then makes its last call: the update of its run to canceled if
  -- the context is done, else to failed if a stage failed, else to success. It returns the error of
  -- the stages.
  pub run-RunEnds :
      Ensures
        (run p rounds config run_id cfg)
        (λ t result. RunEnds run_id (configured cfg) t result)
  unfolding run
  run-RunEnds = elim [
    | some e ↦ RunEnds.not_started e _ refl refl
    | none ↦
        Ensures_then (execute_stages p rounds config run_id cfg) _
          (λ t result.
            RunEnds run_id (configured cfg)
              (event (Call.run_update_status caller run_id state_running) none ∷ t) result)
          (execute_stages-StageRuns p rounds config run_id cfg)
          λ t result (s, (r, q)) c last.
            RunEnds.started (final_run_state c result) last
              (Works.works t c refl s r q (final-Ending c result))
  ]

-- The arrows of the run machine that a run uses.
arrows :
    (run_validate_transition state_pending state_running ≡ none)
    × (run_validate_transition state_running state_success ≡ none)
    × (run_validate_transition state_running state_failed ≡ none)
    × (run_validate_transition state_running state_canceled ≡ none)
arrows = (
  (run_validate_transition_iff _ _).1 (inr (RunEdge.start refl refl)),
  (run_validate_transition_iff _ _).1 (inr (RunEdge.succeed refl refl)),
  (run_validate_transition_iff _ _).1 (inr (RunEdge.fail refl refl)),
  (run_validate_transition_iff _ _).1 (inr (RunEdge.cancel refl refl)),
)

Ending-Follows :
    (id : PipelineRunId) (c result last : Option Error) (status : String)
    → Ending c result status
    → Follows run_validate_transition state_pending
        (statuses (updated id "running" none ∷ updated id status last ∷ []))
Ending-Follows id c result last _ (Ending.canceled x _) = (arrows.0, (arrows.3, tt))
Ending-Follows id c result last _ (Ending.failed e) = (arrows.0, (arrows.2, tt))
Ending-Follows id c result last _ Ending.succeeded = (arrows.0, (arrows.1, tt))

RunEnds-Follows :
    (id : PipelineRunId) (stages : List String) (t : Trace) (result : Option Error)
    → RunEnds id stages t result
    → Follows run_validate_transition state_pending (statuses (run_log t))
RunEnds-Follows id stages t result (RunEnds.not_started e x q w) = rw q (arrows.0, tt)
RunEnds-Follows id stages t result (RunEnds.started status last (Works.works work c q s r k e)) =
    rw q (rw (run_log-quiet work _ r) (Ending-Follows id c result last status e))

-- Though `Run` never asks `ValidateTransition`, the statuses that a returning `Run` sends, from
-- `pending` on, are all transitions that it permits.
pub run-Follows :
    (p : Platform) (rounds : Rounds) (config : Config) (run_id : PipelineRunId)
    (cfg : ShipinatorConfig)
    → Ensures
        (run p rounds config run_id cfg)
        (λ t _. Follows run_validate_transition state_pending (statuses (run_log t)))
run-Follows p rounds config run_id cfg =
    Ensures_mono (run p rounds config run_id cfg)
      (λ t result. RunEnds-Follows run_id (configured cfg) t result)
      (run-RunEnds p rounds config run_id cfg)
