-- ===== src/Effects/Stories.antt =====
-- What a trace does to the records of one kind, with the answers of the store.
use mathlib.Core.List.{append_assoc}
use shipinator.Common.{String, Option, List, [], ◌∷◌, ◌++◌, ◌≡◌, refl, sym, ap, ◌∙◌}
use shipinator.Errors.{Error, Result}
use shipinator.Models.{Uuid}
use shipinator.Effects.{Call, Reply}
use shipinator.Effects.Logic.{event, Trace}
use shipinator.Effects.Logs.{run_log, job_log, step_log}

-- The records whose status the orchestrator moves.
pub data Kind : Type 0 where
  runs jobs steps : Kind

-- A creation and a status update, each with its answer.
pub data Change : Type 0 where
  made : Result Uuid → Change
  set : Uuid → String → Option Error → Change

abbrev pub changes : Kind → (c : Call) → Reply c → List Change
changes runs (Call.run_update_status _ id s) r = set id s r ∷ []
changes jobs (Call.job_create _ _) r = made r ∷ []
changes jobs (Call.job_update_status _ id s) r = set id s r ∷ []
changes steps (Call.step_create _ _) r = made r ∷ []
changes steps (Call.step_update_status _ id s) r = set id s r ∷ []
changes _ _ _ = []

abbrev pub story : Kind → Trace → List Change
story k [] = []
story k (event c r ∷ t) = changes k c r ++ story k t

pub story-append : (k : Kind) (t u : Trace) → story k (t ++ u) ≡ story k t ++ story k u
story-append k [] u = refl
story-append k (event c r ∷ t) u =
    ap (λ l. changes k c r ++ l) (story-append k t u)
    ∙ sym (append_assoc (changes k c r) (story k t) (story k u))

pub story-quiet : (k : Kind) (t u : Trace) → story k t ≡ [] → story k (t ++ u) ≡ story k u
story-quiet k t u q = story-append k t u ∙ ap (λ l. l ++ story k u) q

-- Where nothing is logged, nothing changes.
pub run_log-story : (t : Trace) → run_log t ≡ [] → story runs t ≡ []
run_log-story [] q = refl
run_log-story (event (Call.run_update_status _ id s) r ∷ t) q = cc
run_log-story (event _ _ ∷ t) q = run_log-story t q

pub job_log-story : (t : Trace) → job_log t ≡ [] → story jobs t ≡ []
job_log-story [] q = refl
job_log-story (event (Call.job_create _ j) r ∷ t) q = cc
job_log-story (event (Call.job_update_status _ id s) r ∷ t) q = cc
job_log-story (event _ _ ∷ t) q = job_log-story t q

pub step_log-story : (t : Trace) → step_log t ≡ [] → story steps t ≡ []
step_log-story [] q = refl
step_log-story (event (Call.step_create _ s) r ∷ t) q = cc
step_log-story (event (Call.step_update_status _ id s) r ∷ t) q = cc
step_log-story (event _ _ ∷ t) q = step_log-story t q
