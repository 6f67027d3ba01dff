-- ===== src/Effects/Logs.antt =====
-- What a trace says of one kind of record, in the order of the calls.
use shipinator.Common.{ℕ, suc, String, Option, List, [], ◌∷◌, ◌++◌, ◌≡◌, refl, ap, ◌∙◌}
use shipinator.Errors.{Error, Result, ok, err}
use shipinator.Models.{Uuid, ExecutionId, Artifact}
use shipinator.Executor.{ExecutionHandle}
use shipinator.Effects.{Call, tick}
use shipinator.Effects.Logic.{event, Trace}

-- A creation that was refused or made, under the record's name, and a status update with its
-- answer.
pub data Entry : Type 0 where
  refused : String → Error → Entry
  created : String → Uuid → Entry
  updated : Uuid → String → Option Error → Entry

abbrev pub creation : String → Result Uuid → Entry
creation name (ok id) = created name id
creation name (err e) = refused name e

abbrev pub step_log : Trace → List Entry
step_log [] = []
step_log (event (Call.step_create _ s) r ∷ t) = creation s.name r ∷ step_log t
step_log (event (Call.step_update_status _ id s) r ∷ t) = updated id s r ∷ step_log t
step_log (event _ _ ∷ t) = step_log t

abbrev pub job_log : Trace → List Entry
job_log [] = []
job_log (event (Call.job_create _ j) r ∷ t) = creation j.job_type r ∷ job_log t
job_log (event (Call.job_update_status _ id s) r ∷ t) = updated id s r ∷ job_log t
job_log (event _ _ ∷ t) = job_log t

abbrev pub run_log : Trace → List Entry
run_log [] = []
run_log (event (Call.run_update_status _ id s) r ∷ t) = updated id s r ∷ run_log t
run_log (event _ _ ∷ t) = run_log t

-- The artifacts whose creation was tried.
abbrev pub artifact_log : Trace → List Artifact
artifact_log [] = []
artifact_log (event (Call.artifact_create _ a) _ ∷ t) = a ∷ artifact_log t
artifact_log (event _ _ ∷ t) = artifact_log t

-- The phases that the executor answered with.
abbrev pub phases : Trace → List String
phases [] = []
phases (event (Call.status _ _) (ok s) ∷ t) = s.phase ∷ phases t
phases (event _ _ ∷ t) = phases t

-- The phases that were recorded.
abbrev pub recorded : Trace → List (ExecutionId × String)
recorded [] = []
recorded (event (Call.execution_update_status _ id s) _ ∷ t) = (id, s) ∷ recorded t
recorded (event _ _ ∷ t) = recorded t

-- The executions that were cancelled.
abbrev pub cancels : Trace → List ExecutionHandle
cancels [] = []
cancels (event (Call.cancel _ h) _ ∷ t) = h ∷ cancels t
cancels (event _ _ ∷ t) = cancels t

-- The ticks that were taken.
abbrev pub ticks : Trace → ℕ
ticks [] = 0
ticks (event Call.select tick ∷ t) = suc (ticks t)
ticks (event _ _ ∷ t) = ticks t

-- The answers of `ctx.Err()`.
abbrev pub context_errors : Trace → List (Option Error)
context_errors [] = []
context_errors (event Call.context_err r ∷ t) = r ∷ context_errors t
context_errors (event _ _ ∷ t) = context_errors t

pub context_errors-append :
    (t u : Trace) → context_errors (t ++ u) ≡ context_errors t ++ context_errors u
context_errors-append [] u = refl
context_errors-append (event Call.context_err r ∷ t) u = ap (λ l. r ∷ l) (context_errors-append t u)
context_errors-append (event _ _ ∷ t) u = context_errors-append t u

pub context_errors-quiet :
    (t u : Trace) → context_errors t ≡ [] → context_errors (t ++ u) ≡ context_errors u
context_errors-quiet t u q = context_errors-append t u ∙ ap (λ l. l ++ context_errors u) q

pub step_log-append : (t u : Trace) → step_log (t ++ u) ≡ step_log t ++ step_log u
step_log-append [] u = refl
step_log-append (event (Call.step_create _ s) r ∷ t) u =
    ap (λ l. creation s.name r ∷ l) (step_log-append t u)
step_log-append (event (Call.step_update_status _ id s) r ∷ t) u =
    ap (λ l. updated id s r ∷ l) (step_log-append t u)
step_log-append (event _ _ ∷ t) u = step_log-append t u

pub job_log-append : (t u : Trace) → job_log (t ++ u) ≡ job_log t ++ job_log u
job_log-append [] u = refl
job_log-append (event (Call.job_create _ j) r ∷ t) u =
    ap (λ l. creation j.job_type r ∷ l) (job_log-append t u)
job_log-append (event (Call.job_update_status _ id s) r ∷ t) u =
    ap (λ l. updated id s r ∷ l) (job_log-append t u)
job_log-append (event _ _ ∷ t) u = job_log-append t u

pub run_log-append : (t u : Trace) → run_log (t ++ u) ≡ run_log t ++ run_log u
run_log-append [] u = refl
run_log-append (event (Call.run_update_status _ id s) r ∷ t) u =
    ap (λ l. updated id s r ∷ l) (run_log-append t u)
run_log-append (event _ _ ∷ t) u = run_log-append t u

pub artifact_log-append : (t u : Trace) → artifact_log (t ++ u) ≡ artifact_log t ++ artifact_log u
artifact_log-append [] u = refl
artifact_log-append (event (Call.artifact_create _ a) _ ∷ t) u =
    ap (λ l. a ∷ l) (artifact_log-append t u)
artifact_log-append (event _ _ ∷ t) u = artifact_log-append t u

pub step_log-quiet : (t u : Trace) → step_log t ≡ [] → step_log (t ++ u) ≡ step_log u
step_log-quiet t u q = step_log-append t u ∙ ap (λ l. l ++ step_log u) q

pub job_log-quiet : (t u : Trace) → job_log t ≡ [] → job_log (t ++ u) ≡ job_log u
job_log-quiet t u q = job_log-append t u ∙ ap (λ l. l ++ job_log u) q

pub run_log-quiet : (t u : Trace) → run_log t ≡ [] → run_log (t ++ u) ≡ run_log u
run_log-quiet t u q = run_log-append t u ∙ ap (λ l. l ++ run_log u) q

pub artifact_log-quiet :
    (t u : Trace) → artifact_log t ≡ [] → artifact_log (t ++ u) ≡ artifact_log u
artifact_log-quiet t u q = artifact_log-append t u ∙ ap (λ l. l ++ artifact_log u) q
