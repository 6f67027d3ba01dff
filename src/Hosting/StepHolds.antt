-- ===== src/Hosting/StepHolds.antt =====
-- What the table holds of a step, and what the trace of a run has of it.
use shipinator.Common.{
  ℕ, ◌≢◌, inl, inr, String, Option, none, some, List, [], ◌∷◌, All, In, string_eq,
}
use shipinator.Errors.{Error, ok, err, ok-injective}
use shipinator.Models.{Uuid, Time, JobId, JobStepId}
use shipinator.Effects.{Platform, Context, Call}
use shipinator.Effects.Logic.{Trace, Event, event, Executes}
use shipinator.Effects.Stories.{steps, story}
use shipinator.Executor.{ExecutionSpec}
use shipinator.Orchestrator.{Rounds, execute_and_poll}
use shipinator.Postgres.{Driver}
use shipinator.Postgres.Sql.{Sql}
use shipinator.Postgres.JobSteps.Laws.{Holds}
use shipinator.Hosting.Keeps.{made_ids, IsOther}
use shipinator.Hosting.StepRows.{step_record}
use shipinator.Hosting.StepFits.{outside, Leads}

abbrev pub step_ids : Trace → List JobStepId
step_ids t = made_ids (story steps t)

-- A trace that neither makes the step nor has it changes other steps only.
pub outside-IsOther :
    (rounds : Rounds) (i : Uuid) (t : Trace)
    → Leads rounds i outside t outside
    → ¬ In i (step_ids t)
    → All (IsOther i) (story steps t)
outside-IsOther rounds i [] h n = tt
outside-IsOther rounds i (event (Call.step_create _ s) (ok id) ∷ t) h n =
    let other : ok id ≢ ok i = λ e. n (inl (ok-injective e)) in
    (other, outside-IsOther rounds i t (h.1 other) (λ m. n (inr m)))
outside-IsOther rounds i (event (Call.step_create _ s) (err e) ∷ t) h n =
    ((λ q. cc), outside-IsOther rounds i t (h.1 (λ q. cc)) n)
outside-IsOther rounds i (event (Call.step_update_status _ id s) r ∷ t) h n =
    (h.0, outside-IsOther rounds i t h.1 n)
outside-IsOther rounds i (event _ _ ∷ t) h n = outside-IsOther rounds i t h n

-- The events of one trace stand in the other, in the same order.
pub data Sub : Trace → Trace → Type 0 where
  nothing : Sub [] []
  skip : (e : Event) {u t : Trace} → Sub u t → Sub u (e ∷ t)
  take : (e : Event) {u t : Trace} → Sub u t → Sub (e ∷ u) (e ∷ t)

pub Sub-none : (t : Trace) → Sub [] t
Sub-none [] = Sub.nothing
Sub-none (e ∷ t) = Sub.skip e (Sub-none t)

module _ (p : Platform) {d : Driver} (sql : Sql d) (rounds : Rounds) where
  -- The trace has the `executeAndPoll` of the step, with its result.
  abbrev pub Ran : JobStepId → Trace → Option Error → Type 0
  Ran id t result =
      (spec : ExecutionSpec) × (u : Trace) × Executes (execute_and_poll rounds id spec) u
        (some result)
      × Sub u t

  -- An update of the step to a status that was refused.
  abbrev pub Refused : JobStepId → String → Trace → Type 0
  Refused id status t =
      (c : Context) × (e : Error) × In (event (Call.step_update_status c id status) (some e)) t

  -- A step in the table, and what the trace has of it.
  pub data StepHeld (job_id : JobId) (name : String) (order : ℕ) (group : Option String)
      (id : JobStepId) (t : Trace) (db : d.Db) : Type 0 where
    pending :
        (now : Time)
        → Refused id "running" t
        → Holds p sql db (step_record job_id name order group id now "pending" none none)
        → StepHeld job_id name order group id t db
    running :
        (now t1 : Time) (result : Option Error) (status : String)
        → Ran id t result
        → Refused id status t
        → Holds p sql db (step_record job_id name order group id now "running" (some t1) none)
        → StepHeld job_id name order group id t db
    succeeded :
        (now t1 : Time)
        → Ran id t none
        → Holds p sql db (step_record job_id name order group id now "succeeded" (some t1) none)
        → StepHeld job_id name order group id t db
    failed :
        (now t1 t2 : Time) (x : Error)
        → Ran id t (some x)
        → Holds p sql db (step_record job_id name order group id now "failed" (some t1) (some t2))
        → StepHeld job_id name order group id t db

  pub StepHeld-later :
      (job_id : JobId) (name : String) (order : ℕ) (group : Option String) (id : JobStepId)
      (e : Event) (t : Trace) (db : d.Db)
      → StepHeld job_id name order group id t db
      → StepHeld job_id name order group id (e ∷ t) db
  StepHeld-later j n o g id e t db (StepHeld.pending now (c, x, m) h) =
      StepHeld.pending now (c, x, inr m) h
  StepHeld-later j n o g id e t db (StepHeld.running now t1 r s (spec, u, x, b) (c, y, m) h) =
      StepHeld.running now t1 r s (spec, u, x, Sub.skip e b) (c, y, inr m) h
  StepHeld-later j n o g id e t db (StepHeld.succeeded now t1 (spec, u, x, b) h) =
      StepHeld.succeeded now t1 (spec, u, x, Sub.skip e b) h
  StepHeld-later j n o g id e t db (StepHeld.failed now t1 t2 y (spec, u, x, b) h) =
      StepHeld.failed now t1 t2 y (spec, u, x, Sub.skip e b) h
