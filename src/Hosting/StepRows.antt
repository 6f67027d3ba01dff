-- ===== src/Hosting/StepRows.antt =====
-- `runStep` over the Postgres stores: the row of the step afterwards.
use mathlib.Core.Path.{subst}
use shipinator.Common.{ℕ, ◌≡◌, refl, sym, ap, String, Option, none, some, ◌∷◌, nat_eq, string_eq}
use shipinator.Errors.{Error, Result, ok, err, ok-injective}
use shipinator.Models.{Uuid, Time, JobId, JobStepId, JobStep}
use shipinator.Executor.{ExecutionSpec}
use shipinator.Fsm.{state_pending, state_running}
use shipinator.Effects.{Platform, Call, caller}
use shipinator.Effects.Logic.{
  Trace, Event, event, Executes, Ensures, Ensures_mono, Ensures_then, Ensures-Executes,
}
use shipinator.Effects.Stories.{set, steps, story, story-quiet, step_log-story}
use shipinator.Orchestrator.{Rounds, execute_and_poll, step_created, run_step}
use shipinator.Orchestrator.Poll.{IsQuiet}
use shipinator.Orchestrator.Steps.{execute_and_poll-IsQuiet}
use shipinator.Postgres.{Driver}
use shipinator.Postgres.Helpers.{ensure_id, set_default_status}
use shipinator.Postgres.Sql.{Sql}
use shipinator.Postgres.JobSteps
use shipinator.Postgres.JobSteps.Laws.{Holds, create-Holds}
use shipinator.Hosting.{Hosted, id_or_error}
use shipinator.Hosting.Kinds.{step_rows}
use shipinator.Hosting.Lives.{LifeSent, Life, RowStored, Opens, ElsewhereMade, Life-RowStored}

module _ (job_id : JobId) (name : String) (order : ℕ) (group : Option String) where
  -- The record that `runStep` makes, with an ID, the instant of its making and what changes.
  abbrev pub step_record : JobStepId → Time → String → Option Time → Option Time → JobStep
  step_record id now status started_at finished_at = record {
    id = id;
    job_id = job_id;
    name = name;
    execution_order = some order;
    parallel_group = group;
    status = status;
    created_at = now;
    started_at = started_at;
    finished_at = finished_at;
  }

  -- What `Create` is given.
  abbrev pub given_step : JobStep
  given_step = step_record 0 0 "" none none

  abbrev pub step_event : Result JobStepId → Event
  step_event r = event (Call.step_create caller given_step) r

  step_created-LifeSent :
      (rounds : Rounds) (spec : ExecutionSpec) (id : JobStepId)
      → Ensures (step_created rounds name spec id) (λ t result. LifeSent id (story steps t) result)
  unfolding step_created
  step_created-LifeSent rounds spec id = elim [
    | some e ↦ LifeSent.refused e _ refl refl
    | none ↦
        Ensures_then (execute_and_poll rounds id spec) _
          (λ t result. LifeSent id (set id state_running none ∷ story steps t) result)
          {P = λ t _. IsQuiet t} (execute_and_poll-IsQuiet rounds id spec)
          λ t result q last.
            LifeSent.sent last (
              ap (λ l. set id state_running none ∷ l)
                (story-quiet steps t _ (step_log-story t q.0)))
  ]

  run_step-Life :
      (rounds : Rounds) (spec : ExecutionSpec)
      → Ensures (run_step rounds job_id name order group spec) (Life steps step_event)
  unfolding run_step
  run_step-Life rounds spec = elim [
    | err e ↦ Life.not_made e _ refl refl
    | ok id ↦
        Ensures_mono (step_created rounds name spec id)
          {P = λ t result. LifeSent id (story steps t) result}
          {Q = λ t result. Life steps step_event (step_event (ok id) ∷ t) result}
          (λ t result h. Life.begun id t refl h) (step_created-LifeSent rounds spec id)
  ]

  module _ (p : Platform) {d : Driver} (sql : Sql d) where
    -- A creation that was answered with an ID leaves a pending record under it.
    made_record :
        (fresh : Uuid) (now : Time) (id : JobStepId) (db : d.Db)
        → ok id
          ≡ id_or_error
              (JobSteps.create p d fresh now given_step db).1.id
              (JobSteps.create p d fresh now given_step db).2
        → Holds p sql
            (JobSteps.create p d fresh now given_step db).0
            (step_record id now state_pending none none)
    unfolding JobSteps.create JobSteps.prepared ensure_id set_default_status nat_eq string_eq
    made_record fresh now id db q = go (JobSteps.create p d fresh now given_step db).2 refl q
      where
        go :
            (o : Option Error)
            → (JobSteps.create p d fresh now given_step db).2 ≡ o
            → ok id ≡ id_or_error fresh o
            → Holds p sql
                (JobSteps.create p d fresh now given_step db).0
                (step_record id now state_pending none none)
        go none e q =
            subst
              (λ i.
                Holds p sql (JobSteps.create p d fresh now given_step db).0
                  (step_record i now state_pending none none))
              (sym (ok-injective q)) (create-Holds p sql fresh now given_step db e)
        go (some x) e q = cc

    pub step_opens : Opens p sql (step_rows p sql) step_record step_event
    unfolding string_eq
    step_opens = record {
      shaped = λ id now. record {
        starts = λ now s a b. refl;
        succeeds = λ now s a b. refl;
        fails = λ now s a b. refl;
      };
      id_of-shape = λ id now s a b. refl;
      Hosted-creation = λ id u db db' (before, after, x, (fresh, now, (q0, q1)), rest). (
        after,
        now,
        subst (λ x. Holds p sql x (step_record id now state_pending none none)) (sym q0)
            (made_record fresh now id before q1),
        rest,
      );
    }

    -- A `runStep` over the Postgres stores that returns, where other clients leave the row of its
    -- step alone: the step could not be made; or it could not be set to running, and its row is
    -- pending; or its row is at running, since the last update was refused; or it returned an
    -- error, and the row is failed, with its instants in started_at and in finished_at; or it
    -- returned nil, and the row is succeeded with started_at, and its finished_at is NULL.
    pub run_step-RowStored :
        (rounds : Rounds) (spec : ExecutionSpec) (db db' : d.Db) {t : Trace} {result : Option Error}
        → Executes (run_step rounds job_id name order group spec) t (some result)
        → Hosted p d (ElsewhereMade p sql (step_rows p sql) step_record step_event t) t db db'
        → RowStored p sql (step_rows p sql) step_record step_event db' t result
    run_step-RowStored rounds spec db db' {t} {result} x h =
        Life-RowStored p sql (step_rows p sql) step_record step_event step_opens t db db' result
          (Ensures-Executes x (Life steps step_event) (run_step-Life rounds spec) refl) h
