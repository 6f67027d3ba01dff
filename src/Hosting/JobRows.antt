-- ===== src/Hosting/JobRows.antt =====
-- `runStage` over the Postgres stores: the row of the job afterwards.
use mathlib.Core.Path.{subst}
use shipinator.Common.{◌≡◌, refl, sym, ap, String, Option, none, some, ◌∷◌, nat_eq, string_eq}
use shipinator.Errors.{Error, Result, ok, err, ok-injective}
use shipinator.Models.{Uuid, Time, PipelineRunId, JobId, Job}
use shipinator.Fsm.{state_pending, state_running}
use shipinator.Effects.{Prog, Platform, Call, caller}
use shipinator.Effects.Logic.{
  Trace, Event, event, Executes, Ensures, Ensures_mono, Ensures_then, Ensures-Executes,
}
use shipinator.Effects.Only.{Only, IsInner, InnerOnly, Only-quiet}
use shipinator.Effects.Stories.{set, jobs, story, story-quiet, job_log-story}
use shipinator.Orchestrator.{job_created, run_stage}
use shipinator.Postgres.{Driver}
use shipinator.Postgres.Helpers.{ensure_id, set_default_status}
use shipinator.Postgres.Sql.{Sql}
use shipinator.Postgres.Jobs
use shipinator.Postgres.Jobs.Laws.{Holds, create-Holds}
use shipinator.Hosting.{Hosted, id_or_error}
use shipinator.Hosting.Kinds.{job_rows}
use shipinator.Hosting.Lives.{LifeSent, Life, RowStored, Opens, ElsewhereMade, Life-RowStored}

module _ (run_id : PipelineRunId) (job_type : String) where
  -- The record that `runStage` makes, with an ID, the instant of its making and what changes.
  abbrev pub job_record : JobId → Time → String → Option Time → Option Time → Job
  job_record id now status started_at finished_at = record {
    id = id;
    pipeline_run_id = run_id;
    job_type = job_type;
    name = job_type;
    status = status;
    created_at = now;
    started_at = started_at;
    finished_at = finished_at;
  }

  -- What `Create` is given.
  abbrev pub given_job : Job
  given_job = job_record 0 0 "" none none

  abbrev pub job_event : Result JobId → Event
  job_event r = event (Call.job_create caller given_job) r

  -- The work of the stage, given by `fn`, makes inner calls only.
  module _ (fn : JobId → Prog (Option Error)) (inner : (id : JobId) → Only IsInner (fn id)) where
    job_created-LifeSent :
        (id : JobId)
        → Ensures (job_created job_type fn id) (λ t result. LifeSent id (story jobs t) result.1)
    unfolding job_created
    job_created-LifeSent id = elim [
      | some e ↦ LifeSent.refused e _ refl refl
      | none ↦
          Ensures_then (fn id) _
            (λ t result. LifeSent id (set id state_running none ∷ story jobs t) result.1)
            {P = λ t _. InnerOnly t} (Only-quiet (fn id) (inner id))
            λ t result q last.
              LifeSent.sent last (
                ap (λ l. set id state_running none ∷ l)
                  (story-quiet jobs t _ (job_log-story t q.0)))
    ]

    pub run_stage-Life :
        Ensures (run_stage run_id job_type fn) (λ t result. Life jobs job_event t result.1)
    unfolding run_stage
    run_stage-Life = elim [
      | err e ↦ Life.not_made e _ refl refl
      | ok id ↦
          Ensures_mono (job_created job_type fn id)
            {P = λ t result. LifeSent id (story jobs t) result.1}
            {Q = λ t result. Life jobs job_event (job_event (ok id) ∷ t) result.1}
            (λ t result h. Life.begun id t refl h) (job_created-LifeSent id)
    ]

  module _ (p : Platform) {d : Driver} (sql : Sql d) where
    -- A creation that was answered with an ID leaves a pending record under it.
    made_record :
        (fresh : Uuid) (now : Time) (id : JobId) (db : d.Db)
        → ok id
          ≡ id_or_error
              (Jobs.create p d fresh now given_job db).1.id
              (Jobs.create p d fresh now given_job db).2
        → Holds p sql
            (Jobs.create p d fresh now given_job db).0
            (job_record id now state_pending none none)
    unfolding Jobs.create Jobs.prepared ensure_id set_default_status nat_eq string_eq
    made_record fresh now id db q = go (Jobs.create p d fresh now given_job db).2 refl q
      where
        go :
            (o : Option Error)
            → (Jobs.create p d fresh now given_job db).2 ≡ o
            → ok id ≡ id_or_error fresh o
            → Holds p sql
                (Jobs.create p d fresh now given_job db).0
                (job_record id now state_pending none none)
        go none e q =
            subst
              (λ i.
                Holds p sql (Jobs.create p d fresh now given_job db).0
                  (job_record i now state_pending none none))
              (sym (ok-injective q)) (create-Holds p sql fresh now given_job db e)
        go (some x) e q = cc

    pub job_opens : Opens p sql (job_rows p sql) job_record job_event
    unfolding string_eq
    job_opens = record {
      shaped = λ id now. record {
        starts = λ now s a b. refl;
        succeeds = λ now s a b. refl;
        fails = λ now s a b. refl;
      };
      id_of-shape = λ id now s a b. refl;
      Hosted-creation = λ id u db db' (before, after, x, (fresh, now, (q0, q1)), rest). (
        after,
        now,
        subst (λ x. Holds p sql x (job_record id now state_pending none none)) (sym q0)
            (made_record fresh now id before q1),
        rest,
      );
    }

    -- A `runStage` over the Postgres stores that returns, whose work makes no call on runs and jobs
    -- and does not look at the context, where other clients leave the row of its job alone: the
    -- job could not be made; or it could not be set to running, and its row is pending; or its row
    -- is at running, since the last update was refused; or the error is not nil, and the row is
    -- failed, with its instants in started_at and in finished_at; or the error is nil, and the row
    -- is succeeded with started_at, and its finished_at is NULL.
    pub run_stage-RowStored :
        (fn : JobId → Prog (Option Error))
        → ((id : JobId) → Only IsInner (fn id))
        → (db db' : d.Db) {t : Trace} {result : JobId × Option Error}
        → Executes (run_stage run_id job_type fn) t (some result)
        → Hosted p d (ElsewhereMade p sql (job_rows p sql) job_record job_event t) t db db'
        → RowStored p sql (job_rows p sql) job_record job_event db' t result.1
    run_stage-RowStored fn inner db db' {t} {result} x h =
        Life-RowStored p sql (job_rows p sql) job_record job_event job_opens t db db' result.1
          (Ensures-Executes x (λ t result. Life jobs job_event t result.1) (run_stage-Life fn inner)
            refl)
          h
