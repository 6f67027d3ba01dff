-- ===== src/Hosting/RunSteps.antt =====
-- `Run` over the Postgres stores: the rows of its steps afterwards, those of a batch included.
use mathlib.Core.Path.{subst}
use shipinator.Common.{
  ℕ, ◌≡◌, refl, sym, ap, ◌∙◌, inl, inr, String, Option, some, List, [], ◌∷◌, In, Distinct,
  string_eq,
}
use shipinator.Errors.{Error, ok, err, ok-injective}
use shipinator.Models.{Uuid, PipelineRunId, JobId, JobStepId}
use shipinator.Config.{ShipinatorConfig}
use shipinator.Effects.{Platform, Context, Call}
use shipinator.Effects.Logic.{Trace, Event, event, Executes}
use shipinator.Orchestrator.{Rounds, Config, run}
use shipinator.Postgres.{Driver}
use shipinator.Postgres.Sql.{Sql}
use shipinator.Hosting.{Hosted}
use shipinator.Hosting.Rows.{Elsewhere}
use shipinator.Hosting.Keeps.{Hosted-Hosted}
use shipinator.Hosting.StepRows.{given_step, step_opens}
use shipinator.Hosting.StepFits.{outside, Leads, Fits-Leads}
use shipinator.Hosting.StepHolds.{step_ids, StepHeld, StepHeld-later}
use shipinator.Hosting.StepEnds.{HostedStep, pending-StepHeld}
use shipinator.Hosting.StepLives.{run-Fits}

module _ (p : Platform) {d : Driver} (sql : Sql d) (rounds : Rounds) where
  -- The step that was made under the ID in a trace, in the table.
  abbrev pub MadeHeld : JobStepId → Trace → d.Db → Type 0
  MadeHeld id t db =
      (c : Context) × (job_id : JobId) × (name : String) × (order : ℕ) × (group : Option String)
      × In (event (Call.step_create c (given_step job_id name order group)) (ok id)) t
      × StepHeld p sql rounds job_id name order group id t db

  module _ (i : Uuid) where
    later : (e : Event) (t : Trace) (db : d.Db) → MadeHeld i t db → MadeHeld i (e ∷ t) db
    later e t db (c, job_id, name, order, group, m, h) = (
      c,
      job_id,
      name,
      order,
      group,
      inr m,
      StepHeld-later p sql rounds job_id name order group i e t db h,
    )

    -- The trace makes the step, with an ID that no other step gets.
    made-MadeHeld :
        (t : Trace) (db db' : d.Db)
        → Leads rounds i outside t outside
        → Distinct (step_ids t)
        → In i (step_ids t)
        → HostedStep p sql rounds i t db db'
        → MadeHeld i t db'
    made-MadeHeld [] db db' h dist m x = absurd m
    made-MadeHeld (event (Call.step_create c s) (ok id) ∷ t) db db' h (n, dist) (inl e) x =
        let (job_id, name, order, group, q, leads) = h.0 (ap ok e) in
        let hosted : HostedStep p sql rounds i
            (event (Call.step_create c (given_step job_id name order group)) (ok i) ∷ t) db db' =
          subst
            (λ k.
              HostedStep p sql rounds i
                (event (Call.step_create c (given_step job_id name order group)) (ok k) ∷ t) db db')
            e
            (subst
              (λ s. HostedStep p sql rounds i (event (Call.step_create c s) (ok id) ∷ t) db db') q
              x) in
        let (after, now, held, rest) =
          (step_opens job_id name order group p sql).Hosted-creation i t db db' hosted in
        (
          c,
          job_id,
          name,
          order,
          group,
          inl (
              ap (λ s. event (Call.step_create c s) (ok id)) q
              ∙ ap (λ k. event (Call.step_create c (given_step job_id name order group)) (ok k)) e),
          StepHeld-later p sql rounds job_id name order group i _ t db' (
              pending-StepHeld p sql rounds i job_id name order group now t after db' leads
                (subst (λ k. ¬ In k (step_ids t)) e n) held rest),
        )
    made-MadeHeld (event (Call.step_create c s) (ok id) ∷ t) db db' h (n, dist) (inr m)
          (before, after, x, q, rest) =
        later _ t db' (
          made-MadeHeld t after db'
            (h.1 (λ e. n (subst (λ k. In k (step_ids t)) (sym (ok-injective e)) m))) dist m rest)
    made-MadeHeld (event (Call.step_create c s) (err e) ∷ t) db db' h dist m
          (before, after, x, q, rest) =
        later _ t db' (made-MadeHeld t after db' (h.1 (λ z. cc)) dist m rest)
    made-MadeHeld (event (Call.step_update_status c id s) r ∷ t) db db' h dist m
          (before, after, x, q, rest) =
        later _ t db' (made-MadeHeld t after db' h.1 dist m rest)
    made-MadeHeld (event c r ∷ t) db db' h dist m (before, after, x, q, rest) =
        later _ t db' (made-MadeHeld t after db' h dist m rest)

  -- Other clients leave the rows of the steps.
  abbrev pub ElsewhereSteps : List JobStepId → d.Db → d.Db → Type 0
  ElsewhereSteps ids db db' =
      (i : JobStepId) → In i ids → sql.row db' "job_steps" i ≡ sql.row db "job_steps" i

  -- After a `Run` over the Postgres stores that returns, whose steps got different IDs and have
  -- rows that other clients leave alone, each step that it made, in a batch or not, and in whatever
  -- order the goroutines of the batch moved, is in the table with what was given to `Create`. It is
  -- pending, without instants, and its update to running was refused. Or else the trace has a
  -- whole `executeAndPoll` of the step, and the row has started_at: it is at running if the last
  -- update was refused; succeeded if that `executeAndPoll` returned nil, and its finished_at is
  -- NULL; and failed, with finished_at, if it returned an error.
  pub run-MadeHeld :
      (run_id : PipelineRunId) (config : Config) (cfg : ShipinatorConfig) (db db' : d.Db)
      {t : Trace} {result : Option Error}
      → Executes (run p rounds config run_id cfg) t (some result)
      → Distinct (step_ids t)
      → Hosted p d (ElsewhereSteps (step_ids t)) t db db'
      → (id : JobStepId) → In id (step_ids t)
      → MadeHeld id t db'
  run-MadeHeld run_id config cfg db db' {t} x dist h id m =
      made-MadeHeld id t db db'
        (Fits-Leads rounds id x outside outside (run-Fits id rounds p config run_id cfg) refl) dist
        m
        (Hosted-Hosted p d {E = ElsewhereSteps (step_ids t)}
          {F = Elsewhere p sql "job_steps" (some id)} (λ db db' x. x id m) t db db' h)
