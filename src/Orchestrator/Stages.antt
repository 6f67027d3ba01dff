-- ===== src/Orchestrator/Stages.antt =====
-- `runStage` and `executeStages`: the lives of the jobs, and their order.
use mathlib.Core.Option.{none-ne-some, some-ne-none}
use mathlib.Core.List.{append_assoc, append-nil}
use shipinator.Common.{
  ◌≡◌, refl, sym, ap, ◌∙◌, ◌⊎◌, inl, inr, String, Option, none, some, List, [], ◌∷◌, ◌++◌,
}
use shipinator.Errors.{Error, ok, err}
use shipinator.Models.{PipelineRunId, JobId, job_type_build, job_type_test, job_type_deploy}
use shipinator.Config.{BuildConfig, TestConfig, DeployConfig, ShipinatorConfig}
use shipinator.Fsm.{state_running}
use shipinator.Effects.{Prog, ret, ◌>>=◌, check, Platform}
use shipinator.Effects.Logic.{Trace, Ensures, Ensures_mono, Ensures_then}
use shipinator.Effects.Logs.{
  Entry, job_log, run_log, context_errors, job_log-append, job_log-quiet, run_log-quiet,
  context_errors-quiet,
}
use shipinator.Effects.Only.{Only, IsInner, Only-quiet}
use shipinator.Orchestrator.{
  Rounds, Config, job_created, run_stage, build, test, deploy, build_stage, test_stage,
  deploy_stage, execute_stages,
}
use shipinator.Orchestrator.Lifecycle.{Lifecycle, final-Lifecycle}
use shipinator.Orchestrator.Inner.{run_step-IsInner, build-IsInner, test-IsInner, deploy-IsInner}

-- What a stage leaves alone.
abbrev pub JobsOnly : Trace → Type 0
JobsOnly t = (run_log t ≡ []) × (context_errors t ≡ [])

then-JobsOnly : (t u : Trace) → JobsOnly t → JobsOnly u → JobsOnly (t ++ u)
then-JobsOnly t u (r, c) (r', c') = (run_log-quiet t u r ∙ r', context_errors-quiet t u c ∙ c')

-- The work of the stage, given by `fn`, makes inner calls only.
module _ (job_type : String) (fn : JobId → Prog (Option Error))
    (inner : (id : JobId) → Only IsInner (fn id)) where
  job_created-Lifecycle :
      (id : JobId)
      → Ensures (job_created job_type fn id) (λ t (_, result).
        Lifecycle job_type (Entry.created job_type id ∷ job_log t) result × JobsOnly t)
  unfolding job_created
  job_created-Lifecycle id = elim [
    | some e ↦ (Lifecycle.not_started e _ id refl refl, (refl, refl))
    | none ↦
        Ensures_then (fn id) _
          (λ t (_, result).
            Lifecycle job_type
              (Entry.created job_type id ∷ Entry.updated id state_running none ∷ job_log t) result
            × JobsOnly t)
          (Only-quiet (fn id) (inner id))
          λ t result q r. (
            final-Lifecycle job_type id result r _ (job_log-quiet t _ q.0),
            then-JobsOnly t _ (q.1, q.2) (refl, refl),
          )
  ]

  -- Whatever is answered: a `runStage` that returns, over work that makes no call on runs and jobs
  -- and does not look at the context, has asked once for its job. If that was refused, or if the
  -- job was made and its update to running was refused, it has touched no job any more and returns
  -- an error. If both were accepted it has asked once for the last update of the job: to succeeded
  -- if it returns a nil error and to failed if not. It touches no run and does not look at the
  -- context.
  pub run_stage-Lifecycle :
      (run_id : PipelineRunId)
      → Ensures
          (run_stage run_id job_type fn)
          (λ t (_, result). Lifecycle job_type (job_log t) result × JobsOnly t)
  unfolding run_stage
  run_stage-Lifecycle run_id = elim [
    | err e ↦ (Lifecycle.not_created e _ refl refl, (refl, refl))
    | ok id ↦ job_created-Lifecycle id
  ]

-- The jobs of the stages in order: each stage but the last one that was begun has succeeded, and
-- a stage is begun only after the ones before it have.
abbrev pub StageRuns : List String → List Entry → Option Error → Type 0
StageRuns [] log result = (log ≡ []) × (result ≡ none)
StageRuns (s ∷ stages) log result =
    ((e : Error) × Lifecycle s log (some e) × (result ≡ some e))
    ⊎ ((mine : List Entry) × (rest : List Entry) × Lifecycle s mine none
        × (log ≡ mine ++ rest)
        × StageRuns stages rest result)

abbrev slot {ℓ} : {A : Type ℓ} → String → Option A → List String
slot s none = []
slot s (some _) = s ∷ []

-- The stages that a configuration names, in the order build, test, deploy.
abbrev pub configured : ShipinatorConfig → List String
configured cfg =
    slot job_type_build cfg.build
    ++ (slot job_type_test cfg.test ++ slot job_type_deploy cfg.deploy)

-- The stages of one list after those of another that have all succeeded, or that have not.
StageRuns-append :
    (xs ys : List String) (log rest : List Entry) (result : Option Error)
    → StageRuns xs log none
    → StageRuns ys rest result
    → StageRuns (xs ++ ys) (log ++ rest) result
StageRuns-append [] ys log rest result h k = rw h.0 k
StageRuns-append (x ∷ xs) ys log rest result (inl (e, l, q)) k = absurd (none-ne-some e q)
StageRuns-append (x ∷ xs) ys log rest result (inr (mine, more, l, q, h)) k = inr (
  mine,
  more ++ rest,
  l,
  ap (λ l. l ++ rest) q ∙ append_assoc mine more rest,
  StageRuns-append xs ys more rest result h k,
)

StageRuns-stop :
    (xs ys : List String) (log : List Entry) (e : Error)
    → StageRuns xs log (some e)
    → StageRuns (xs ++ ys) log (some e)
StageRuns-stop [] ys log e h = absurd (some-ne-none e h.1)
StageRuns-stop (x ∷ xs) ys log e (inl h) = inl h
StageRuns-stop (x ∷ xs) ys log e (inr (mine, more, l, q, h)) =
    inr (mine, more, l, q, StageRuns-stop xs ys more e h)

-- A part of `executeStages` whose error, if any, ends it.
chain :
    {A : Type 0} (xs ys : List String) (p : Prog (A × Option Error))
    (f : A × Option Error → Prog (Option Error))
    → Ensures p (λ t a. StageRuns xs (job_log t) a.1 × JobsOnly t)
    → ((a : A × Option Error)
        → Ensures (f a) (λ t result. StageRuns ys (job_log t) result × JobsOnly t))
    → Ensures
        (p >>= λ a. check a.1 some (f a))
        (λ t result. StageRuns (xs ++ ys) (job_log t) result × JobsOnly t)
chain xs ys p f h k =
    Ensures_then p (λ a. check a.1 some (f a))
      (λ t result. StageRuns (xs ++ ys) (job_log t) result × JobsOnly t) h λ t a. next t a.0 a.1
  where
    next :
        (t : Trace) (id : _) (o : Option Error)
        → StageRuns xs (job_log t) o × JobsOnly t
        → Ensures
            (check o some (f (id, o)))
            (λ u result. StageRuns (xs ++ ys) (job_log (t ++ u)) result × JobsOnly (t ++ u))
    next t id (some e) (h, j) = rw append-nil (StageRuns-stop xs ys (job_log t) e h, j)
    next t id none (h, j) =
        Ensures_mono (f (id, none))
          (λ u result (g, i). (
            rw job_log-append (StageRuns-append xs ys (job_log t) (job_log u) result h g),
            then-JobsOnly t u j i,
          ))
          (k (id, none))

-- The last part, after which `executeStages` returns.
last :
    (p : Prog (JobId × Option Error)) (xs : List String)
    → Ensures p (λ t a. StageRuns xs (job_log t) a.1 × JobsOnly t)
    → Ensures
        (p >>= λ a. check a.1 some (ret none))
        (λ t result. StageRuns xs (job_log t) result × JobsOnly t)
last p xs h =
    Ensures_then p (λ a. check a.1 some (ret none))
      (λ t result. StageRuns xs (job_log t) result × JobsOnly t) h λ t a. ends t a.1
  where
    ends :
        (t : Trace) (o : Option Error)
        → StageRuns xs (job_log t) o × JobsOnly t
        → Ensures
            (check o some (ret none))
            (λ u result. StageRuns xs (job_log (t ++ u)) result × JobsOnly (t ++ u))
    ends t (some e) h = rw append-nil h
    ends t none h = rw append-nil h

StageRuns-one :
    (s : String) (log : List Entry) (o : Option Error)
    → Lifecycle s log o
    → StageRuns (s ∷ []) log o
StageRuns-one s log (some e) l = inl (e, l, refl)
StageRuns-one s log none l = inr (log, [], l, sym (append-nil log), (refl, refl))

module _ (p : Platform) (rounds : Rounds) (config : Config) (run_id : PipelineRunId) where
  abbrev SlotRuns {ℓ} : {A : Type ℓ} → String → Option A → Prog (JobId × Option Error) → Type 0
  SlotRuns job_type cfg stage =
      Ensures stage (λ t a. StageRuns (slot job_type cfg) (job_log t) a.1 × JobsOnly t)

  build_stage-SlotRuns :
      (cfg : Option BuildConfig)
      → SlotRuns job_type_build cfg (build_stage p rounds config run_id cfg)
  unfolding build_stage
  build_stage-SlotRuns none = ((refl, refl), (refl, refl))
  build_stage-SlotRuns (some cfg) =
      Ensures_mono (run_stage run_id job_type_build _)
        (λ t a (l, j). (StageRuns-one job_type_build (job_log t) a.1 l, j))
        (run_stage-Lifecycle job_type_build _
          (λ id. build-IsInner p (build p rounds config) (run_step-IsInner rounds) id cfg.steps)
          run_id)

  test_stage-SlotRuns :
      (cfg : Option TestConfig) → SlotRuns job_type_test cfg (test_stage p rounds config run_id cfg)
  unfolding test_stage
  test_stage-SlotRuns none = ((refl, refl), (refl, refl))
  test_stage-SlotRuns (some cfg) =
      Ensures_mono (run_stage run_id job_type_test _)
        (λ t a (l, j). (StageRuns-one job_type_test (job_log t) a.1 l, j))
        (run_stage-Lifecycle job_type_test _
          (λ id.
            test-IsInner rounds.moves (test p rounds config) (run_step-IsInner rounds) id cfg.steps)
          run_id)

  deploy_stage-SlotRuns :
      (build_job_id : JobId) (cfg : Option DeployConfig)
      → SlotRuns job_type_deploy cfg (deploy_stage p rounds config run_id build_job_id cfg)
  unfolding deploy_stage
  deploy_stage-SlotRuns build_job_id none = ((refl, refl), (refl, refl))
  deploy_stage-SlotRuns build_job_id (some cfg) =
      Ensures_mono (run_stage run_id job_type_deploy _)
        (λ t a (l, j). (StageRuns-one job_type_deploy (job_log t) a.1 l, j))
        (run_stage-Lifecycle job_type_deploy _
          (λ id.
            deploy-IsInner p (deploy p rounds config) (run_step-IsInner rounds) id build_job_id cfg)
          run_id)

  -- Whatever is answered: the jobs that a returning `executeStages` makes are those of the
  -- configured stages in the order build, test, deploy. Each lives one life, a job is made only
  -- after the jobs of all stages before it have been set to succeeded, and the result is nil
  -- exactly if the last configured stage got there. No run is touched.
  pub execute_stages-StageRuns :
      (cfg : ShipinatorConfig)
      → Ensures
          (execute_stages p rounds config run_id cfg)
          (λ t result. StageRuns (configured cfg) (job_log t) result × JobsOnly t)
  unfolding execute_stages
  execute_stages-StageRuns cfg =
      chain (slot job_type_build cfg.build) _ (build_stage p rounds config run_id cfg.build) _
        (build_stage-SlotRuns cfg.build)
        λ built.
          chain (slot job_type_test cfg.test) _ (test_stage p rounds config run_id cfg.test) _
            (test_stage-SlotRuns cfg.test)
            λ tested.
              last (deploy_stage p rounds config run_id built.0 cfg.deploy)
                (slot job_type_deploy cfg.deploy) (deploy_stage-SlotRuns built.0 cfg.deploy)
