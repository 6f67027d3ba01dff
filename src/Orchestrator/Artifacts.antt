-- ===== src/Orchestrator/Artifacts.antt =====
-- The artifacts that a `Run` registers: those of its build stage.
use mathlib.Core.List.{append_assoc}
use mathlib.Core.Option.{some-ne-none}
use shipinator.Common.{ℕ, ◌∙◌, ◌≡◌, ◌≢◌, refl, ap, String, Option, none, some, List, [], ◌∷◌, ◌++◌}
use shipinator.Errors.{Error, ok, err}
use shipinator.Models.{JobId, PipelineRunId, job_type_build}
use shipinator.Config.{BuildConfig, BuildStep, TestConfig, DeployConfig, ShipinatorConfig}
use shipinator.Fsm.{state_running}
use shipinator.Orchestrator.Lifecycle.{Lifecycle}
use shipinator.Orchestrator.Steps.{run_step-Lifecycle}
use shipinator.Effects.{Call, caller, detached, Prog, ret, call, hang, ◌>>=◌, check, Platform}
use shipinator.Effects.Logic.{Trace, Event, event, Ensures, Ensures_mono, Ensures_then}
use shipinator.Effects.Logs.{Entry, job_log, artifact_log, artifact_log-quiet, step_log}
use shipinator.Effects.Only.{Only, Only-bind, Only-check}
use shipinator.Buildinator
use shipinator.Buildinator.Artifacts.{Built, run-Built}
use shipinator.Orchestrator.{
  Rounds, Config, job_created, run_stage, run_step, build, test, deploy, build_stage, test_stage,
  deploy_stage, execute_stages, run,
}
use shipinator.Orchestrator.StepCalls.{StepCalls}
use shipinator.Orchestrator.StageCalls.{deploy-J, run_stage-J}
use shipinator.Orchestrator.Inner.{run_step-Only, test-Only}
use shipinator.Effects.Judgements.{only_judgement}

-- All calls but the creation of an artifact.
abbrev IsOther : Call → Type 0
IsOther (Call.artifact_create _ _) = ⊥
IsOther _ = Unit

abbrev other_calls : StepCalls IsOther
other_calls = record {
  polling = record {
    execution_create = λ c e. tt;
    execution_update_status = λ c id s. tt;
    submit = λ c s. tt;
    status = λ c h. tt;
    cancel = λ c h. tt;
    select = tt;
  };
  step_create = λ c s. tt;
  step_update_status = λ c id s. tt;
}

Only-registers_none :
    {A : Type 0} (p : Prog A) → Only IsOther p → Ensures p (λ t _. artifact_log t ≡ [])
Only-registers_none (ret a) h = refl
Only-registers_none hang h = tt
Only-registers_none (call (Call.artifact_create _ _) k) h = absurd h.0
Only-registers_none (call _ k) h = λ r. Only-registers_none (k r) (h.1 r)

run_stage-Only :
    (run_id : PipelineRunId) (job_type : String) (fn : JobId → Prog (Option Error))
    → ((id : JobId) → Only IsOther (fn id))
    → Only IsOther (run_stage run_id job_type fn)
run_stage-Only = run_stage-J (only_judgement IsOther) (λ c job. tt) (λ c id s. tt)

module _ (p : Platform) (rounds : Rounds) (config : Config) where
  test_stage-Only :
      (run_id : PipelineRunId) (cfg : Option TestConfig)
      → Only IsOther (test_stage p rounds config run_id cfg)
  unfolding test_stage
  test_stage-Only run_id none = tt
  test_stage-Only run_id (some cfg) = run_stage-Only run_id _ _ (λ id.
      test-Only IsOther other_calls (λ _. tt) rounds.moves (test p rounds config)
        (run_step-Only IsOther other_calls rounds) id cfg.steps)

  deploy_stage-Only :
      (run_id : PipelineRunId) (build_job_id : JobId) (cfg : Option DeployConfig)
      → Only IsOther (deploy_stage p rounds config run_id build_job_id cfg)
  unfolding deploy_stage
  deploy_stage-Only run_id build_job_id none = tt
  deploy_stage-Only run_id build_job_id (some cfg) = run_stage-Only run_id _ _ (λ id.
      deploy-J (only_judgement IsOther) (λ _ _. tt) p (deploy p rounds config)
        (run_step-Only IsOther other_calls rounds) id build_job_id cfg)

  -- A step of a build: the life of its record, with its error. It registers nothing.
  abbrev pub IsStep : ℕ → BuildStep → Trace → Option Error → Type 0
  IsStep i s u r = Lifecycle s.name (step_log u) r × (artifact_log u ≡ [])

  -- The build of a job.
  pub build-Built :
      (job_id : JobId) (steps : List BuildStep)
      → Ensures
          (Buildinator.run p (build p rounds config) job_id steps)
          (Built p (build p rounds config) job_id IsStep 0 steps)
  unfolding build
  build-Built job_id steps =
      run-Built p (build p rounds config) job_id IsStep
        (λ i s.
          Ensures_mono (run_step rounds job_id s.name i none _) (λ u r h. (h.0, h.1.2))
            (run_step-Lifecycle rounds job_id s.name i none _))
        steps

  -- The build in the trace of a run, and the result of the run.
  pub data RunArtifacts (cfg : Option BuildConfig) (t : Trace) (result : Option Error)
      : Type 0 where
    unbuilt : cfg ≡ none → artifact_log t ≡ [] → RunArtifacts cfg t result
    unstarted : artifact_log t ≡ [] → result ≢ none → RunArtifacts cfg t result
    built :
        (b : BuildConfig) (id : JobId) (before work after : Trace) (r : Option Error)
        → cfg ≡ some b
        → t ≡ before ++ (work ++ after)
        → job_log before ≡ Entry.created job_type_build id ∷ Entry.updated id "running" none ∷ []
        → artifact_log before ≡ []
        → artifact_log after ≡ []
        → Built p (build p rounds config) id IsStep 0 b.steps work r
        → (result ≡ none → r ≡ none)
        → RunArtifacts cfg t result

  -- What follows registers nothing, and ends with no error only if what came before did.
  then-RunArtifacts :
      (cfg : Option BuildConfig) (t u : Trace) (before after : Option Error)
      → RunArtifacts cfg t before
      → artifact_log u ≡ []
      → (after ≡ none → before ≡ none)
      → RunArtifacts cfg (t ++ u) after
  then-RunArtifacts cfg t u before after (RunArtifacts.unbuilt c a) q f =
      RunArtifacts.unbuilt c (artifact_log-quiet t u a ∙ q)
  then-RunArtifacts cfg t u before after (RunArtifacts.unstarted a n) q f =
      RunArtifacts.unstarted (artifact_log-quiet t u a ∙ q) (λ z. n (f z))
  then-RunArtifacts cfg t u before after (RunArtifacts.built b id x w y r c e j k l m g) q f =
      RunArtifacts.built b id x w (y ++ u) r c
        (ap (λ t. t ++ u) e ∙ (append_assoc x (w ++ y) u ∙ ap (λ z. x ++ z) (append_assoc w y u))) j
        k (artifact_log-quiet y u l ∙ q) m (λ z. g (f z))

  -- So does what comes before the stages.
  after-RunArtifacts :
      (cfg : Option BuildConfig) (e : Event) (t : Trace) (result : Option Error)
      → ((t : Trace) → artifact_log (e ∷ t) ≡ artifact_log t)
      → ((t : Trace) → job_log (e ∷ t) ≡ job_log t)
      → RunArtifacts cfg t result
      → RunArtifacts cfg (e ∷ t) result
  after-RunArtifacts cfg e t result a j (RunArtifacts.unbuilt c q) =
      RunArtifacts.unbuilt c (a t ∙ q)
  after-RunArtifacts cfg e t result a j (RunArtifacts.unstarted q n) =
      RunArtifacts.unstarted (a t ∙ q) n
  after-RunArtifacts cfg e t result a j (RunArtifacts.built b id x w y r c q k l m o g) =
      RunArtifacts.built b id (e ∷ x) w y r c (ap (λ t. e ∷ t) q) (j x ∙ k) (a x ∙ l) m o g

  build_stage-RunArtifacts :
      (run_id : PipelineRunId) (cfg : Option BuildConfig)
      → Ensures (build_stage p rounds config run_id cfg) (λ t (_, r). RunArtifacts cfg t r)
  unfolding build_stage run_stage job_created
  build_stage-RunArtifacts run_id none = RunArtifacts.unbuilt refl refl
  build_stage-RunArtifacts run_id (some b) = elim [
    | err e ↦ RunArtifacts.unstarted refl (some-ne-none _)
    | ok id ↦ elim [
      | some e ↦ RunArtifacts.unstarted refl (some-ne-none _)
      | none ↦
          Ensures_then (Buildinator.run p (build p rounds config) id b.steps) _
            (λ t (_, r).
              RunArtifacts (some b)
                (event (Call.job_create caller _) (ok id)
                  ∷ event (Call.job_update_status caller id _) none
                  ∷ t)
                r)
            (build-Built id b.steps)
            (λ t r k last.
              RunArtifacts.built b id
                (event (Call.job_create caller _) (ok id)
                  ∷ event (Call.job_update_status caller id _) none
                  ∷ [])
                t (event (Call.job_update_status detached id _) last ∷ []) r refl refl refl refl
                refl k (λ z. z))
    ]
  ]

  -- The stages after the build.
  after_build :
      PipelineRunId → JobId → Option TestConfig → Option DeployConfig → Prog (Option Error)
  after_build run_id build_job_id test_cfg deploy_cfg = do
    tested ← test_stage p rounds config run_id test_cfg
    check tested.1 some do
      deployed ← deploy_stage p rounds config run_id build_job_id deploy_cfg
      check deployed.1 some (ret none)

  after_build-Only :
      (run_id : PipelineRunId) (build_job_id : JobId) (tests : Option TestConfig)
      (deploys : Option DeployConfig)
      → Only IsOther (after_build run_id build_job_id tests deploys)
  unfolding after_build
  after_build-Only run_id build_job_id tests deploys =
      Only-bind IsOther (test_stage p rounds config run_id tests) _ (test_stage-Only run_id tests)
        λ tested. Only-check IsOther tested.1 _ _ (
          Only-bind IsOther (deploy_stage p rounds config run_id build_job_id deploys) _
            (deploy_stage-Only run_id build_job_id deploys)
            (λ deployed. Only-check IsOther deployed.1 _ _ tt))

  execute_stages-RunArtifacts :
      (run_id : PipelineRunId) (cfg : ShipinatorConfig)
      → Ensures (execute_stages p rounds config run_id cfg) (λ t r. RunArtifacts cfg.build t r)
  unfolding execute_stages after_build
  execute_stages-RunArtifacts run_id cfg =
      Ensures_then (build_stage p rounds config run_id cfg.build) _
        (λ t r. RunArtifacts cfg.build t r) (build_stage-RunArtifacts run_id cfg.build)
        (λ t (id, failed) h. rest t id failed h)
    where
      rest :
          (t : Trace) (id : JobId) (failed : Option Error)
          → RunArtifacts cfg.build t failed
          → Ensures
              (check failed some (after_build run_id id cfg.test cfg.deploy))
              (λ u r. RunArtifacts cfg.build (t ++ u) r)
      rest t id (some e) h = then-RunArtifacts cfg.build t [] (some e) (some e) h refl (λ z. z)
      rest t id none h =
          Ensures_mono (after_build run_id id cfg.test cfg.deploy)
            (λ u r q. then-RunArtifacts cfg.build t u none r h q (λ _. refl))
            (Only-registers_none _ (after_build-Only run_id id cfg.test cfg.deploy))

  pub run-RunArtifacts :
      (run_id : PipelineRunId) (cfg : ShipinatorConfig)
      → Ensures (run p rounds config run_id cfg) (λ t r. RunArtifacts cfg.build t r)
  unfolding run
  run-RunArtifacts run_id cfg = elim [
    | some e ↦ RunArtifacts.unstarted refl (some-ne-none _)
    | none ↦
        let start = event (Call.run_update_status caller run_id state_running) none in
        Ensures_then (execute_stages p rounds config run_id cfg) _
          (λ t r. RunArtifacts cfg.build (start ∷ t) r) (execute_stages-RunArtifacts run_id cfg)
          (λ t r h c last.
            after-RunArtifacts cfg.build start _ r (λ t. refl) (λ t. refl)
              (then-RunArtifacts cfg.build t _ r r h refl (λ z. z)))
  ]
