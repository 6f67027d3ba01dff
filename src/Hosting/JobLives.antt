-- ===== src/Hosting/JobLives.antt =====
-- A `Run` on its jobs: the lives of the jobs, one after the other.
use mathlib.Core.List.{append-nil}
use shipinator.Common.{String, ◌∙◌, ◌≡◌, refl, Option, none, some, [], ◌∷◌, ◌++◌}
use shipinator.Errors.{Error}
use shipinator.Models.{PipelineRunId, JobId}
use shipinator.Config.{BuildConfig, TestConfig, DeployConfig, ShipinatorConfig}
use shipinator.Fsm.{state_running}
use shipinator.Effects.{caller, detached, Call, Reply, Prog, Platform}
use shipinator.Effects.Logic.{Trace, event, Ensures, Ensures_mono, Ensures_then}
use shipinator.Effects.Only.{Only, IsInner}
use shipinator.Effects.Judgements.{Judgement, checks}
use shipinator.Effects.Stories.{changes, jobs, story}
use shipinator.Orchestrator.{
  Rounds, Config, run_stage, build, test, deploy, build_stage, test_stage, deploy_stage,
  execute_stages, final_run_state, run,
}
use shipinator.Orchestrator.Inner.{run_step-IsInner, build-IsInner, test-IsInner, deploy-IsInner}
use shipinator.Hosting.Lives.{Life}
use shipinator.Hosting.JobRows.{job_event, run_stage-Life}

-- Stretches without a call on a job, and lives of jobs of the run.
pub data JobLives (run_id : PipelineRunId) : Trace → Type 0 where
  quiet : (t : Trace) → story jobs t ≡ [] → JobLives run_id t
  lived :
      (job_type : String) (t : Trace) (result : Option Error)
      → Life jobs (job_event run_id job_type) t result
      → JobLives run_id t
  both : (t u : Trace) → JobLives run_id t → JobLives run_id u → JobLives run_id (t ++ u)

abbrev IsQuiet : Call → Type 0
IsQuiet c = (r : Reply c) → changes jobs c r ≡ []

module _ (run_id : PipelineRunId) where
  abbrev job_lives : Judgement IsQuiet
  job_lives = record {
    J = λ p. Ensures p (λ t _. JobLives run_id t);
    returns = λ a. JobLives.quiet [] refl;
    calls = λ {c = c} {k = k} h g r.
        Ensures_mono (k r)
          (λ t a l. JobLives.both (event c r ∷ []) t (JobLives.quiet _ (append-nil _ ∙ h r)) l)
          (g r);
    binds = λ p f h g.
        Ensures_then p f _ h (λ t a l. Ensures_mono (f a) (λ u b m. JobLives.both t u l m) (g a));
  }

  open job_lives use {binds}

  module _ (p : Platform) (rounds : Rounds) (config : Config) where
    stage-JobLives :
        (job_type : String) (fn : JobId → Prog (Option Error))
        → ((id : JobId) → Only IsInner (fn id))
        → Ensures (run_stage run_id job_type fn) (λ t _. JobLives run_id t)
    stage-JobLives job_type fn inner =
        Ensures_mono (run_stage run_id job_type fn)
          (λ t result l. JobLives.lived job_type t result.1 l)
          (run_stage-Life run_id job_type fn inner)

    build_stage-JobLives :
        (cfg : Option BuildConfig)
        → Ensures (build_stage p rounds config run_id cfg) (λ t _. JobLives run_id t)
    unfolding build_stage build
    build_stage-JobLives none = JobLives.quiet [] refl
    build_stage-JobLives (some cfg) =
        stage-JobLives _ _
          (λ id. build-IsInner p (build p rounds config) (run_step-IsInner rounds) id cfg.steps)

    test_stage-JobLives :
        (cfg : Option TestConfig)
        → Ensures (test_stage p rounds config run_id cfg) (λ t _. JobLives run_id t)
    unfolding test_stage test
    test_stage-JobLives none = JobLives.quiet [] refl
    test_stage-JobLives (some cfg) = stage-JobLives _ _ (λ id.
        test-IsInner rounds.moves (test p rounds config) (run_step-IsInner rounds) id cfg.steps)

    deploy_stage-JobLives :
        (build_job_id : JobId) (cfg : Option DeployConfig)
        → Ensures (deploy_stage p rounds config run_id build_job_id cfg) (λ t _. JobLives run_id t)
    unfolding deploy_stage deploy
    deploy_stage-JobLives build_job_id none = JobLives.quiet [] refl
    deploy_stage-JobLives build_job_id (some cfg) = stage-JobLives _ _ (λ id.
        deploy-IsInner p (deploy p rounds config) (run_step-IsInner rounds) id build_job_id cfg)

    execute_stages-JobLives :
        (cfg : ShipinatorConfig)
        → Ensures (execute_stages p rounds config run_id cfg) (λ t _. JobLives run_id t)
    unfolding execute_stages
    execute_stages-JobLives cfg =
        binds (build_stage p rounds config run_id cfg.build) _ (build_stage-JobLives cfg.build)
          λ built. checks job_lives built.1 _ _ (
            binds (test_stage p rounds config run_id cfg.test) _ (test_stage-JobLives cfg.test)
              λ tested. checks job_lives tested.1 _ _ (
                binds (deploy_stage p rounds config run_id built.0 cfg.deploy) _
                  (deploy_stage-JobLives built.0 cfg.deploy)
                  (λ deployed. checks job_lives deployed.1 _ _ (JobLives.quiet [] refl))))

    -- The calls of a `Run` on jobs are lives of jobs of the run, one after the other.
    pub run-JobLives :
        (cfg : ShipinatorConfig)
        → Ensures (run p rounds config run_id cfg) (λ t _. JobLives run_id t)
    unfolding run
    run-JobLives cfg = elim [
      | some e ↦ JobLives.quiet _ refl
      | none ↦
          let start = event (Call.run_update_status caller run_id state_running) none in
          Ensures_then (execute_stages p rounds config run_id cfg) _
            (λ t _. JobLives run_id (start ∷ t)) (execute_stages-JobLives cfg)
            (λ t r l c last.
              JobLives.both (start ∷ [])
                (t
                  ++ (event Call.context_err c
                      ∷ event (Call.run_update_status detached run_id (final_run_state c r)) last
                      ∷ []))
                (JobLives.quiet _ refl) (JobLives.both t _ l (JobLives.quiet _ refl)))
    ]
