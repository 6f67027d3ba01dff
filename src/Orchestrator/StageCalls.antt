-- ===== src/Orchestrator/StageCalls.antt =====
-- What holds of the calls of a kind and of the steps holds of the three subsystems.
use mathlib.Core.Path.{subst}
use shipinator.Common.{
  ℕ, ◌+◌, ◌≤◌, sym, ap, ◌∙◌, String, Option, none, some, List, [], ◌∷◌, length, length-append,
  arith,
}
use shipinator.Models.{PipelineRunId, JobId, Job, ArtifactId, Artifact}
use shipinator.Errors.{Error, ok, err}
use shipinator.Config.{BuildOutput, BuildStep, TestStep, DeployConfig}
use shipinator.Executor.{ExecutionSpec}
use shipinator.Effects.{Call, Context, caller, detached, Prog, Platform}
use shipinator.Effects.Judgements.{Judgement, checks, gives}
use shipinator.Orchestrator.{run_stage}
use shipinator.Buildinator
use shipinator.Buildinator.{Buildinator, StepFn}
use shipinator.Testinator
use shipinator.Testinator.{Testinator}
use shipinator.Testinator.Plan.{Batch, Plans, done, alone, together, follow, run-Plans}
use shipinator.Deployinator
use shipinator.Deployinator.{Deployinator}

module _ {K : Call → Type 0} (j : Judgement K) where
  open j use {J, returns, calls, binds}

  abbrev pub StepJ : StepFn → Type 0
  StepJ step =
      (job_id : JobId) (name : String) (order : ℕ) (group : Option String) (spec : ExecutionSpec)
      → J (step job_id name order group spec)

  module _ (lists : (c : Context) (id : JobId) → K (Call.artifact_list_by_job c id)) (p : Platform)
      (d : Deployinator) (steps : StepJ d.step) where
    pub deploy-J :
        (job_id build_job_id : JobId) (cfg : DeployConfig)
        → J (Deployinator.run p d job_id build_job_id cfg)
    unfolding Deployinator.run
    deploy-J job_id build_job_id cfg =
        calls (lists caller build_job_id)
          (λ r. gives j r _ _ (λ arts. found (Deployinator.find_artifact cfg.artifact arts)))
      where
        found : (o : Option Artifact) → J (Deployinator.deploy_found p d job_id build_job_id cfg o)
        found none = returns _
        found (some art) = steps job_id "deploy" 0 none _

  module _ (allocates : K Call.new_artifact_id)
      (creates : (c : Context) (a : Artifact) → K (Call.artifact_create c a)) (p : Platform)
      (b : Buildinator) (steps : StepJ b.step) where
    allocate-J : (outputs : List BuildOutput) → J (Buildinator.allocate outputs)
    unfolding Buildinator.allocate
    allocate-J [] = returns _
    allocate-J (o ∷ outputs) =
        calls allocates
          (λ id. binds (Buildinator.allocate outputs) _ (allocate-J outputs) (λ _. returns _))

    register-J :
        (job_id : JobId) (name : String) (ids : List (ArtifactId × BuildOutput))
        → J (Buildinator.register p b job_id name ids)
    unfolding Buildinator.register
    register-J job_id name [] = returns _
    register-J job_id name ((id, out) ∷ rest) =
        calls (creates caller _) (λ r. checks j r _ _ (register-J job_id name rest))

    build_from-J :
        (job_id : JobId) (i : ℕ) (ss : List BuildStep) → J (Buildinator.build_from p b job_id i ss)
    unfolding Buildinator.build_from
    build_from-J job_id i [] = returns _
    build_from-J job_id i (s ∷ ss) =
        binds (Buildinator.allocate s.outputs) _ (allocate-J s.outputs) λ ids.
          binds (b.step job_id s.name i none _) _ (steps job_id s.name i none _) λ failed.
            checks j failed _ _ (
              binds (Buildinator.register p b job_id s.name ids) _ (register-J job_id s.name ids)
                (λ refused. checks j refused _ _ (build_from-J job_id (i + 1) ss)))

    pub build-J : (job_id : JobId) (ss : List BuildStep) → J (Buildinator.run p b job_id ss)
    unfolding Buildinator.run
    build-J job_id ss = build_from-J job_id 0 ss

  -- The batches of at most `limit` steps have the judgement.
  module _ (limit moves : ℕ) (t : Testinator) (steps : StepJ t.step) (job_id : JobId)
      (batches : (ss : List TestStep)
        → length ss ≤ limit
        → (order : ℕ) (group : String)
        → J (Testinator.run_parallel moves t job_id ss order group)) where
    follow-J :
        {ss : List TestStep} {plan : List Batch}
        → Plans ss plan
        → length ss ≤ limit
        → (order : ℕ) → J (follow moves t job_id order plan)
    unfolding follow
    follow-J done h order = returns _
    follow-J (alone s e ps) h order =
        binds (t.step job_id s.name order none _) _ (steps job_id s.name order none _)
          (λ failed. checks j failed _ _ (follow-J ps (omega (arith, h)) (order + 1)))
    follow-J (together s batch rest e a q ps) h order =
        let size = ap length e ∙ length-append (s ∷ batch) rest in
        binds (Testinator.run_parallel moves t job_id (s ∷ batch) order _) _
          (batches (s ∷ batch) (omega (arith, h, size)) order _)
          (λ failed.
            checks j failed _ _ (follow-J ps (omega (arith, h, size)) (order + length (s ∷ batch))))

    pub test-J : (ss : List TestStep) → length ss ≤ limit → J (Testinator.run moves t job_id ss)
    test-J ss h =
        let (plan, ps, e) = run-Plans moves t job_id ss in
        subst (λ x. J x) (sym e) (follow-J ps h 0)

  -- The work of a stage between the calls on its job.
  pub run_stage-J :
      ((c : Context) (job : Job) → K (Call.job_create c job))
      → ((c : Context) (id : JobId) (s : String) → K (Call.job_update_status c id s))
      → (run_id : PipelineRunId) (job_type : String) (fn : JobId → Prog (Option Error))
      → ((id : JobId) → J (fn id))
      → J (run_stage run_id job_type fn)
  unfolding run_stage
  run_stage-J creates updates run_id job_type fn h = calls (creates caller _) elim [
    | err e ↦ returns _
    | ok id ↦ calls (updates caller id _) elim [
      | some e ↦ returns _
      | none ↦ binds (fn id) _ (h id) (λ _. calls (updates detached id _) (λ _. returns _))
    ]
  ]
