-- ===== src/Deployinator/Choice.antt =====
-- Which artifact a deployment takes.
use mathlib.Core.Logic.{if_pos, if_neg}
use shipinator.Common.{◌≡◌, ◌≢◌, String, Option, none, some, List, [], ◌∷◌, string_eq}
use shipinator.Errors.{Error, errorf, wrap, ok, err}
use shipinator.Models.{JobId, Artifact}
use shipinator.Config.{DeployConfig}
use shipinator.Executor.{ExecutionSpec}
use shipinator.Effects.{Call, caller, Platform}
use shipinator.Effects.Logic.{Trace, event, Ensures, Ensures_mono}
use shipinator.Deployinator.{Deployinator, find_artifact, spec_for_deploy, deploy_found, run}

-- `found` is the first of the artifacts that has the type.
pub data First (type : String) : List Artifact → Option Artifact → Type 0 where
  absent : First type [] none
  here :
      (a : Artifact) (arts : List Artifact)
      → a.artifact_type ≡ type
      → First type (a ∷ arts) (some a)
  later :
      (a : Artifact) {arts : List Artifact} {found : Option Artifact}
      → a.artifact_type ≢ type
      → First type arts found
      → First type (a ∷ arts) found

pub find_artifact-First :
    (type : String) (arts : List Artifact) → First type arts (find_artifact type arts)
unfolding find_artifact
find_artifact-First type [] = First.absent
find_artifact-First type (a ∷ arts) = elim (string_eq.dec a.artifact_type type) [
  | yes e ↦ rw (if_pos _ e) (First.here a arts e)
  | no e ↦ rw (if_neg _ e) (First.later a e (find_artifact-First type arts))
]

module _ (p : Platform) (d : Deployinator) (job_id build_job_id : JobId) (cfg : DeployConfig) where
  -- The deployments, where a step does what `S` says of its spec.
  pub data Deploys (S : ExecutionSpec → Trace → Option Error → Type 0)
      : Trace → Option Error → Type 0 where
    unlisted :
        (e : Error)
        → Deploys S
            (event (Call.artifact_list_by_job caller build_job_id) (err e) ∷ [])
            (some (wrap "list build artifacts: %w" [] e))
    missing :
        (arts : List Artifact)
        → First cfg.artifact arts none
        → Deploys S (event (Call.artifact_list_by_job caller build_job_id) (ok arts) ∷ []) (
            some (
              errorf "no %q artifact found for build job %s"
                (cfg.artifact ∷ p.uuid_string build_job_id ∷ [])))
    deployed :
        (arts : List Artifact) (a : Artifact) {t : Trace} {r : Option Error}
        → First cfg.artifact arts (some a)
        → S (spec_for_deploy d cfg a) t r
        → Deploys S (event (Call.artifact_list_by_job caller build_job_id) (ok arts) ∷ t) r

  -- A deployment lists the artifacts of the build job. If that fails, or if none of them has the
  -- wanted type, it ends with an error and runs no step; if not, it runs one step, for the first
  -- of them that has the type, and ends as the step does.
  pub run-Deploys :
      (S : ExecutionSpec → Trace → Option Error → Type 0)
      → ((spec : ExecutionSpec) → Ensures (d.step job_id "deploy" 0 none spec) (S spec))
      → Ensures (run p d job_id build_job_id cfg) (Deploys S)
  unfolding run deploy_found
  run-Deploys S steps = elim [
    | err e ↦ Deploys.unlisted e
    | ok arts ↦ go arts (find_artifact cfg.artifact arts) (find_artifact-First cfg.artifact arts)
  ]
    where
      go :
          (arts : List Artifact) (found : Option Artifact)
          → First cfg.artifact arts found
          → Ensures (deploy_found p d job_id build_job_id cfg found) (λ t r.
            Deploys S (event (Call.artifact_list_by_job caller build_job_id) (ok arts) ∷ t) r)
      go arts none h = Deploys.missing arts h
      go arts (some a) h =
          Ensures_mono (d.step job_id "deploy" 0 none (spec_for_deploy d cfg a))
            (λ t r s. Deploys.deployed arts a h s) (steps (spec_for_deploy d cfg a))
