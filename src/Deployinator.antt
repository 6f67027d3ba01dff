-- ===== src/Deployinator.antt =====
-- internal/deployinator/deployinator.go
pub mod Choice
use shipinator.Common.{
  String, ◌<>◌, Option, none, some, List, [], ◌∷◌, ◌==◌, string_eq, if◌then◌else◌,
}
use shipinator.Errors.{Error, errorf, wrap}
use shipinator.Models.{JobId, Artifact}
use shipinator.Config.{DeployConfig}
use shipinator.Executor.{ExecutionSpec}
use shipinator.Effects.{Call, caller, Prog, ret, ◌>>=◌, ask, given, Platform}
use shipinator.Buildinator.{StepFn}

pub record Deployinator : Type 0 where
  pub step : StepFn
  pub builder_image : String

-- The artifact store, which `New` takes too, answers the calls.
abbrev pub new : StepFn → String → Deployinator
new step builder_image = record { step = step; builder_image = builder_image }

unfoldable pub deploy_cmd : DeployConfig → Artifact → String
deploy_cmd cfg art =
    if cfg.artifact == "helm_chart"
    then "helm upgrade --install "
      <> (cfg.target <> (" " <> (art.storage_path <> (" --namespace " <> cfg.namespace))))
    else "kubectl apply -f " <> (art.storage_path <> (" --namespace " <> cfg.namespace))

-- The loop that looks for the artifact.
unfoldable pub find_artifact : String → List Artifact → Option Artifact
find_artifact type [] = none
find_artifact type (a ∷ arts) = if a.artifact_type == type then some a else find_artifact type arts

unfoldable pub spec_for_deploy : Deployinator → DeployConfig → Artifact → ExecutionSpec
unfolding deploy_cmd
spec_for_deploy d cfg art = record {
  image = d.builder_image;
  command = "sh" ∷ "-c" ∷ deploy_cmd cfg art ∷ [];
  env = [];
  artifacts = [];
  timeout = 0;
}

module _ (p : Platform) (d : Deployinator) where
  -- What `Run` does with the artifact that it found.
  unfoldable pub deploy_found : JobId → JobId → DeployConfig → Option Artifact → Prog (Option Error)
  unfolding spec_for_deploy
  deploy_found job_id build_job_id cfg none = ret (
      some (
        errorf "no %q artifact found for build job %s"
          (cfg.artifact ∷ p.uuid_string build_job_id ∷ [])))
  deploy_found job_id build_job_id cfg (some art) =
      d.step job_id "deploy" 0 none (spec_for_deploy d cfg art)

  unfoldable pub run : JobId → JobId → DeployConfig → Prog (Option Error)
  unfolding find_artifact deploy_found
  run job_id build_job_id cfg = do
    arts ← ask (Call.artifact_list_by_job caller build_job_id)
    given arts (λ e. some (wrap "list build artifacts: %w" [] e))
        (λ arts. deploy_found job_id build_job_id cfg (find_artifact cfg.artifact arts))
