-- ===== src/Tests/Parts.antt =====
-- The theorems about the buildinator, the deployinator and the Kubernetes executor, at small data.
use shipinator.Common.{string_eq, ◌≡◌, refl, ◌<>◌, none, some, [], ◌∷◌}
use shipinator.Effects.{Platform, ret}
use shipinator.Effects.Logic.{Ensures}
use shipinator.Config.{BuildStep, DeployConfig}
use shipinator.Buildinator
use shipinator.Buildinator.{Buildinator}
use shipinator.Buildinator.Artifacts.{Built, run-Built}
use shipinator.Deployinator
use shipinator.Deployinator.{Deployinator}
use shipinator.Deployinator.Choice.{Deploys, run-Deploys}
use shipinator.Kubernetes.{JobStatus, job_to_status}
use shipinator.Kubernetes.Laws.{Reports, job_to_status-Reports}

abbrev platform : Platform
platform = record { uuid_string = λ id. "id"; path_join = λ base name. base <> ("/" <> name) }

abbrev builder : Buildinator
builder = record {
  step = λ job_id name order group spec. ret none;
  backend = "nfs";
  base_path = "/artifacts";
  builder_image = "builder";
}

abbrev chart : BuildStep
chart = record {
  name = "chart";
  run = "make chart";
  outputs = record { type = "helm_chart"; path = "c.tgz"; ref = "" } ∷ [];
}

run-Built_example :
    Ensures
      (Buildinator.run platform builder 3 (chart ∷ chart ∷ []))
      (Built platform builder 3 (λ i s t r. r ≡ none) 0 (chart ∷ chart ∷ []))
run-Built_example =
    run-Built platform builder 3 (λ i s t r. r ≡ none) (λ i s. refl) (chart ∷ chart ∷ [])

abbrev deployer : Deployinator
deployer = record { step = λ job_id name order group spec. ret none; builder_image = "builder" }

abbrev deployment : DeployConfig
deployment = record { artifact = "helm_chart"; target = "app"; namespace = "prod" }

run-Deploys_example :
    Ensures
      (Deployinator.run platform deployer 5 3 deployment)
      (Deploys platform deployer 5 3 deployment (λ spec t r. (t ≡ []) × (r ≡ none)))
run-Deploys_example =
    run-Deploys platform deployer 5 3 deployment (λ spec t r. (t ≡ []) × (r ≡ none))
      (λ spec. (refl, refl))

abbrev complete : JobStatus
complete = record {
  start_time = some 1000;
  completion_time = some 9000;
  active = 0;
  conditions =
      record { type = "Suspended"; status = "False" }
      ∷ record { type = "Complete"; status = "True" }
      ∷ [];
}

job_to_status-Reports_example : Reports complete (job_to_status complete)
job_to_status-Reports_example = job_to_status-Reports complete
