-- ===== src/Buildinator.antt =====
-- internal/buildinator/buildinator.go
pub mod Artifacts
use shipinator.Common.{ℕ, ◌+◌, String, Option, none, some, List, [], ◌∷◌}
use shipinator.Errors.{Error, wrap}
use shipinator.Models.{JobId, ArtifactId, Artifact}
use shipinator.Config.{BuildOutput, BuildStep}
use shipinator.Executor.{ArtifactSpec, ExecutionSpec}
use shipinator.Effects.{Call, caller, Prog, ret, ◌>>=◌, ask, check, Platform}

-- The type of the same name in all three packages.
abbrev pub StepFn : Type 0
StepFn = JobId → String → ℕ → Option String → ExecutionSpec → Prog (Option Error)

pub record Buildinator : Type 0 where
  pub step : StepFn
  pub backend : String
  pub base_path : String
  pub builder_image : String

-- The artifact store, which `New` takes too, answers the calls.
abbrev pub new : StepFn → String → String → String → Buildinator
new step backend base_path builder_image = record {
  step = step;
  backend = backend;
  base_path = base_path;
  builder_image = builder_image;
}

unfoldable pub outputs_to_specs : List BuildOutput → List ArtifactSpec
outputs_to_specs [] = []
outputs_to_specs (o ∷ outputs) = record { type = o.type; path = o.path } ∷ outputs_to_specs outputs

-- The spec that `Run` makes for a step.
unfoldable pub spec_for_build : Buildinator → BuildStep → ExecutionSpec
unfolding outputs_to_specs
spec_for_build b s = record {
  image = b.builder_image;
  command = "sh" ∷ "-c" ∷ s.run ∷ [];
  env = [];
  artifacts = outputs_to_specs s.outputs;
  timeout = 0;
}

-- `ids`, which is indexed as the outputs are; each is kept beside its output.
unfoldable pub allocate : List BuildOutput → Prog (List (ArtifactId × BuildOutput))
allocate [] = ret []
allocate (o ∷ outputs) = do
  id ← ask Call.new_artifact_id
  ids ← allocate outputs
  ret ((id, o) ∷ ids)

module _ (p : Platform) (b : Buildinator) where
  unfoldable pub artifact_for : JobId → ArtifactId → BuildOutput → Artifact
  artifact_for job_id id out = record {
    id = id;
    job_id = job_id;
    artifact_type = out.type;
    storage_backend = b.backend;
    storage_path = p.path_join b.base_path (p.uuid_string id);
    checksum = none;
    created_at = 0;
  }

  -- The inner loop of `Run`.
  unfoldable pub register : JobId → String → List (ArtifactId × BuildOutput) → Prog (Option Error)
  unfolding artifact_for
  register job_id name [] = ret none
  register job_id name ((id, out) ∷ rest) = do
    created ← ask (Call.artifact_create caller (artifact_for job_id id out))
    check created (λ e. some (wrap "register artifact %q for step %q: %w" (out.type ∷ name ∷ []) e))
        (register job_id name rest)

  -- The outer loop of `Run`, from step `i` on.
  unfoldable pub build_from : JobId → ℕ → List BuildStep → Prog (Option Error)
  unfolding allocate spec_for_build register
  build_from job_id i [] = ret none
  build_from job_id i (s ∷ steps) = do
    ids ← allocate s.outputs
    failed ← b.step job_id s.name i none (spec_for_build b s)
    check failed some do
      refused ← register job_id s.name ids
      check refused some (build_from job_id (i + 1) steps)

  unfoldable pub run : JobId → List BuildStep → Prog (Option Error)
  unfolding build_from
  run job_id steps = build_from job_id 0 steps
