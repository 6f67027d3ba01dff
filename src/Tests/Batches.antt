-- ===== src/Tests/Batches.antt =====
-- The testinator's theorems at a batch of two steps.
use shipinator.Common.{false, ◌≡◌, refl, none, List, [], ◌∷◌, true}
use shipinator.Effects.{ret}
use shipinator.Effects.Logic.{Ensures}
use shipinator.Config.{TestStep}
use shipinator.Testinator.{Testinator, run_parallel, run_loop, collect}
use shipinator.Testinator.Batch.{Joined, outcomes, run_parallel-Joined}
use shipinator.Testinator
use shipinator.Testinator.Plan.{Batch, Plans, follow, run-Plans}

abbrev tester : Testinator
tester = record { step = λ job_id name order group spec. ret none; builder_image = "builder" }

abbrev steps : List TestStep
steps =
    record { name = "unit"; run = "go test"; parallel = true; artifacts = [] }
    ∷ record { name = "lint"; run = "helm lint"; parallel = true; artifacts = [] }
    ∷ record { name = "e2e"; run = "make e2e"; parallel = false; artifacts = [] }
    ∷ []

run_parallel-Joined_example :
    Ensures
      (run_parallel 9 tester 3 steps 0 "parallel-0")
      (λ _ r. Joined (outcomes 9 tester 3 (λ s order r. r ≡ none) steps 0) r)
run_parallel-Joined_example =
    run_parallel-Joined 9 tester 3 (λ s order r. r ≡ none) "parallel-0" (λ s order. refl) steps 0

run-Plans_example :
    (plan : List Batch) × Plans steps plan
    × (Testinator.run 9 tester 3 steps ≡ follow 9 tester 3 0 plan)
run-Plans_example = run-Plans 9 tester 3 steps
