-- ===== src/Orchestrator/BatchCalls.antt =====
-- `runParallel` makes only calls of a kind, where its steps do.
use shipinator.Common.{
  ℕ, zero, suc, ◌+◌, String, Option, none, some, List, [], ◌∷◌, ◌++◌, All-append, All, length,
}
use shipinator.Errors.{Error}
use shipinator.Models.{JobId}
use shipinator.Config.{TestStep}
use shipinator.Executor.{ExecutionSpec}
use shipinator.Effects.{Call, Prog, ret, call, hang}
use shipinator.Effects.Only.{Only, Only-bind}
use shipinator.Buildinator.{StepFn}
use shipinator.Testinator
use shipinator.Testinator.{Testinator, Thread}

module _ (K : Call → Type 0) where
  abbrev pub StepOnly : StepFn → Type 0
  StepOnly step =
      (job_id : JobId) (name : String) (order : ℕ) (group : Option String) (spec : ExecutionSpec)
      → Only K (step job_id name order group spec)

  abbrev AllOnly : List Thread → Type 0
  AllOnly = All (λ t. Only K t)

  -- One move of one goroutine, given that the wait which follows is inner.
  module _ (wait : List Error → List Thread → Prog (List Error))
      (inner : (errs : List Error) (ts : List Thread) → AllOnly ts → Only K (wait errs ts)) where
    move-Only :
        (errs : List Error) (before : List Thread) (t : Thread) (after : List Thread)
        → AllOnly before
        → Only K t
        → AllOnly after
        → Only K (Testinator.move wait errs before t after)
    unfolding Testinator.move
    move-Only errs before (ret none) after b h a = inner _ _ (All-append _ before after b a)
    move-Only errs before (ret (some e)) after b h a = inner _ _ (All-append _ before after b a)
    move-Only errs before (call c k) after b h a =
        (h.0, λ r. inner _ _ (All-append _ before (k r ∷ after) b (h.1 r, a)))
    move-Only errs before hang after b h a = tt

    pick-Only :
        (errs : List Error) (before : List Thread) (i : ℕ) (t : Thread) (after : List Thread)
        → AllOnly before
        → Only K t
        → AllOnly after
        → Only K (Testinator.pick wait errs before i t after)
    unfolding Testinator.pick
    pick-Only errs before i t [] b h a = move-Only errs before t [] b h a
    pick-Only errs before zero t (u ∷ after) b h a = move-Only errs before t (u ∷ after) b h a
    pick-Only errs before (suc i) t (u ∷ after) b h a =
        pick-Only errs (before ++ (t ∷ [])) i u after (All-append _ before (t ∷ []) b (h, tt)) a.0
          a.1

  module _ (schedules : (n : ℕ) → K (Call.schedule n)) where
    wait-Only :
        (fuel : ℕ) (errs : List Error) (ts : List Thread)
        → AllOnly ts
        → Only K (Testinator.wait fuel errs ts)
    unfolding Testinator.wait
    wait-Only zero errs ts h = tt
    wait-Only (suc fuel) errs [] h = tt
    wait-Only (suc fuel) errs (t ∷ ts) h = (
      schedules (length (t ∷ ts)),
      λ i. pick-Only (Testinator.wait fuel) (wait-Only fuel) errs [] i t ts tt h.0 h.1,
    )

    module _ (moves : ℕ) (t : Testinator) (inner : StepOnly t.step) where
      threads-Only :
          (job_id : JobId) (steps : List TestStep) (order : ℕ) (group : String)
          → AllOnly (Testinator.threads moves t job_id steps order group)
      unfolding Testinator.threads
      threads-Only job_id [] order group = tt
      threads-Only job_id (s ∷ steps) order group =
          (inner job_id s.name order (some group) _, threads-Only job_id steps (order + 1) group)

      pub run_parallel-Only :
          (job_id : JobId) (steps : List TestStep) (order : ℕ) (group : String)
          → Only K (Testinator.run_parallel moves t job_id steps order group)
      unfolding Testinator.run_parallel
      run_parallel-Only job_id steps order group =
          Only-bind K
            (Testinator.wait moves [] (Testinator.threads moves t job_id steps order group)) _
            (wait-Only moves [] _ (threads-Only job_id steps order group)) (λ _. tt)
