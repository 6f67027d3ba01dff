-- ===== src/Testinator.antt =====
-- internal/testinator/testinator.go
pub mod Batch
pub mod Rounds
pub mod Halting
pub mod Plan
use shipinator.Common.{
  ℕ, zero, suc, ◌+◌, ◌/◌, ◌%◌, String, ◌<>◌, not, Option, none, some, List, [], ◌∷◌, ◌++◌, length,
  if◌then◌else◌, ltb,
}
use shipinator.Errors.{Error}
use shipinator.Models.{JobId}
use shipinator.Config.{TestStep}
use shipinator.Executor.{ExecutionSpec}
use shipinator.Effects.{Call, Prog, ret, call, hang, ◌>>=◌, check}
use shipinator.Buildinator.{StepFn}

pub record Testinator : Type 0 where
  pub step : StepFn
  pub builder_image : String

abbrev pub new : StepFn → String → Testinator
new step builder_image = record { step = step; builder_image = builder_image }

unfoldable pub spec_for_step : Testinator → TestStep → ExecutionSpec
spec_for_step t s = record {
  image = t.builder_image;
  command = "sh" ∷ "-c" ∷ s.run ∷ [];
  env = [];
  artifacts = [];
  timeout = 0;
}

abbrev pub Thread : Type 0
Thread = Prog (Option Error)

-- One move of the goroutine that stands between `before` and `after`. One that ends with an error
-- appends it to `errs` under the mutex; one that ends leaves the wait group.
unfoldable pub move :
    (List Error → List Thread → Prog (List Error))
    → List Error
    → List Thread
    → Thread
    → List Thread
    → Prog (List Error)
move wait errs before (ret none) after = wait errs (before ++ after)
move wait errs before (ret (some e)) after = wait (errs ++ (e ∷ [])) (before ++ after)
move wait errs before (call c k) after = call c (λ r. wait errs (before ++ (k r ∷ after)))
move wait errs before hang after = hang

-- The goroutine that the scheduler names; past the end it is the last one.
unfoldable pub pick :
    (List Error → List Thread → Prog (List Error))
    → List Error
    → List Thread
    → ℕ
    → Thread
    → List Thread
    → Prog (List Error)
unfolding move
pick wait errs before i t [] = move wait errs before t []
pick wait errs before zero t (u ∷ after) = move wait errs before t (u ∷ after)
pick wait errs before (suc i) t (u ∷ after) = pick wait errs (before ++ (t ∷ [])) i u after

-- `wg.Wait()`: the goroutines move one call at a time, in any order. The fuel bounds the moves.
unfoldable pub wait : ℕ → List Error → List Thread → Prog (List Error)
unfolding pick
wait zero errs threads = hang
wait (suc fuel) errs [] = ret errs
wait (suc fuel) errs (t ∷ threads) =
    call (Call.schedule (length (t ∷ threads))) (λ i. pick (wait fuel) errs [] i t threads)

-- `return errs[0]`
unfoldable pub first_error : List Error → Option Error
first_error [] = none
first_error (e ∷ errs) = some e

-- The inner loop of `Run`: the parallel steps at the front, and the rest.
unfoldable pub collect : List TestStep → List TestStep × List TestStep
collect [] = ([], [])
collect (s ∷ steps) =
    let rest = collect steps in if s.parallel then (s ∷ rest.0, rest.1) else ([], s ∷ steps)

-- The text of a digit.
unfoldable pub digit : ℕ → String
digit zero = "0"
digit (suc zero) = "1"
digit (suc (suc zero)) = "2"
digit (suc (suc (suc zero))) = "3"
digit (suc (suc (suc (suc zero)))) = "4"
digit (suc (suc (suc (suc (suc zero))))) = "5"
digit (suc (suc (suc (suc (suc (suc zero)))))) = "6"
digit (suc (suc (suc (suc (suc (suc (suc zero))))))) = "7"
digit (suc (suc (suc (suc (suc (suc (suc (suc zero)))))))) = "8"
digit (suc (suc (suc (suc (suc (suc (suc (suc (suc n))))))))) = "9"

-- The decimal text of `n`, as `%d` prints it, put before `text`. The fuel is over `n`, which has
-- fewer digits than that.
unfoldable pub decimal_from : ℕ → ℕ → String → String
unfolding digit
decimal_from zero n text = text
decimal_from (suc fuel) n text =
    let more = decimal_from fuel (n / 10) (digit (n % 10) <> text) in
    if ltb n 10 then digit n <> text else more

-- `fmt.Sprintf("parallel-%d", order)`
unfoldable pub group_name : ℕ → String
unfolding decimal_from
group_name order = "parallel-" <> decimal_from (suc order) order ""

module _ (moves : ℕ) (t : Testinator) where
  -- The goroutines of `runParallel`.
  unfoldable pub threads : JobId → List TestStep → ℕ → String → List Thread
  unfolding spec_for_step
  threads job_id [] order group = []
  threads job_id (s ∷ steps) order group =
      t.step job_id s.name order (some group) (spec_for_step t s)
      ∷ threads job_id steps (order + 1) group

  unfoldable pub run_parallel : JobId → List TestStep → ℕ → String → Prog (Option Error)
  unfolding threads wait first_error
  run_parallel job_id steps order_base group = do
    errs ← wait moves [] (threads job_id steps order_base group)
    ret (first_error errs)

  -- The two bodies of the outer loop of `Run`: the step at the front, or the batch at the front.
  -- `again` is the loop over the steps that are left, from an order on.
  unfoldable pub run_sequential :
      (ℕ → List TestStep → Prog (Option Error))
      → JobId
      → ℕ
      → TestStep
      → List TestStep
      → Prog (Option Error)
  unfolding spec_for_step
  run_sequential again job_id order s steps = do
    failed ← t.step job_id s.name order none (spec_for_step t s)
    check failed some (again (order + 1) steps)

  unfoldable pub run_batch :
      (ℕ → List TestStep → Prog (Option Error))
      → JobId
      → ℕ
      → List TestStep × List TestStep
      → Prog (Option Error)
  unfolding run_parallel group_name
  run_batch again job_id order (batch, rest) = do
    failed ← run_parallel job_id batch order (group_name order)
    check failed some (again (order + length batch) rest)

  -- The outer loop of `Run`. Each round takes one step at least, so the number of steps is fuel
  -- enough.
  unfoldable pub run_loop : ℕ → JobId → ℕ → List TestStep → Prog (Option Error)
  run_loop fuel job_id order [] = ret none
  run_loop zero job_id order (s ∷ steps) = hang
  run_loop (suc fuel) job_id order (s ∷ steps) =
      if not s.parallel
      then run_sequential (run_loop fuel job_id) job_id order s steps
      else run_batch (run_loop fuel job_id) job_id order (collect (s ∷ steps))

  unfoldable pub run : JobId → List TestStep → Prog (Option Error)
  unfolding run_loop run_sequential run_batch collect
  run job_id steps = run_loop (length steps) job_id 0 steps
