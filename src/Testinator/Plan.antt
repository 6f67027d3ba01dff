-- ===== src/Testinator/Plan.antt =====
-- `Run` as a plan: which steps run alone, which run together, and at what order.
use shipinator.Common.{
  ℕ, zero, suc, ◌+◌, ◌≤◌, ◌≡◌, refl, sym, ap, ◌∙◌, true, false, not, Option, none, some, List, [],
  ◌∷◌, ◌++◌, All, length, length-append, arith, if◌then◌else◌, inl, inr, Bool-cases,
}
use shipinator.Errors.{Error}
use shipinator.Models.{JobId}
use shipinator.Config.{TestStep}
use shipinator.Effects.{Prog, ret, ◌>>=◌, check}
use shipinator.Testinator.{
  Testinator, collect, run_loop, run_batch, run_sequential, run_parallel, group_name, spec_for_step,
  run,
}
use shipinator.Testinator.Rounds.{StartsSequential, collect_lem, sequential_again, batch_again}

pub data Batch : Type 0 where
  one : TestStep → Batch
  many : List TestStep → Batch

-- The batches of a list of steps: a step that is not parallel is alone, and a longest run of
-- parallel steps is together.
pub data Plans : List TestStep → List Batch → Type 0 where
  done : Plans [] []
  alone :
      (s : TestStep) {steps : List TestStep} {plan : List Batch}
      → s.parallel ≡ false
      → Plans steps plan
      → Plans (s ∷ steps) (Batch.one s ∷ plan)
  together :
      (s : TestStep) (batch rest : List TestStep) {steps : List TestStep} {plan : List Batch}
      → steps ≡ (s ∷ batch) ++ rest
      → All (λ u. u.parallel ≡ true) (s ∷ batch)
      → StartsSequential rest
      → Plans rest plan
      → Plans steps (Batch.many (s ∷ batch) ∷ plan)

module _ (moves : ℕ) (t : Testinator) (job_id : JobId) where
  -- One batch after the other, each at the order of its first step, until one fails.
  unfoldable pub follow : ℕ → List Batch → Prog (Option Error)
  follow order [] = ret none
  follow order (Batch.one s ∷ plan) = do
    failed ← t.step job_id s.name order none (spec_for_step t s)
    check failed some (follow (order + 1) plan)
  follow order (Batch.many steps ∷ plan) = do
    failed ← run_parallel moves t job_id steps order (group_name order)
    check failed some (follow (order + length steps) plan)

  -- A plan that the loop follows from every order.
  abbrev Planned : ℕ → List TestStep → Type 0
  Planned fuel steps =
      (plan : List Batch) × Plans steps plan
      × ((order : ℕ) → run_loop moves t fuel job_id order steps ≡ follow order plan)

  loop-alone :
      (fuel order : ℕ) (s : TestStep) (steps : List TestStep)
      → s.parallel ≡ false
      → run_loop moves t (suc fuel) job_id order (s ∷ steps)
        ≡ run_sequential moves t (run_loop moves t fuel job_id) job_id order s steps
  unfolding run_loop
  loop-alone fuel order s steps e =
      ap
        (λ b.
          if not b
          then run_sequential moves t (run_loop moves t fuel job_id) job_id order s steps
          else run_batch moves t (run_loop moves t fuel job_id) job_id order (collect (s ∷ steps)))
        e

  loop-together :
      (fuel order : ℕ) (s : TestStep) (steps : List TestStep)
      → s.parallel ≡ true
      → run_loop moves t (suc fuel) job_id order (s ∷ steps)
        ≡ run_batch moves t
            (run_loop moves t fuel job_id)
            job_id
            order
            (s ∷ (collect steps).0, (collect steps).1)
  unfolding run_loop collect
  loop-together fuel order s steps e =
      ap
        (λ b.
          if not b
          then run_sequential moves t (run_loop moves t fuel job_id) job_id order s steps
          else run_batch moves t (run_loop moves t fuel job_id) job_id order
              (if b then (s ∷ (collect steps).0, (collect steps).1) else ([], s ∷ steps)))
        e

  run_loop-Planned : (fuel : ℕ) (steps : List TestStep) → length steps ≤ fuel → Planned fuel steps
  unfolding run_loop run_sequential run_batch follow
  run_loop-Planned zero [] h = ([], Plans.done, λ order. refl)
  run_loop-Planned (suc fuel) [] h = ([], Plans.done, λ order. refl)
  run_loop-Planned zero (s ∷ steps) h = absurd (omega (arith, h))
  run_loop-Planned (suc fuel) (s ∷ steps) h = elim (Bool-cases s.parallel) [
    | inr e ↦
        let (plan, ps, f) = run_loop-Planned fuel steps (omega (arith, h)) in
        (
          Batch.one s ∷ plan,
          Plans.alone s e ps,
          λ order.
              loop-alone fuel order s steps e
              ∙ sequential_again moves t job_id (run_loop moves t fuel job_id)
                  (λ order _. follow order plan) order s steps (f (order + 1)),
        )
    | inl e ↦
        let (batch, rest) = collect steps in
        let (whole, parallel, starts) = collect_lem steps in
        let (plan, ps, f) =
          run_loop-Planned fuel rest
            (omega (arith, h, length-append batch rest, ap length whole)) in
        (
          Batch.many (s ∷ batch) ∷ plan,
          Plans.together s batch rest (ap (λ l. s ∷ l) (sym whole)) (e, parallel) starts ps,
          λ order.
              loop-together fuel order s steps e
              ∙ batch_again moves t job_id (run_loop moves t fuel job_id)
                  (λ order _. follow order plan) order (s ∷ batch, rest)
                  (f (order + length (s ∷ batch))),
        )
  ]

  pub run-Plans :
      (steps : List TestStep)
      → (plan : List Batch) × Plans steps plan × (run moves t job_id steps ≡ follow 0 plan)
  unfolding run
  run-Plans steps =
      let (plan, ps, f) = run_loop-Planned (length steps) steps (omega arith) in (plan, ps, f 0)
