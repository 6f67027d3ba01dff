-- ===== src/Testinator/Rounds.antt =====
-- The outer loop of `Run`: the number of steps is fuel enough, and the batches are as large as they
-- can be.
use shipinator.Common.{
  ℕ, zero, suc, ◌+◌, ◌≤◌, ◌≡◌, refl, ap, Bool, true, false, not, List, [], ◌∷◌, ◌++◌, All, length,
  length-append, arith, if◌then◌else◌, Option, none, some,
}
use shipinator.Errors.{Error}
use shipinator.Models.{JobId}
use shipinator.Config.{TestStep}
use shipinator.Effects.{Prog, ◌>>=◌, check}
use shipinator.Testinator.{
  Testinator, collect, run_loop, run_batch, run_sequential, run_parallel, group_name, spec_for_step,
}

-- The steps that are not parallel, or none, begin the list.
abbrev pub StartsSequential : List TestStep → Type 0
StartsSequential [] = Unit
StartsSequential (s ∷ steps) = s.parallel ≡ false

-- The batch and the rest are the steps in their order, the batch has parallel steps only, and no
-- parallel step follows it.
pub collect_lem :
    (steps : List TestStep)
    → ((collect steps).0 ++ (collect steps).1 ≡ steps)
      × All (λ s. s.parallel ≡ true) (collect steps).0
      × StartsSequential (collect steps).1
unfolding collect
collect_lem [] = (refl, tt, tt)
collect_lem (s ∷ steps) = go s.parallel refl (collect_lem steps)
  where
    go :
        (b : Bool)
        → s.parallel ≡ b
        → ((collect steps).0 ++ (collect steps).1 ≡ steps)
          × All (λ s. s.parallel ≡ true) (collect steps).0
          × StartsSequential (collect steps).1
        → let c : List TestStep × List TestStep =
            if b then (s ∷ (collect steps).0, (collect steps).1) else ([], s ∷ steps) in
          (c.0 ++ c.1 ≡ s ∷ steps) × All (λ s. s.parallel ≡ true) c.0 × StartsSequential c.1
    go true e h = (ap (λ l. s ∷ l) h.0, (e, h.1), h.2)
    go false e h = (refl, tt, e)

-- A parallel step at the front is in the batch.
collect_shorter :
    (s : TestStep) (steps : List TestStep)
    → s.parallel ≡ true
    → length (collect (s ∷ steps)).1 ≤ length steps
unfolding collect
collect_shorter s steps e = rw e (
    let h = collect_lem steps in
    omega (arith, length-append (collect steps).0 (collect steps).1, ap length h.0))

if-equal :
    {A : Type 0} (b : Bool) {x x' y y' : A}
    → (b ≡ true → x ≡ x')
    → (b ≡ false → y ≡ y')
    → (if b then x else y) ≡ (if b then x' else y')
if-equal true f g = f refl
if-equal false f g = g refl

not_is_false : (b : Bool) → not b ≡ false → b ≡ true
not_is_false true e = refl
not_is_false false e = cc

module _ (moves : ℕ) (t : Testinator) (job_id : JobId) where
  pub sequential_again :
      (f g : ℕ → List TestStep → Prog (Option Error)) (order : ℕ) (s : TestStep)
      (steps : List TestStep)
      → f (order + 1) steps ≡ g (order + 1) steps
      → run_sequential moves t f job_id order s steps
        ≡ run_sequential moves t g job_id order s steps
  unfolding run_sequential
  sequential_again f g order s steps e =
      ap
        (λ rest.
          t.step job_id s.name order none (spec_for_step t s) >>= λ failed. check failed some rest)
        e

  pub batch_again :
      (f g : ℕ → List TestStep → Prog (Option Error)) (order : ℕ)
      (c : List TestStep × List TestStep)
      → f (order + length c.0) c.1 ≡ g (order + length c.0) c.1
      → run_batch moves t f job_id order c ≡ run_batch moves t g job_id order c
  unfolding run_batch
  batch_again f g order c e =
      ap
        (λ rest. run_parallel moves t job_id c.0 order (group_name order) >>= λ failed.
          check failed some rest)
        e

  -- The outer loop does the same on every fuel that is not below the number of steps, so that the
  -- fuel that `Run` gives it has no part in what it does.
  run_loop-enough :
      (f g order : ℕ) (steps : List TestStep)
      → length steps ≤ f
      → length steps ≤ g
      → run_loop moves t f job_id order steps ≡ run_loop moves t g job_id order steps
  unfolding run_loop
  run_loop-enough zero zero order [] p q = refl
  run_loop-enough (suc f) zero order [] p q = refl
  run_loop-enough zero (suc g) order [] p q = refl
  run_loop-enough (suc f) (suc g) order [] p q = refl
  run_loop-enough zero g order (s ∷ steps) p q = absurd (omega (arith, p))
  run_loop-enough (suc f) zero order (s ∷ steps) p q = absurd (omega (arith, q))
  run_loop-enough (suc f) (suc g) order (s ∷ steps) p q =
      if-equal (not s.parallel)
        (λ _.
          sequential_again (run_loop moves t f job_id) (run_loop moves t g job_id) order s steps
            (run_loop-enough f g (order + 1) steps (omega (arith, p)) (omega (arith, q))))
        (λ e.
          let c = collect_shorter s steps (not_is_false s.parallel e) in
          batch_again (run_loop moves t f job_id) (run_loop moves t g job_id) order
            (collect (s ∷ steps))
            (run_loop-enough f g (order + length (collect (s ∷ steps)).0) (collect (s ∷ steps)).1
              (omega (arith, p, c)) (omega (arith, q, c))))
