-- ===== src/Hosting/StepPools.antt =====
-- The goroutines of a batch, of which one at most has the step.
use mathlib.Core.Path.{subst}
use mathlib.Core.List.{append_assoc}
use shipinator.Common.{
  length, ℕ, zero, suc, ◌+◌, ◌≡◌, ◌≢◌, refl, sym, ◌⊎◌, inl, inr, String, Option, none, some, List,
  [], ◌∷◌, ◌++◌,
}
use shipinator.Errors.{Error}
use shipinator.Models.{Uuid, JobId}
use shipinator.Config.{TestStep}
use shipinator.Effects.{Call, Reply, Prog, ret, call, hang}
use shipinator.Testinator
use shipinator.Testinator.{Testinator, Thread}
use shipinator.Orchestrator.{Rounds}
use shipinator.Orchestrator.StageCalls.{StepJ}
use shipinator.Hosting.StepFits.{
  Where, outside, pending, working, Next, Next_mono, Next-outside, Fits, Fits-bind, Others-stay,
  fitting,
}

module _ (rounds : Rounds) (i : Uuid) where
  -- The goroutines, with the step at a place: one of them is there, and the others are outside.
  abbrev Pool : List Thread → Where → Type 0
  Pool [] w = w ≡ outside
  Pool (t ∷ ts) w =
      (Fits rounds i outside t w × Pool ts outside) ⊎ (Fits rounds i outside t outside × Pool ts w)

  Pool-swap :
      (a b : Thread) (ts : List Thread) (w : Where) → Pool (a ∷ b ∷ ts) w → Pool (b ∷ a ∷ ts) w
  Pool-swap a b ts w (inl (x, inl (y, h))) = inr (y, inl (x, h))
  Pool-swap a b ts w (inl (x, inr (y, h))) = inr (y, inl (x, h))
  Pool-swap a b ts w (inr (x, inl (y, h))) = inl (y, inr (x, h))
  Pool-swap a b ts w (inr (x, inr (y, h))) = inr (y, inr (x, h))

  Pool-cons :
      (t : Thread) (xs ys : List Thread) (w : Where)
      → ((v : Where) → Pool xs v → Pool ys v)
      → Pool (t ∷ xs) w
      → Pool (t ∷ ys) w
  Pool-cons t xs ys w f (inl (x, h)) = inl (x, f outside h)
  Pool-cons t xs ys w f (inr (x, h)) = inr (x, f w h)

  Pool-in :
      (t : Thread) (xs ys : List Thread) (w : Where)
      → Pool (t ∷ (xs ++ ys)) w
      → Pool (xs ++ (t ∷ ys)) w
  Pool-in t [] ys w h = h
  Pool-in t (x ∷ xs) ys w h =
      Pool-cons x (t ∷ (xs ++ ys)) (xs ++ (t ∷ ys)) w (λ v. Pool-in t xs ys v)
        (Pool-swap t x (xs ++ ys) w h)

  Pool-out :
      (t : Thread) (xs ys : List Thread) (w : Where)
      → Pool (xs ++ (t ∷ ys)) w
      → Pool (t ∷ (xs ++ ys)) w
  Pool-out t [] ys w h = h
  Pool-out t (x ∷ xs) ys w h =
      Pool-swap x t (xs ++ ys) w
        (Pool-cons x (xs ++ (t ∷ ys)) (t ∷ (xs ++ ys)) w (λ v. Pool-out t xs ys v) h)

  is_outside : (w : Where) → (w ≡ outside) ⊎ (w ≢ outside)
  is_outside outside = inl refl
  is_outside (pending _ _ _ _) = inr (λ e. cc)
  is_outside (working _ _ _ _ _) = inr (λ e. cc)

  -- One move of one goroutine, given that the wait which follows fits.
  module _ (wait : List Error → List Thread → Prog (List Error))
      (fits : (errs : List Error) (ts : List Thread) (w : Where)
        → Pool ts w
        → Fits rounds i outside (wait errs ts) w) where
    ended-Fits :
        (errs : List Error) (o : Option Error) (ts : List Thread) (w : Where)
        → Pool (ret o ∷ ts) w
        → Fits rounds i outside (wait errs ts) w
    ended-Fits errs o ts w (inl (e, h)) = fits errs ts w (rw e h)
    ended-Fits errs o ts w (inr (_, h)) = fits errs ts w h

    owner-Fits :
        (errs : List Error) (c : Call) (r : Reply c) (t : Thread) (before after : List Thread)
        (w : Where)
        → Next rounds i c r w (Fits rounds i outside t)
        → Pool (before ++ after) outside
        → Next rounds i c r w (Fits rounds i outside (wait errs (before ++ (t ∷ after))))
    owner-Fits errs c r t before after w h p =
        Next_mono rounds i c r w
          (λ v x. fits errs (before ++ (t ∷ after)) v (Pool-in t before after v (inl (x, p)))) h

    other-Fits :
        (errs : List Error) (c : Call) (r : Reply c) (t : Thread) (before after : List Thread)
        (w : Where)
        → Next rounds i c r outside (Fits rounds i outside t)
        → Pool (before ++ after) w
        → Next rounds i c r w (Fits rounds i outside (wait errs (before ++ (t ∷ after))))
    other-Fits errs c r t before after w h p = elim (is_outside w) [
      | inl e ↦
          owner-Fits errs c r t before after w
            (subst (λ v. Next rounds i c r v (Fits rounds i outside t)) (sym e) h)
            (subst (Pool (before ++ after)) e p)
      | inr n ↦
          Next-outside rounds i c r w (Fits rounds i outside t)
            (Fits rounds i outside (wait errs (before ++ (t ∷ after)))) n
            (λ x. fits errs (before ++ (t ∷ after)) w (Pool-in t before after w (inr (x, p)))) h
    ]

    move-Fits :
        (errs : List Error) (before : List Thread) (t : Thread) (after : List Thread) (w : Where)
        → Pool (t ∷ (before ++ after)) w
        → Fits rounds i outside (Testinator.move wait errs before t after) w
    unfolding Testinator.move
    move-Fits errs before (ret none) after w h = ended-Fits errs none (before ++ after) w h
    move-Fits errs before (ret (some e)) after w h =
        ended-Fits (errs ++ (e ∷ [])) (some e) (before ++ after) w h
    move-Fits errs before (call c k) after w (inl (h, p)) =
        λ r. owner-Fits errs c r (k r) before after w (h r) p
    move-Fits errs before (call c k) after w (inr (h, p)) =
        λ r. other-Fits errs c r (k r) before after w (h r) p
    move-Fits errs before hang after w h = tt

    pick-Fits :
        (errs : List Error) (before : List Thread) (n : ℕ) (t : Thread) (after : List Thread)
        (w : Where)
        → Pool (before ++ (t ∷ after)) w
        → Fits rounds i outside (Testinator.pick wait errs before n t after) w
    unfolding Testinator.pick
    pick-Fits errs before n t [] w h = move-Fits errs before t [] w (Pool-out t before [] w h)
    pick-Fits errs before zero t (u ∷ after) w h =
        move-Fits errs before t (u ∷ after) w (Pool-out t before (u ∷ after) w h)
    pick-Fits errs before (suc n) t (u ∷ after) w h =
        pick-Fits errs (before ++ (t ∷ [])) n u after w
          (subst (λ ts. Pool ts w) (sym (append_assoc before (t ∷ []) (u ∷ after))) h)

  wait-Fits :
      (fuel : ℕ) (errs : List Error) (ts : List Thread) (w : Where)
      → Pool ts w
      → Fits rounds i outside (Testinator.wait fuel errs ts) w
  unfolding Testinator.wait
  wait-Fits zero errs ts w h = tt
  wait-Fits (suc fuel) errs [] w h = h
  wait-Fits (suc fuel) errs (t ∷ ts) w h = λ n.
      Others-stay rounds i (Call.schedule (length (t ∷ ts))) n w
        (Fits rounds i outside (Testinator.pick (Testinator.wait fuel) errs [] n t ts))
        (pick-Fits (Testinator.wait fuel) (wait-Fits fuel) errs [] n t ts w h)

  module _ (moves : ℕ) (t : Testinator) (steps : StepJ (fitting rounds i) t.step) where
    threads-Pool :
        (job_id : JobId) (ss : List TestStep) (order : ℕ) (group : String)
        → Pool (Testinator.threads moves t job_id ss order group) outside
    unfolding Testinator.threads
    threads-Pool job_id [] order group = refl
    threads-Pool job_id (s ∷ ss) order group =
        inl (steps job_id s.name order (some group) _, threads-Pool job_id ss (order + 1) group)

    -- A batch brings the step outside, in whatever order its goroutines move.
    pub run_parallel-Fits :
        (job_id : JobId) (ss : List TestStep) (order : ℕ) (group : String)
        → Fits rounds i outside (Testinator.run_parallel moves t job_id ss order group) outside
    unfolding Testinator.run_parallel
    run_parallel-Fits job_id ss order group =
        Fits-bind rounds i
          (Testinator.wait moves [] (Testinator.threads moves t job_id ss order group)) _ outside
          outside outside (wait-Fits moves [] _ outside (threads-Pool job_id ss order group))
          (λ _. refl)
