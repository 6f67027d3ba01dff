-- ===== src/Testinator/Halting.antt =====
-- `wg.Wait()` returns: how many moves are enough for the goroutines of a batch.
use shipinator.Common.{
  ℕ, ◌*◌, ◌-◌, ◌≤◌, zero, suc, ◌+◌, ◌<◌, ◌≡◌, String, none, some, List, [], ◌∷◌, ◌++◌, length,
  arith,
}
use shipinator.Errors.{Error}
use shipinator.Models.{JobId}
use shipinator.Config.{TestStep}
use shipinator.Effects.{Prog, ret, call, hang, ◌>>=◌}
use shipinator.Effects.Lasts.{Lasts, Lasts-le, Lasts-bind, spent}
use shipinator.Testinator.{
  Testinator, Thread, move, pick, wait, threads, run_parallel, spec_for_step,
}

-- Every execution returns or hangs after at most `n` calls.
abbrev pub Short : {A : Type 0} → ℕ → Prog A → Type 0
Short n (ret a) = Unit
Short zero (call c k) = ⊥
Short (suc n) (call c k) = (r : _) → Short n (k r)
Short n hang = Unit

pub Short-le : {A : Type 0} (p : Prog A) (n m : ℕ) → n ≤ m → Short n p → Short m p
Short-le (ret a) n m h s = tt
Short-le (call c f) zero m h s = absurd s
Short-le (call c f) (suc n) zero h s = absurd (omega (arith, h))
Short-le (call c f) (suc n) (suc m) h s = λ r. Short-le (f r) n m (omega (arith, h)) (s r)
Short-le hang n m h s = tt

pub Short-bind :
    {A B : Type 0} (p : Prog A) (n m : ℕ) (f : A → Prog B)
    → Short n p
    → ((a : A) → Short m (f a))
    → Short (n + m) (p >>= f)
Short-bind (ret a) n m f h g = Short-le (f a) m (n + m) (omega arith) (g a)
Short-bind (call c k) zero m f h g = absurd h
Short-bind (call c k) (suc n) m f h g =
    Short-le (call c k >>= f) (suc (n + m)) (suc n + m) (omega arith)
      (λ r. Short-bind (k r) n m f (h r) g)
Short-bind hang n m f h g = tt

-- Every execution returns.
abbrev pub Halts : {A : Type 0} → Prog A → Type 0
Halts (ret a) = Unit
Halts (call c k) = (r : _) → Halts (k r)
Halts hang = ⊥

-- Every execution returns, after at most `n` calls.
abbrev pub Within : {A : Type 0} → ℕ → Prog A → Type 0
Within n p = Short n p × Halts p

Halts-Lasts : {A : Type 0} (p : Prog A) (k : ℕ) → Halts p → Lasts k p
Halts-Lasts (ret a) k h = tt
Halts-Lasts (call c f) k h = λ r. Halts-Lasts (f r) (k - spent c r) (h r)
Halts-Lasts hang k h = absurd h

Lasts-Halts : {A : Type 0} (p : Prog A) → ((k : ℕ) → Lasts k p) → Halts p
Lasts-Halts (ret a) h = tt
Lasts-Halts (call c f) h = λ r.
    Lasts-Halts (f r)
      (λ k. Lasts-le (f r) k (k + spent c r - spent c r) (omega arith) (h (k + spent c r) r))
Lasts-Halts hang h = omega (arith, h 1)

-- The goroutines return or hang within some numbers of calls, and hang only after `k` ticks.
abbrev All2 : ℕ → List ℕ → List Thread → Type 0
All2 k [] [] = Unit
All2 k (n ∷ ns) (t ∷ ts) = (Short n t × Lasts k t) × All2 k ns ts
All2 _ _ _ = ⊥

All2-le : (j k : ℕ) (ns : List ℕ) (ts : List Thread) → j ≤ k → All2 k ns ts → All2 j ns ts
All2-le j k [] [] h a = tt
All2-le j k (n ∷ ns) (t ∷ ts) h a = ((a.0.0, Lasts-le t j k h a.0.1), All2-le j k ns ts h a.1)
All2-le j k [] (t ∷ ts) h a = absurd a
All2-le j k (n ∷ ns) [] h a = absurd a

-- A move for each call, and one to leave the wait group.
abbrev cost : List ℕ → ℕ
cost [] = 0
cost (n ∷ ns) = suc n + cost ns

cost-append : (ns ms : List ℕ) → cost (ns ++ ms) ≡ cost ns + cost ms
cost-append [] ms = omega arith
cost-append (n ∷ ns) ms = omega (arith, cost-append ns ms)

All2-append :
    (k : ℕ) (ns ms : List ℕ) (ts us : List Thread)
    → All2 k ns ts
    → All2 k ms us
    → All2 k (ns ++ ms) (ts ++ us)
All2-append k [] ms [] us h a = a
All2-append k (n ∷ ns) ms (t ∷ ts) us h a = (h.0, All2-append k ns ms ts us h.1 a)
All2-append k [] ms (t ∷ ts) us h a = absurd h
All2-append k (n ∷ ns) ms [] us h a = absurd h

-- A way to wait that hangs only as its goroutines do, where they need less than the fuel.
abbrev Enough : ℕ → (List Error → List Thread → Prog (List Error)) → Type 0
Enough fuel w =
    (k : ℕ) (errs : List Error) (ns : List ℕ) (ts : List Thread)
    → cost ns < fuel
    → All2 k ns ts
    → Lasts k (w errs ts)

module _ (fuel : ℕ) (w : List Error → List Thread → Prog (List Error)) (W : Enough fuel w) (k : ℕ)
    (errs : List Error) where
  move-Lasts :
      (ns : List ℕ) (before : List Thread)
      → All2 k ns before
      → (n : ℕ) (t : Thread) → Short n t
      → Lasts k t
      → (ms : List ℕ) (after : List Thread) → All2 k ms after
      → cost ns + (suc n + cost ms) < suc fuel
      → Lasts k (move w errs before t after)
  unfolding move
  move-Lasts ns before b n (ret none) h l ms after a c =
      W k errs (ns ++ ms) (before ++ after) (omega (arith, c, cost-append ns ms))
        (All2-append k ns ms before after b a)
  move-Lasts ns before b n (ret (some e)) h l ms after a c =
      W k (errs ++ (e ∷ [])) (ns ++ ms) (before ++ after) (omega (arith, c, cost-append ns ms))
        (All2-append k ns ms before after b a)
  move-Lasts ns before b zero (call x f) h l ms after a c = absurd h
  move-Lasts ns before b (suc n) (call x f) h l ms after a c = λ r.
      let j = k - spent x r in
      W j errs (ns ++ (n ∷ ms)) (before ++ (f r ∷ after))
        (omega (arith, c, cost-append ns (n ∷ ms)))
        (All2-append j ns (n ∷ ms) before (f r ∷ after) (All2-le j k ns before (omega arith) b)
          ((h r, l r), All2-le j k ms after (omega arith) a))
  move-Lasts ns before b n hang h l ms after a c = l

  pick-Lasts :
      (i : ℕ) (ns : List ℕ) (before : List Thread)
      → All2 k ns before
      → (n : ℕ) (t : Thread) → Short n t
      → Lasts k t
      → (ms : List ℕ) (after : List Thread) → All2 k ms after
      → cost ns + (suc n + cost ms) < suc fuel
      → Lasts k (pick w errs before i t after)
  unfolding pick
  pick-Lasts i ns before b n t h l [] [] a c = move-Lasts ns before b n t h l [] [] a c
  pick-Lasts zero ns before b n t h l (m ∷ ms) (u ∷ after) a c =
      move-Lasts ns before b n t h l (m ∷ ms) (u ∷ after) a c
  pick-Lasts (suc i) ns before b n t h l (m ∷ ms) (u ∷ after) a c =
      pick-Lasts i (ns ++ (n ∷ [])) (before ++ (t ∷ []))
        (All2-append k ns (n ∷ []) before (t ∷ []) b ((h, l), tt)) m u a.0.0 a.0.1 ms after a.1
        (omega (arith, c, cost-append ns (n ∷ [])))
  pick-Lasts i ns before b n t h l [] (u ∷ after) a c = absurd a
  pick-Lasts i ns before b n t h l (m ∷ ms) [] a c = absurd a

wait-Lasts : (fuel : ℕ) → Enough fuel (wait fuel)
unfolding wait
wait-Lasts zero k errs ns ts c a = absurd (omega (arith, c))
wait-Lasts (suc fuel) k errs [] [] c a = tt
wait-Lasts (suc fuel) k errs (n ∷ ns) (t ∷ ts) c a = λ i.
    Lasts-le (pick (wait fuel) errs [] i t ts) (k - 0) k (omega arith) (
      pick-Lasts fuel (wait fuel) (wait-Lasts fuel) k errs i [] [] tt n t a.0.0 a.0.1 ns ts a.1
        (omega (arith, c)))
wait-Lasts (suc fuel) k errs [] (t ∷ ts) c a = absurd a
wait-Lasts (suc fuel) k errs (n ∷ ns) [] c a = absurd a

module _ (moves : ℕ) (t : Testinator) (job_id : JobId) (group : String) (n : ℕ) where
  same : List TestStep → List ℕ
  same [] = []
  same (s ∷ steps) = n ∷ same steps

  cost-same : (steps : List TestStep) → cost (same steps) ≡ length steps * (n + 1)
  unfolding same
  cost-same [] = omega arith
  cost-same (s ∷ steps) = grind (arith, cost-same steps)

  module _ (k : ℕ)
      (steps_last : (s : TestStep) (order : ℕ)
        → let step = t.step job_id s.name order (some group) (spec_for_step t s) in
          Short n step × Lasts k step) where
    threads-All2 :
        (steps : List TestStep) (order : ℕ)
        → All2 k (same steps) (threads moves t job_id steps order group)
    unfolding threads same
    threads-All2 [] order = tt
    threads-All2 (s ∷ steps) order = (steps_last s order, threads-All2 steps (order + 1))

    -- A batch whose steps hang only after some ticks does so too, given moves for all calls.
    pub run_parallel-Lasts :
        (steps : List TestStep) (order_base : ℕ)
        → length steps * (n + 1) < moves
        → Lasts k (run_parallel moves t job_id steps order_base group)
    unfolding run_parallel
    run_parallel-Lasts steps order_base c =
        Lasts-bind (wait moves [] (threads moves t job_id steps order_base group)) k _
          (wait-Lasts moves k [] (same steps) (threads moves t job_id steps order_base group)
            (omega (arith, c, cost-same steps)) (threads-All2 steps order_base))
          (λ errs. tt)

  -- A batch returns, with every answer and under every schedule, where each of its steps returns
  -- within `n` calls and there are moves for the calls of all, one more for each step, and one to
  -- see that none is left.
  run_parallel-Halts :
      ((s : TestStep) (order : ℕ)
        → Within n (t.step job_id s.name order (some group) (spec_for_step t s)))
      → (steps : List TestStep) (order_base : ℕ) → length steps * (n + 1) < moves
      → Halts (run_parallel moves t job_id steps order_base group)
  run_parallel-Halts halts steps order_base c =
      Lasts-Halts (run_parallel moves t job_id steps order_base group) (λ k.
        run_parallel-Lasts k (λ s order. ((halts s order).0, Halts-Lasts _ k (halts s order).1))
          steps order_base c)
