-- ===== src/Testinator/Batch.antt =====
-- `runParallel`: what a batch returns, whatever the schedule.
use mathlib.Core.Path.{subst}
use mathlib.Core.List.{append_assoc}
use shipinator.Common.{
  ℕ, zero, suc, ◌+◌, ◌≡◌, refl, ◌⊎◌, inl, inr, String, Option, none, some, List, [], ◌∷◌, ◌++◌, All,
  All-append, All-append_iff,
}
use shipinator.Errors.{Error}
use shipinator.Models.{JobId}
use shipinator.Config.{TestStep}
use shipinator.Effects.{Prog, ret, call, hang}
use shipinator.Effects.Logic.{Ensures, Ensures_mono, Ensures_then}
use shipinator.Testinator.{
  Testinator, Thread, move, pick, wait, first_error, threads, run_parallel, spec_for_step,
}

-- What may be the result of a goroutine.
abbrev pub Outcome : Type 1
Outcome = Option Error → Type 0

abbrev pub Any {ℓ} : {A : Type ℓ} → (A → Type 0) → List A → Type 0
Any P [] = ⊥
Any P (x ∷ xs) = P x ⊎ Any P xs

-- The result of a batch: nil where all outcomes can be nil, and an error that one of them can be.
abbrev pub Joined : List Outcome → Option Error → Type 0
Joined outcomes none = All (λ P. P none) outcomes
Joined outcomes (some e) = Any (λ P. P (some e)) outcomes

module _ (G : Error → Type 0) where
  -- The goroutines have the outcomes, and their errors are in `G`.
  abbrev Each : List Thread → List Outcome → Type 0
  Each [] [] = Unit
  Each (t ∷ ts) (P ∷ Ps) = (Ensures t (λ _ r. P r) × ((e : Error) → P (some e) → G e)) × Each ts Ps
  Each _ _ = ⊥

  Each-append :
      (ts us : List Thread) (Ps Qs : List Outcome)
      → Each ts Ps
      → Each us Qs
      → Each (ts ++ us) (Ps ++ Qs)
  Each-append [] us [] Qs h k = k
  Each-append (t ∷ ts) us (P ∷ Ps) Qs h k = (h.0, Each-append ts us Ps Qs h.1 k)
  Each-append [] us (P ∷ Ps) Qs h k = absurd h
  Each-append (t ∷ ts) us [] Qs h k = absurd h

  -- What is collected from errors that were there and goroutines that were left.
  abbrev Collected : List Error → List Outcome → List Error → Type 0
  Collected errs Ps out = All G out × (out ≡ [] → (errs ≡ []) × All (λ P. P none) Ps)

  -- A way to wait for goroutines.
  abbrev Waits : (List Error → List Thread → Prog (List Error)) → Type 1
  Waits w =
      (errs : List Error) (ts : List Thread) (Ps : List Outcome)
      → All G errs
      → Each ts Ps
      → Ensures (w errs ts) (λ _ out. Collected errs Ps out)

  insert-none :
      (Ps : List Outcome) (P : Outcome) (Qs : List Outcome)
      → P none
      → All (λ P. P none) (Ps ++ Qs)
      → All (λ P. P none) (Ps ++ (P ∷ Qs))
  insert-none Ps P Qs h k =
      let (a, b) = All-append_iff (λ P. P none) Ps Qs k in
      All-append (λ P. P none) Ps (P ∷ Qs) a (h, b)

  appended_not_nil : (errs : List Error) (e : Error) → (errs ++ (e ∷ [])) ≡ [] → ⊥
  appended_not_nil [] e h = cc
  appended_not_nil (x ∷ errs) e h = cc

  move-Collected :
      (w : List Error → List Thread → Prog (List Error))
      → Waits w
      → (errs : List Error) → All G errs
      → (before : List Thread) (Ps : List Outcome) → Each before Ps
      → (t : Thread) (P : Outcome) → Ensures t (λ _ r. P r)
      → ((e : Error) → P (some e) → G e)
      → (after : List Thread) (Qs : List Outcome) → Each after Qs
      → Ensures (move w errs before t after) (λ _ out. Collected errs (Ps ++ (P ∷ Qs)) out)
  unfolding move
  move-Collected w W errs g before Ps b (ret none) P h k after Qs a =
      Ensures_mono (w errs (before ++ after))
        (λ t out (x, y). (x, λ z. ((y z).0, insert-none Ps P Qs h (y z).1)))
        (W errs (before ++ after) (Ps ++ Qs) g (Each-append before after Ps Qs b a))
  move-Collected w W errs g before Ps b (ret (some e)) P h k after Qs a =
      Ensures_mono (w (errs ++ (e ∷ [])) (before ++ after))
        (λ t out (x, y). (x, λ z. absurd (appended_not_nil errs e (y z).0)))
        (W (errs ++ (e ∷ [])) (before ++ after) (Ps ++ Qs)
          (All-append G errs (e ∷ []) g (k e h, tt)) (Each-append before after Ps Qs b a))
  move-Collected w W errs g before Ps b (call c next) P h k after Qs a = λ r.
      W errs (before ++ (next r ∷ after)) (Ps ++ (P ∷ Qs)) g
        (Each-append before (next r ∷ after) Ps (P ∷ Qs) b ((h r, k), a))
  move-Collected w W errs g before Ps b hang P h k after Qs a = tt

  pick-Collected :
      (w : List Error → List Thread → Prog (List Error))
      → Waits w
      → (errs : List Error) → All G errs
      → (before : List Thread) (Ps : List Outcome) → Each before Ps
      → (i : ℕ) → (t : Thread) (P : Outcome) → Ensures t (λ _ r. P r)
      → ((e : Error) → P (some e) → G e)
      → (after : List Thread) (Qs : List Outcome) → Each after Qs
      → Ensures (pick w errs before i t after) (λ _ out. Collected errs (Ps ++ (P ∷ Qs)) out)
  unfolding pick
  pick-Collected w W errs g before Ps b i t P h k [] [] a =
      move-Collected w W errs g before Ps b t P h k [] [] a
  pick-Collected w W errs g before Ps b zero t P h k (u ∷ after) (Q ∷ Qs) a =
      move-Collected w W errs g before Ps b t P h k (u ∷ after) (Q ∷ Qs) a
  pick-Collected w W errs g before Ps b (suc i) t P h k (u ∷ after) (Q ∷ Qs) a =
      subst
        (λ Rs.
          Ensures (pick w errs (before ++ (t ∷ [])) i u after) (λ _ out. Collected errs Rs out))
        (append_assoc Ps (P ∷ []) (Q ∷ Qs))
        (pick-Collected w W errs g (before ++ (t ∷ [])) (Ps ++ (P ∷ []))
          (Each-append before (t ∷ []) Ps (P ∷ []) b ((h, k), tt)) i u Q a.0.0 a.0.1 after Qs a.1)
  pick-Collected w W errs g before Ps b i t P h k [] (Q ∷ Qs) a = absurd a
  pick-Collected w W errs g before Ps b i t P h k (u ∷ after) [] a = absurd a

  wait-Collected : (fuel : ℕ) → Waits (wait fuel)
  unfolding wait
  wait-Collected zero errs ts Ps g e = tt
  wait-Collected (suc fuel) errs [] [] g e = (g, λ z. (z, tt))
  wait-Collected (suc fuel) errs (t ∷ ts) (P ∷ Ps) g e = λ i.
      pick-Collected (wait fuel) (wait-Collected fuel) errs g [] [] tt i t P e.0.0 e.0.1 ts Ps e.1
  wait-Collected (suc fuel) errs [] (P ∷ Ps) g e = absurd e
  wait-Collected (suc fuel) errs (t ∷ ts) [] g e = absurd e

module _ (moves : ℕ) (t : Testinator) (job_id : JobId) (Q : TestStep → ℕ → Outcome) where
  -- The outcomes of the steps of a batch, whose orders count from a base.
  abbrev pub outcomes : List TestStep → ℕ → List Outcome
  outcomes [] order = []
  outcomes (s ∷ steps) order = Q s order ∷ outcomes steps (order + 1)

  module _ (group : String)
      (returns : (s : TestStep) (order : ℕ)
        → Ensures
            (t.step job_id s.name order (some group) (spec_for_step t s))
            (λ _ r. Q s order r)) where
    threads-Each :
        (G : Error → Type 0) (steps : List TestStep) (order : ℕ)
        → ((e : Error) → Any (λ P. P (some e)) (outcomes steps order) → G e)
        → Each G (threads moves t job_id steps order group) (outcomes steps order)
    unfolding threads
    threads-Each G [] order f = tt
    threads-Each G (s ∷ steps) order f = (
      (returns s order, λ e h. f e (inl h)),
      threads-Each G steps (order + 1) (λ e h. f e (inr h)),
    )

    pub run_parallel-Joined :
        (steps : List TestStep) (order_base : ℕ)
        → Ensures
            (run_parallel moves t job_id steps order_base group)
            (λ _ r. Joined (outcomes steps order_base) r)
    unfolding run_parallel first_error
    run_parallel-Joined steps order_base =
        let Ps = outcomes steps order_base in
        let G : Error → Type 0 = λ e. Any (λ P. P (some e)) Ps in
        Ensures_then (wait moves [] (threads moves t job_id steps order_base group)) _
          (λ _ r. Joined Ps r)
          (wait-Collected G moves [] (threads moves t job_id steps order_base group) Ps tt
            (threads-Each G steps order_base (λ e h. h)))
          (λ _ out h. first out h)
      where
        first :
            (out : List Error)
            → Collected
                (λ e. Any (λ P. P (some e)) (outcomes steps order_base))
                []
                (outcomes steps order_base)
                out
            → Joined (outcomes steps order_base) (first_error out)
        first [] h = (h.1 refl).1
        first (e ∷ out) h = h.0.0
