-- ===== src/Hosting/StepFits.antt =====
-- Programs that bring one step, told by its ID, from its making to its end.
use mathlib.Core.Option.{none-ne-some}
use shipinator.Common.{ℕ, ◌≡◌, ◌≢◌, refl, ◌⊎◌, inl, inr, String, Option, none, some, [], ◌∷◌}
use shipinator.Errors.{Error, Result, ok}
use shipinator.Models.{Uuid, JobId, JobStep}
use shipinator.Fsm.{state_running}
use shipinator.Effects.{Call, Reply, Prog, ret, call, hang, ◌>>=◌}
use shipinator.Effects.Logic.{Trace, event, Executes}
use shipinator.Effects.Only.{Only}
use shipinator.Effects.Judgements.{Judgement}
use shipinator.Executor.{ExecutionSpec}
use shipinator.Orchestrator.{Rounds, execute_and_poll, final_stage_state}
use shipinator.Hosting.StepRows.{given_step}

-- Where a program is with the step: outside of its `runStep`, or after its making, or after its
-- start, with what is left to do of its `executeAndPoll`. It was made for a job, with a name, an
-- order and a group.
pub data Where : Type 0 where
  outside : Where
  pending : JobId → String → ℕ → Option String → Where
  working : JobId → String → ℕ → Option String → Prog (Option Error) → Where

-- All calls but those on steps.
abbrev pub IsStill : Call → Type 0
IsStill (Call.step_create _ _) = ⊥
IsStill (Call.step_update_status _ _ _) = ⊥
IsStill _ = Unit

-- An answer that brings a program to one of `D`.
abbrev pub Advances :
    (c : Call) → Reply c → Prog (Option Error) → (Prog (Option Error) → Type 0) → Type 0
Advances c r (ret a) D = ⊥
Advances c r (call c' k) D = (r' : Reply c') × (event c r ≡ event c' r') × D (k r')
Advances c r hang D = ⊥

-- Any other call may be one of the `executeAndPoll`.
abbrev pub Others : (c : Call) → Reply c → Where → (Where → Type 0) → Type 0
Others c r (Where.working j n o g q) C =
    C (Where.working j n o g q) ⊎ Advances c r q (λ q'. C (Where.working j n o g q'))
Others c r w C = C w

module _ (rounds : Rounds) (i : Uuid) where
  -- The ID is answered once.
  abbrev pub Creates : JobStep → Result Uuid → Where → (Where → Type 0) → Type 0
  Creates s r Where.outside C =
      (r ≡ ok i
        → (job_id : JobId) × (name : String) × (order : ℕ) × (group : Option String) × (s
            ≡ given_step job_id name order group)
          × C (Where.pending job_id name order group))
      × (r ≢ ok i → C Where.outside)
  Creates s r w C = r ≢ ok i → C w

  abbrev pub Updates : Uuid → String → Option Error → Where → (Where → Type 0) → Type 0
  Updates id status r Where.outside C = (i ≢ id) × C Where.outside
  Updates id status r (Where.pending job_id name order group) C =
      ((i ≢ id) × C (Where.pending job_id name order group))
      ⊎ ((id ≡ i)
          × (status ≡ state_running)
          × (r ≡ none
              → (spec : ExecutionSpec) × C
                  (Where.working job_id name order group (execute_and_poll rounds id spec)))
          × ((e : Error) → r ≡ some e → C Where.outside))
  Updates id status r (Where.working job_id name order group q) C =
      ((i ≢ id) × C (Where.working job_id name order group q))
      ⊎ ((id ≡ i)
          × (result : Option Error) × (q ≡ ret result)
          × (status ≡ final_stage_state result)
          × C Where.outside)

  -- A call with its answer brings the step from a place to one of `C`.
  abbrev pub Next : (c : Call) → Reply c → Where → (Where → Type 0) → Type 0
  Next (Call.step_create _ s) r w C = Creates s r w C
  Next (Call.step_update_status _ id status) r w C = Updates id status r w C
  Next c r w C = Others c r w C

  -- A trace, and a program, that bring the step from a place to another.
  abbrev pub Leads : Where → Trace → Where → Type 0
  Leads e [] w = w ≡ e
  Leads e (event c r ∷ t) w = Next c r w (Leads e t)

  abbrev pub Fits : {A : Type 0} → Where → Prog A → Where → Type 0
  Fits e (ret a) w = w ≡ e
  Fits e (call c k) w = (r : Reply c) → Next c r w (Fits e (k r))
  Fits e hang w = Unit

  Creates_mono :
      (s : JobStep) (r : Result Uuid) (w : Where) {C D : Where → Type 0}
      → ((v : Where) → C v → D v)
      → Creates s r w C
      → Creates s r w D
  Creates_mono s r Where.outside f (g, h) =
      (λ e. let (j, n, o, gr, q, c) = g e in (j, n, o, gr, q, f _ c), λ n. f _ (h n))
  Creates_mono s r (Where.pending j n o g) f h = λ n. f _ (h n)
  Creates_mono s r (Where.working j n o g q) f h = λ n. f _ (h n)

  Updates_mono :
      (id : Uuid) (s : String) (r : Option Error) (w : Where) {C D : Where → Type 0}
      → ((v : Where) → C v → D v)
      → Updates id s r w C
      → Updates id s r w D
  Updates_mono id s r Where.outside f (n, h) = (n, f _ h)
  Updates_mono id s r (Where.pending j n o g) f (inl (x, h)) = inl (x, f _ h)
  Updates_mono id s r (Where.pending j n o g) f (inr (x, q, h, k)) =
      inr (x, q, (λ e. let (spec, c) = h e in (spec, f _ c)), (λ y e. f _ (k y e)))
  Updates_mono id s r (Where.working j n o g q) f (inl (x, h)) = inl (x, f _ h)
  Updates_mono id s r (Where.working j n o g z) f (inr (x, y, t, q, h)) = inr (x, y, t, q, f _ h)

  pub Advances_mono :
      (c : Call) (r : Reply c) (q : Prog (Option Error)) {C D : Prog (Option Error) → Type 0}
      → ((v : Prog (Option Error)) → C v → D v)
      → Advances c r q C
      → Advances c r q D
  Advances_mono c r (ret a) f h = h
  Advances_mono c r (call c' k) f (r', e, h) = (r', e, f _ h)
  Advances_mono c r hang f h = h

  Others_mono :
      (c : Call) (r : Reply c) (w : Where) {C D : Where → Type 0}
      → ((v : Where) → C v → D v)
      → Others c r w C
      → Others c r w D
  Others_mono c r Where.outside f h = f _ h
  Others_mono c r (Where.pending j n o g) f h = f _ h
  Others_mono c r (Where.working j n o g q) f (inl h) = inl (f _ h)
  Others_mono c r (Where.working j n o g q) f (inr h) =
      inr (Advances_mono c r q (λ q' x. f (Where.working j n o g q') x) h)

  pub Others-stay : (c : Call) (r : Reply c) (w : Where) (C : Where → Type 0) → C w → Others c r w C
  Others-stay c r Where.outside C h = h
  Others-stay c r (Where.pending j n o g) C h = h
  Others-stay c r (Where.working j n o g q) C h = inl h

  pub Next_mono :
      (c : Call) (r : Reply c) (w : Where) {C D : Where → Type 0}
      → ((v : Where) → C v → D v)
      → Next c r w C
      → Next c r w D
  Next_mono (Call.step_create _ s) r w f h = Creates_mono s r w f h
  Next_mono (Call.step_update_status _ id s) r w f h = Updates_mono id s r w f h
  Next_mono c r w f h = Others_mono c r w f h

  -- A call outside of the step's `runStep` leaves the step where others have brought it.
  pub Next-outside :
      (c : Call) (r : Reply c) (w : Where) (C D : Where → Type 0)
      → w ≢ Where.outside
      → (C Where.outside → D w)
      → Next c r Where.outside C
      → Next c r w D
  Next-outside c r Where.outside C D n f h = absurd (n refl)
  Next-outside (Call.step_create _ s) r (Where.pending _ _ _ _) C D n f h = λ x. f (h.1 x)
  Next-outside (Call.step_create _ s) r (Where.working _ _ _ _ _) C D n f h = λ x. f (h.1 x)
  Next-outside (Call.step_update_status _ id s) r (Where.pending _ _ _ _) C D n f h =
      inl (h.0, f h.1)
  Next-outside (Call.step_update_status _ id s) r (Where.working _ _ _ _ _) C D n f h =
      inl (h.0, f h.1)
  Next-outside c r w C D n f h = Others-stay c r w D (f h)

  pub Next-still :
      (c : Call) (r : Reply c) (w : Where) (C : Where → Type 0) → IsStill c → C w → Next c r w C
  Next-still (Call.step_create _ s) r w C k h = absurd k
  Next-still (Call.step_update_status _ id s) r w C k h = absurd k
  Next-still c r w C k h = Others-stay c r w C h

  -- A call of the `executeAndPoll`.
  Next-works :
      (c : Call) (k : Reply c → Prog (Option Error)) (r : Reply c) (j : JobId) (n : String) (o : ℕ)
      (g : Option String) (C : Where → Type 0)
      → IsStill c
      → C (Where.working j n o g (k r))
      → Next c r (Where.working j n o g (call c k)) C
  Next-works (Call.step_create _ _) k r j n o g C s h = absurd s
  Next-works (Call.step_update_status _ _ _) k r j n o g C s h = absurd s
  Next-works c k r j n o g C s h = inr (r, refl, h)

  pub Fits-bind :
      {A B : Type 0} (p : Prog A) (f : A → Prog B) (w e e' : Where)
      → Fits e p w
      → ((a : A) → Fits e' (f a) e)
      → Fits e' (p >>= f) w
  Fits-bind (ret a) f w e e' h g = rw h (g a)
  Fits-bind (call c k) f w e e' h g =
      λ r. Next_mono c r w (λ v x. Fits-bind (k r) f v e e' x g) (h r)
  Fits-bind hang f w e e' h g = tt

  pub Only-Fits : {A : Type 0} (p : Prog A) (w : Where) → Only IsStill p → Fits w p w
  Only-Fits (ret a) w h = refl
  Only-Fits (call c k) w h = λ r. Next-still c r w _ h.0 (Only-Fits (k r) w (h.1 r))
  Only-Fits hang w h = tt

  pub working-Fits :
      {B : Type 0} (q : Prog (Option Error)) (f : Option Error → Prog B) (j : JobId) (n : String)
      (o : ℕ) (g : Option String) (e : Where)
      → Only IsStill q
      → ((a : Option Error) → Fits e (f a) (Where.working j n o g (ret a)))
      → Fits e (q >>= f) (Where.working j n o g q)
  working-Fits (ret a) f j n o g e s h = h a
  working-Fits (call c k) f j n o g e s h = λ r.
      Next-works c k r j n o g (Fits e (k r >>= f)) s.0 (working-Fits (k r) f j n o g e (s.1 r) h)
  working-Fits hang f j n o g e s h = tt

  -- What begins and ends outside.
  abbrev pub fitting : Judgement IsStill
  fitting = record {
    J = λ p. Fits Where.outside p Where.outside;
    returns = λ a. refl;
    calls = λ {c = c} h k r. Next-still c r Where.outside _ h (k r);
    binds = λ p f h k. Fits-bind p f Where.outside Where.outside Where.outside h k;
  }

  pub Fits-Leads :
      {A : Type 0} {p : Prog A} {t : Trace} {o : Option A}
      → Executes p t o
      → (e w : Where) → Fits e p w
      → {a : A} → o ≡ some a
      → Leads e t w
  Fits-Leads (Executes.returns b) e w h q = h
  Fits-Leads Executes.hangs e w h q = absurd (none-ne-some _ q)
  Fits-Leads (Executes.answers c r x) e w h q = Next_mono c r w (λ v f. Fits-Leads x e v f q) (h r)
