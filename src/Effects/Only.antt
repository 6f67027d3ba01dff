-- ===== src/Effects/Only.antt =====
-- Programs that make only calls of some kind.
use shipinator.Common.{◌≡◌, refl, Bool, true, false, Option, none, some, [], if◌then◌else◌}
use shipinator.Errors.{Error, Result, ok, err}
use shipinator.Effects.{Call, Reply, Prog, ret, call, hang, ◌>>=◌, check, given}
use shipinator.Effects.Logic.{Trace, Ensures}
use shipinator.Effects.Logs.{job_log, run_log, context_errors}

abbrev pub Only : (Call → Type 0) → {A : Type 0} → Prog A → Type 0
Only K (ret a) = Unit
Only K (call c k) = K c × ((r : Reply c) → Only K (k r))
Only K hang = Unit

module _ (K : Call → Type 0) where
  pub Only-bind :
      {A B : Type 0} (p : Prog A) (f : A → Prog B)
      → Only K p
      → ((a : A) → Only K (f a))
      → Only K (p >>= f)
  Only-bind (ret a) f h g = g a
  Only-bind (call c k) f h g = (h.0, λ r. Only-bind (k r) f (h.1 r) g)
  Only-bind hang f h g = tt

  pub Only-check :
      {A : Type 0} (o : Option Error) (out : Error → A) (rest : Prog A)
      → Only K rest
      → Only K (check o out rest)
  Only-check none out rest h = h
  Only-check (some e) out rest h = tt

  pub Only-given :
      {A B : Type 0} (r : Result A) (out : Error → B) (rest : A → Prog B)
      → ((a : A) → Only K (rest a))
      → Only K (given r out rest)
  Only-given (ok a) out rest h = h a
  Only-given (err e) out rest h = tt

  pub Only-if :
      {A : Type 0} (b : Bool) (p q : Prog A) → Only K p → Only K q → Only K (if b then p else q)
  Only-if true p q h k = h
  Only-if false p q h k = k

-- All calls but those on runs and jobs, and the look at the context that ends a run.
abbrev pub IsInner : Call → Type 0
IsInner (Call.run_update_status _ _ _) = ⊥
IsInner (Call.job_create _ _) = ⊥
IsInner (Call.job_update_status _ _ _) = ⊥
IsInner Call.context_err = ⊥
IsInner _ = Unit

-- What inner calls leave alone.
abbrev pub InnerOnly : Trace → Type 0
InnerOnly t = (job_log t ≡ []) × (run_log t ≡ []) × (context_errors t ≡ [])

pub Only-quiet : {A : Type 0} (p : Prog A) → Only IsInner p → Ensures p (λ t _. InnerOnly t)
Only-quiet (ret a) h = (refl, refl, refl)
Only-quiet hang h = tt
Only-quiet (call (Call.run_update_status _ _ _) k) h = absurd h.0
Only-quiet (call (Call.job_create _ _) k) h = absurd h.0
Only-quiet (call (Call.job_update_status _ _ _) k) h = absurd h.0
Only-quiet (call Call.context_err k) h = absurd h.0
Only-quiet (call _ k) h = λ r. Only-quiet (k r) (h.1 r)
