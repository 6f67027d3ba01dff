-- ===== src/Kubernetes/Laws.antt =====
-- What the status of a Kubernetes Job says, and the deadline that it is given.
use mathlib.Core.Option.{some-injective, none-ne-some}
use shipinator.Models.{Time}
use shipinator.Common.{
  All, ◌++◌, String, ℕ, ◌/◌, ap, sym, ◌∙◌, ◌⊎◌, inl, inr, Bool-cases, ◌+◌, ◌*◌, ◌≤◌, ◌<◌, ◌≡◌, refl,
  true, false, Option, none, some, List, [], ◌∷◌, arith, string_eq, ltb, if◌then◌else◌,
}
use shipinator.Executor.{ExecutionStatus}
use shipinator.Kubernetes.{
  JobStatus, initial_status, Condition, job_to_status, conditions_to_status, deadline, second,
  holds,
}

-- A condition that does not settle the Job.
abbrev pub IsPassing : Condition → Type 0
IsPassing cond = ¬ ((cond.status ≡ "True") × ((cond.type ≡ "Complete") ⊎ (cond.type ≡ "Failed")))

-- What a list of conditions says, with the completion time of the Job: its first true `Complete` or
-- `Failed` decides.
pub data Verdict (completion : Option Time) (conds : List Condition) (phase : String)
    (finished_at : Option Time) : Type 0 where
  settled :
      (before : List Condition) (cond : Condition) (after : List Condition)
      → conds ≡ before ++ (cond ∷ after)
      → All IsPassing before
      → cond.status ≡ "True"
      → ((cond.type ≡ "Complete") × (phase ≡ "succeeded"))
        ⊎ ((cond.type ≡ "Failed") × (phase ≡ "failed"))
      → finished_at ≡ completion
      → Verdict completion conds phase finished_at
  unsettled :
      All IsPassing conds
      → phase ≡ "pending"
      → finished_at ≡ none
      → Verdict completion conds phase finished_at

Verdict-cons :
    (completion : Option Time) (cond : Condition) (conds : List Condition) (phase : String)
    (finished_at : Option Time)
    → IsPassing cond
    → Verdict completion conds phase finished_at
    → Verdict completion (cond ∷ conds) phase finished_at
Verdict-cons completion cond conds phase finished_at p (Verdict.settled before c after q a t v f) =
    Verdict.settled (cond ∷ before) c after (ap (λ l. cond ∷ l) q) (p, a) t v f
Verdict-cons completion cond conds phase finished_at p (Verdict.unsettled a q f) =
    Verdict.unsettled (p, a) q f

holds_lem :
    (type : String) (cond : Condition)
    → holds type cond ≡ true
    → (cond.type ≡ type) × (cond.status ≡ "True")
holds_lem type cond h = ground arith

passing_lem :
    (cond : Condition)
    → holds "Complete" cond ≡ false
    → holds "Failed" cond ≡ false
    → IsPassing cond
passing_lem cond h k = ground arith

-- What a status that is not settled yet becomes.
conditions-Verdict :
    (completion : Option Time) (conds : List Condition) (s : ExecutionStatus)
    → s.phase ≡ "pending"
    → s.finished_at ≡ none
    → let r = conditions_to_status completion conds s in
      Verdict completion conds r.phase r.finished_at × (r.started_at ≡ s.started_at)
unfolding conditions_to_status
conditions-Verdict completion [] s h f = (Verdict.unsettled tt h f, refl)
conditions-Verdict completion (cond ∷ conds) s h f = elim (Bool-cases (holds "Complete" cond)) [
  | inl e ↦
      let (t, u) = holds_lem "Complete" cond e in
      rw e (Verdict.settled [] cond conds refl tt u (inl (t, refl)) refl, refl)
  | inr e ↦ elim (Bool-cases (holds "Failed" cond)) [
    | inl e' ↦
        let (t, u) = holds_lem "Failed" cond e' in
        rw (e, e') (Verdict.settled [] cond conds refl tt u (inr (t, refl)) refl, refl)
    | inr e' ↦
        let (v, q) = conditions-Verdict completion conds s h f in
        rw (e, e') (Verdict-cons completion cond conds _ _ (passing_lem cond e e') v, q)
  ]
]

-- What the status of a Job reports.
abbrev pub Reports : JobStatus → ExecutionStatus → Type 0
Reports job s =
    (s.started_at ≡ job.start_time)
    × (((0 < job.active) × (s.phase ≡ "running") × (s.finished_at ≡ none))
        ⊎ ((job.active ≡ 0) × Verdict job.completion_time job.conditions s.phase s.finished_at))

-- The status has the Job's start time. A Job with an active pod is reported as running, without a
-- finish. Else the first of its conditions that is `Complete` or `Failed` with the status `True`
-- decides: the phase is succeeded for the one and failed for the other, and the finish is the Job's
-- completion time. Without such a condition the phase is pending, without a finish.
pub job_to_status-Reports : (job : JobStatus) → Reports job (job_to_status job)
unfolding job_to_status
job_to_status-Reports job = elim (Bool-cases (ltb 0 job.active)) [
  | inl e ↦ rw e (refl, inl (active_lem job.active e, refl, refl))
  | inr e ↦
      let (v, q) =
        conditions-Verdict job.completion_time job.conditions (initial_status job) refl refl in
      rw e (q, inr (idle_lem job.active e, v))
]
  where
    active_lem : (n : ℕ) → ltb 0 n ≡ true → 0 < n
    active_lem n h = ground arith

    idle_lem : (n : ℕ) → ltb 0 n ≡ false → n ≡ 0
    idle_lem n h = ground arith

-- A deadline is in whole seconds: it is not after the timeout, and less than a second before it.
deadline-le :
    (timeout s : ℕ)
    → deadline timeout ≡ some s
    → (s * second ≤ timeout) × (timeout < (s + 1) * second)
unfolding deadline
deadline-le timeout s h = go (Bool-cases (ltb 0 timeout))
  where
    go :
        (ltb 0 timeout ≡ true) ⊎ (ltb 0 timeout ≡ false)
        → (s * second ≤ timeout) × (timeout < (s + 1) * second)
    go (inl p) =
        let e : timeout / second ≡ s =
          some-injective _ _ (ap (λ b. if b then some (timeout / second) else none) (sym p) ∙ h) in
        omega (arith, e)
    go (inr p) =
        absurd (none-ne-some s (ap (λ b. if b then some (timeout / second) else none) (sym p) ∙ h))
