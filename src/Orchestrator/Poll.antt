-- ===== src/Orchestrator/Poll.antt =====
-- `poll`: how it ends, what it records, and that it ends.
use shipinator.Common.{
  arith, ℕ, zero, suc, ◌≡◌, ◌≢◌, ◌⊎◌, refl, ap, true, false, Option, none, some, List, [], ◌∷◌,
  ◌++◌, map, inl, inr, All, contains, string_eq, Bool-cases,
}
use shipinator.Errors.{Error, ok, err}
use shipinator.Models.{ExecutionId}
use shipinator.Executor.{
  ExecutionHandle, ExecutionStatus, ExecutionPhase, terminal_execution_phases, is_terminal,
}
use shipinator.Effects.{Call, done, tick}
use shipinator.Effects.Logic.{
  event, Trace, Executes, Ensures, Ensures_mono, Stalls, Stalls_mono, Stalls-Executes,
}
use shipinator.Effects.Logs.{
  step_log, job_log, run_log, artifact_log, phases, recorded, cancels, ticks,
}
use shipinator.Orchestrator.{finished, poll}

abbrev pub IsOpen : ExecutionPhase → Type 0
IsOpen phase = contains terminal_execution_phases phase ≡ false

-- A phase with which a poll goes on.
abbrev pub IsOngoing : ExecutionPhase → Type 0
IsOngoing phase = (phase ≢ "succeeded") × (phase ≢ "failed") × (phase ≢ "canceled")

-- The two ways to end, by the phases that the executor answered with and the cancellations.
pub data PollEnds (handle : ExecutionHandle) (seen : List ExecutionPhase)
    (cancelled : List ExecutionHandle) (result : Option Error) : Type 0 where
  interrupted :
      (e : Error)
      → All IsOngoing seen
      → cancelled ≡ handle ∷ []
      → result ≡ some e
      → PollEnds handle seen cancelled result
  succeeded :
      (before : List ExecutionPhase)
      → seen ≡ before ++ ("succeeded" ∷ [])
      → All IsOngoing before
      → cancelled ≡ []
      → result ≡ none
      → PollEnds handle seen cancelled result
  failed :
      (before : List ExecutionPhase) (phase : ExecutionPhase) (e : Error)
      → seen ≡ before ++ (phase ∷ [])
      → All IsOngoing before
      → (phase ≡ "failed") ⊎ (phase ≡ "canceled")
      → cancelled ≡ []
      → result ≡ some e
      → PollEnds handle seen cancelled result

PollEnds-cons :
    (handle : ExecutionHandle) (phase : ExecutionPhase) (seen : List ExecutionPhase)
    (cancelled : List ExecutionHandle) (result : Option Error)
    → IsOngoing phase
    → PollEnds handle seen cancelled result
    → PollEnds handle (phase ∷ seen) cancelled result
PollEnds-cons handle phase seen cancelled result o (PollEnds.interrupted e a c r) =
    PollEnds.interrupted e (o, a) c r
PollEnds-cons handle phase seen cancelled result o (PollEnds.succeeded before q a c r) =
    PollEnds.succeeded (phase ∷ before) (ap (λ l. phase ∷ l) q) (o, a) c r
PollEnds-cons handle phase seen cancelled result o (PollEnds.failed before x e q a t c r) =
    PollEnds.failed (phase ∷ before) x e (ap (λ l. phase ∷ l) q) (o, a) t c r

-- What `IsTerminal` says of a phase.
terminal-cases :
    (status : ExecutionStatus)
    → is_terminal status ≡ true
    → (status.phase ≡ "succeeded") ⊎ ((status.phase ≡ "failed") ⊎ (status.phase ≡ "canceled"))
unfolding is_terminal
terminal-cases status h = ground arith

open-IsOngoing : (status : ExecutionStatus) → is_terminal status ≡ false → IsOngoing status.phase
unfolding is_terminal
open-IsOngoing status h = ground arith

decided-PollEnds :
    (handle : ExecutionHandle) (status : ExecutionStatus)
    → is_terminal status ≡ true
    → PollEnds handle (status.phase ∷ []) [] (finished handle status)
unfolding finished string_eq
decided-PollEnds handle status h = elim (terminal-cases status h) [
  | inl e ↦ rw e (PollEnds.succeeded [] refl tt refl refl)
  | inr (inl e) ↦ rw e (PollEnds.failed [] "failed" _ refl tt (inl refl) refl refl)
  | inr (inr e) ↦ rw e (PollEnds.failed [] "canceled" _ refl tt (inr refl) refl refl)
]

pub poll-PollEnds :
    (fuel : ℕ) (exec_id : ExecutionId) (handle : ExecutionHandle)
    → Ensures (poll fuel exec_id handle) (λ t result. PollEnds handle (phases t) (cancels t) result)
unfolding poll
poll-PollEnds zero exec_id handle = tt
poll-PollEnds (suc fuel) exec_id handle = elim [
  | done e ↦ λ _. PollEnds.interrupted e tt refl refl
  | tick ↦
      let again = poll-PollEnds fuel exec_id handle in
      elim [
        | err _ ↦ again
        | ok status ↦ λ _. elim (Bool-cases (is_terminal status)) [
          | inl e ↦ rw e (decided-PollEnds handle status e)
          | inr e ↦ rw e (
              Ensures_mono (poll fuel exec_id handle)
                (λ t o.
                  PollEnds-cons handle status.phase (phases t) (cancels t) o
                    (open-IsOngoing status e))
                again)
        ]
      ]
]

-- `poll` asks for an update of the execution's record at every phase that the executor answers
-- with, in the same order, repeated phases included, and at no other time. Whether an update is
-- refused makes no difference.
pub poll-recorded :
    (fuel : ℕ) (exec_id : ExecutionId) (handle : ExecutionHandle)
    → Ensures
        (poll fuel exec_id handle)
        (λ t _. recorded t ≡ map (λ phase. (exec_id, phase)) (phases t))
unfolding poll
poll-recorded zero exec_id handle = tt
poll-recorded (suc fuel) exec_id handle = elim [
  | done e ↦ λ _. refl
  | tick ↦
      let again = poll-recorded fuel exec_id handle in
      elim [
        | err _ ↦ again
        | ok status ↦ λ _. elim (Bool-cases (is_terminal status)) [
          | inl e ↦ rw e refl
          | inr e ↦ rw e (
              Ensures_mono (poll fuel exec_id handle)
                (λ t o same. ap (λ l. (exec_id, status.phase) ∷ l) same) again)
        ]
      ]
]

-- The errors of the contexts that were done.
abbrev pub interruptions : Trace → List Error
interruptions [] = []
interruptions (event Call.select (done e) ∷ t) = e ∷ interruptions t
interruptions (event _ _ ∷ t) = interruptions t

-- The rounds of an execution that has not returned within the fuel.
abbrev Waits : ℕ → Trace → Type 0
Waits fuel t = (ticks t ≡ fuel) × All IsOpen (phases t) × (interruptions t ≡ [])

poll-Stalls :
    (fuel : ℕ) (exec_id : ExecutionId) (handle : ExecutionHandle)
    → Stalls (poll fuel exec_id handle) (Waits fuel)
unfolding poll
poll-Stalls zero exec_id handle = (refl, tt, refl)
poll-Stalls (suc fuel) exec_id handle = elim [
  | done e ↦ λ _. tt
  | tick ↦
      let again = poll-Stalls fuel exec_id handle in
      elim [
        | err _ ↦ Stalls_mono (poll fuel exec_id handle) (λ t (n, o, i). (ap suc n, o, i)) again
        | ok status ↦ λ _. elim (Bool-cases (is_terminal status)) [
          | inl e ↦ rw e tt
          | inr e ↦ rw e (
              Stalls_mono (poll fuel exec_id handle) (λ t (n, o, i). (ap suc n, (refl, o), i))
                again)
        ]
      ]
]

-- An execution of `poll` that is given `fuel` rounds and has not returned has used them all: it
-- took `fuel` ticks, the context was never done, and no answered phase was terminal. So one round
-- in which the context is done or the phase is terminal, within the fuel, makes `poll` return.
pub poll_returns :
    (fuel : ℕ) (exec_id : ExecutionId) (handle : ExecutionHandle) {t : Trace}
    → Executes (poll fuel exec_id handle) t none
    → (ticks t ≡ fuel) × All IsOpen (phases t) × (interruptions t ≡ [])
poll_returns fuel exec_id handle x =
    Stalls-Executes x (Waits fuel) (poll-Stalls fuel exec_id handle) refl

-- `poll` touches no run, job, step or artifact.
abbrev pub IsQuiet : Trace → Type 0
IsQuiet t = (step_log t ≡ []) × (job_log t ≡ []) × (run_log t ≡ []) × (artifact_log t ≡ [])

pub poll-IsQuiet :
    (fuel : ℕ) (exec_id : ExecutionId) (handle : ExecutionHandle)
    → Ensures (poll fuel exec_id handle) (λ t _. IsQuiet t)
unfolding poll
poll-IsQuiet zero exec_id handle = tt
poll-IsQuiet (suc fuel) exec_id handle = elim [
  | done e ↦ λ _. (refl, refl, refl, refl)
  | tick ↦
      let again = poll-IsQuiet fuel exec_id handle in
      elim [
        | err _ ↦ again
        | ok status ↦ λ _. elim (Bool-cases (is_terminal status)) [
          | inl e ↦ rw e (refl, refl, refl, refl)
          | inr e ↦ rw e again
        ]
      ]
]
