-- ===== src/Buildinator/Artifacts.antt =====
-- Which artifacts a build registers.
use mathlib.Core.Path.{subst}
use mathlib.Core.List.{append-nil}
use shipinator.Common.{
  ℕ, ◌+◌, ◌≡◌, refl, ap, ◌∙◌, String, Option, none, some, List, [], ◌∷◌, ◌++◌, map,
}
use shipinator.Errors.{Error, wrap}
use shipinator.Models.{JobId, ArtifactId, Artifact}
use shipinator.Config.{BuildOutput, BuildStep}
use shipinator.Effects.{Platform, ◌>>=◌, check}
use shipinator.Effects.Logic.{Trace, Ensures, Ensures_mono, Ensures_then}
use shipinator.Effects.Logs.{artifact_log, artifact_log-append}
use shipinator.Buildinator.{Buildinator, allocate, spec_for_build, register, build_from, run}

module _ (p : Platform) (b : Buildinator) (job_id : JobId) where
  -- The artifact of an output, under an ID that its path has.
  abbrev pub IsArtifactOf : BuildOutput → Artifact → Type 0
  IsArtifactOf out a =
      (a.job_id ≡ job_id)
      × (a.artifact_type ≡ out.type)
      × (a.storage_backend ≡ b.backend)
      × (a.storage_path ≡ p.path_join b.base_path (p.uuid_string a.id))

  -- The artifacts that a step with such outputs tried to register, and the error.
  pub data Registered (name : String)
      : List BuildOutput → List Artifact → Option Error → Type 0 where
    all : Registered name [] [] none
    refused :
        (out : BuildOutput) (outs : List BuildOutput) (a : Artifact) (e : Error)
        → IsArtifactOf out a
        → Registered name
            (out ∷ outs)
            (a ∷ [])
            (some (wrap "register artifact %q for step %q: %w" (out.type ∷ name ∷ []) e))
    more :
        (out : BuildOutput) {outs : List BuildOutput} (a : Artifact) {arts : List Artifact}
        {r : Option Error}
        → IsArtifactOf out a
        → Registered name outs arts r
        → Registered name (out ∷ outs) (a ∷ arts) r

  -- The trace of a build from step `i` on, and its error. `Q` is about the step with an order: its
  -- trace and its result.
  module _ (Q : ℕ → BuildStep → Trace → Option Error → Type 0) where
    pub data Built : ℕ → List BuildStep → Trace → Option Error → Type 0 where
      finished : (i : ℕ) → Built i [] [] none
      failed :
          (i : ℕ) (s : BuildStep) (steps : List BuildStep) (a u : Trace) (e : Error)
          → artifact_log a ≡ []
          → Q i s u (some e)
          → Built i (s ∷ steps) (a ++ u) (some e)
      refused :
          (i : ℕ) (s : BuildStep) (steps : List BuildStep) (a u v : Trace) (e : Error)
          → artifact_log a ≡ []
          → Q i s u none
          → Registered s.name s.outputs (artifact_log v) (some e)
          → Built i (s ∷ steps) (a ++ (u ++ v)) (some e)
      registered :
          (i : ℕ) (s : BuildStep) (steps : List BuildStep) (a u v w : Trace) (r : Option Error)
          → artifact_log a ≡ []
          → Q i s u none
          → Registered s.name s.outputs (artifact_log v) none
          → Built (i + 1) steps w r
          → Built i (s ∷ steps) (a ++ (u ++ (v ++ w))) r

  register-Registered :
      (name : String) (ids : List (ArtifactId × BuildOutput))
      → Ensures
          (register p b job_id name ids)
          (λ t r. Registered name (map (λ x. x.1) ids) (artifact_log t) r)
  unfolding register
  register-Registered name [] = Registered.all
  register-Registered name ((id, out) ∷ rest) = elim [
    | some e ↦ Registered.refused out _ _ e (refl, refl, refl, refl)
    | none ↦
        Ensures_mono (register p b job_id name rest)
          (λ t r. Registered.more out _ (refl, refl, refl, refl)) (register-Registered name rest)
  ]

allocate-keeps :
    (outs : List BuildOutput)
    → Ensures (allocate outs) (λ t ids. (artifact_log t ≡ []) × (map (λ x. x.1) ids ≡ outs))
unfolding allocate
allocate-keeps [] = (refl, refl)
allocate-keeps (o ∷ outs) = λ id.
    Ensures_then (allocate outs) _
      (λ t ids. (artifact_log t ≡ []) × (map (λ x. x.1) ids ≡ o ∷ outs)) (allocate-keeps outs)
      (λ t ids q. (artifact_log-append t [] ∙ ap (λ l. l ++ []) q.0, ap (λ l. o ∷ l) q.1))

module _ (p : Platform) (b : Buildinator) (job_id : JobId)
    (Q : ℕ → BuildStep → Trace → Option Error → Type 0)
    (ends : (i : ℕ) (s : BuildStep)
      → Ensures (b.step job_id s.name i none (spec_for_build b s)) (Q i s)) where
  -- After the registrations of a step, whose trace is `v`.
  registered_done :
      (i : ℕ) (s : BuildStep) (steps : List BuildStep) (a u v : Trace) (refused : Option Error)
      → Ensures (build_from p b job_id (i + 1) steps) (Built p b job_id Q (i + 1) steps)
      → artifact_log a ≡ []
      → Q i s u none
      → Registered p b job_id s.name s.outputs (artifact_log v) refused
      → Ensures
          (check refused some (build_from p b job_id (i + 1) steps))
          (λ w r. Built p b job_id Q i (s ∷ steps) (a ++ (u ++ (v ++ w))) r)
  registered_done i s steps a u v (some e) again q h k =
      rw append-nil (Built.refused i s steps a u v e q h k)
  registered_done i s steps a u v none again q h k =
      Ensures_mono (build_from p b job_id (i + 1) steps)
        (λ w r l. Built.registered i s steps a u v w r q h k l) again

  -- After the step, whose trace is `u`.
  step_done :
      (i : ℕ) (s : BuildStep) (steps : List BuildStep) (ids : List (ArtifactId × BuildOutput))
      (a u : Trace) (failed : Option Error)
      → Ensures (build_from p b job_id (i + 1) steps) (Built p b job_id Q (i + 1) steps)
      → artifact_log a ≡ []
      → map (λ x. x.1) ids ≡ s.outputs
      → Q i s u failed
      → Ensures
          (check failed some (
            register p b job_id s.name ids >>= λ refused.
            check refused some (build_from p b job_id (i + 1) steps)))
          (λ v r. Built p b job_id Q i (s ∷ steps) (a ++ (u ++ v)) r)
  step_done i s steps ids a u (some e) again q o h =
      rw append-nil (Built.failed i s steps a u e q h)
  step_done i s steps ids a u none again q o h =
      Ensures_then (register p b job_id s.name ids) _
        (λ v r. Built p b job_id Q i (s ∷ steps) (a ++ (u ++ v)) r)
        (register-Registered p b job_id s.name ids)
        (λ v refused k.
          registered_done i s steps a u v refused again q h
            (subst (λ outs. Registered p b job_id s.name outs (artifact_log v) refused) o k))

  build_from-Built :
      (i : ℕ) (steps : List BuildStep)
      → Ensures (build_from p b job_id i steps) (Built p b job_id Q i steps)
  unfolding build_from
  build_from-Built i [] = Built.finished i
  build_from-Built i (s ∷ steps) =
      Ensures_then (allocate s.outputs) _ (Built p b job_id Q i (s ∷ steps))
        (allocate-keeps s.outputs)
        λ a ids (q, o).
          Ensures_then (b.step job_id s.name i none (spec_for_build b s)) _
            (λ u r. Built p b job_id Q i (s ∷ steps) (a ++ u) r) (ends i s)
            (λ u failed h.
              step_done i s steps ids a u failed (build_from-Built (i + 1) steps) q o h)

  pub run-Built :
      (steps : List BuildStep) → Ensures (run p b job_id steps) (Built p b job_id Q 0 steps)
  unfolding run
  run-Built steps = build_from-Built 0 steps
