-- ===== src/Hosting/StepEnds.antt =====
-- A step from its making on, over the Postgres stores: the row that it ends with.
use mathlib.Core.Path.{subst}
use shipinator.Common.{
  ℕ, ap, ◌≡◌, ◌≢◌, refl, sym, ◌∙◌, inl, inr, String, Option, none, some, [], ◌∷◌, All, In,
  string_eq,
}
use shipinator.Errors.{Error, ok, err, ok-injective}
use shipinator.Models.{Uuid, Time, JobId, JobStepId, JobStep}
use shipinator.Fsm.{state_pending, state_running, state_succeeded, state_failed}
use shipinator.Effects.{Platform, Context, Call, Reply, Prog, ret, call, hang}
use shipinator.Effects.Logic.{Trace, Event, event, Executes}
use shipinator.Effects.Stories.{steps, story}
use shipinator.Executor.{ExecutionSpec}
use shipinator.Orchestrator.{Rounds, execute_and_poll, final_stage_state}
use shipinator.Postgres.{Driver}
use shipinator.Postgres.Sql.{Sql}
use shipinator.Postgres.JobSteps.Laws.{Holds}
use shipinator.Hosting.{Hosted}
use shipinator.Hosting.Rows.{Elsewhere, Hosted-After}
use shipinator.Hosting.Kinds.{step_rows}
use shipinator.Hosting.Keeps.{IsOther, Hosted-keeps}
use shipinator.Hosting.StepRows.{step_record}
use shipinator.Hosting.StepFits.{Where, outside, Leads, Advances, Advances_mono}
use shipinator.Hosting.StepHolds.{
  step_ids, outside-IsOther, Sub, Sub-none, Ran, Refused, StepHeld, StepHeld-later,
}

module _ (p : Platform) {d : Driver} (sql : Sql d) (rounds : Rounds) where
  module _ (i : Uuid) where
    abbrev pub HostedStep : Trace → d.Db → d.Db → Type 0
    HostedStep = Hosted p d (Elsewhere p sql "job_steps" (some i))

    keeps :
        (t : Trace) (db db' : d.Db)
        → All (IsOther i) (story steps t)
        → HostedStep t db db'
        → sql.row db' "job_steps" i ≡ sql.row db "job_steps" i
    keeps t db db' o h =
        Hosted-keeps p sql (step_rows p sql) (Elsewhere p sql "job_steps" (some i)) i
          (λ db db' x. x) t db db' o h

    module _ (job_id : JobId) (name : String) (order : ℕ) (group : Option String) (now : Time) where
      abbrev step : String → Option Time → Option Time → JobStep
      step = step_record job_id name order group i now

      -- A call that changes other steps only.
      passed :
          (status : String) (a b : Option Time) (c : Call) (r : Reply c) (t : Trace) (db db' : d.Db)
          → All (IsOther i) (story steps (event c r ∷ []))
          → Holds p sql db (step status a b)
          → HostedStep (event c r ∷ t) db db'
          → (after : d.Db) × Holds p sql after (step status a b) × HostedStep t after db'
      passed status a b c r t db db' o held (before, after, x, q, rest) =
          (after, keeps (event c r ∷ []) db after o (before, after, x, q, refl) ∙ held, rest)

      -- The row that a result of the step leaves, or the refusal of the last update.
      data Left (t1 : Time) (result : Option Error) (t : Trace) (db' : d.Db) : Type 0 where
        unrecorded :
            (status : String)
            → Refused p sql rounds i status t
            → Holds p sql db' (step "running" (some t1) none)
            → Left t1 result t db'
        succeeded :
            result ≡ none → Holds p sql db' (step "succeeded" (some t1) none) → Left t1 result t db'
        failed :
            (x : Error) (t2 : Time)
            → result ≡ some x
            → Holds p sql db' (step "failed" (some t1) (some t2))
            → Left t1 result t db'

      Left-later :
          (t1 : Time) (result : Option Error) (e : Event) (t : Trace) (db' : d.Db)
          → Left t1 result t db'
          → Left t1 result (e ∷ t) db'
      Left-later t1 result e t db' (Left.unrecorded s (c, x, m) h) =
          Left.unrecorded s (c, x, inr m) h
      Left-later t1 result e t db' (Left.succeeded q h) = Left.succeeded q h
      Left-later t1 result e t db' (Left.failed x t2 q h) = Left.failed x t2 q h

      -- The last update of the step, which is refused or sets its status, and what comes after.
      ended-Left :
          (t1 : Time) (result : Option Error) (c : Context) (id : Uuid) (o : Option Error)
          (t : Trace) (db mid db' : d.Db)
          → id ≡ i
          → Holds p sql db (step state_running (some t1) none)
          → HostedStep
              (event (Call.step_update_status c id (final_stage_state result)) o ∷ [])
              db
              mid
          → sql.row db' "job_steps" i ≡ sql.row mid "job_steps" i
          → Left t1 result
              (event (Call.step_update_status c id (final_stage_state result)) o ∷ t)
              db'
      unfolding final_stage_state string_eq
      ended-Left t1 result c id (some e) t db mid db' q held h x =
          let (after, f, g, _) =
            Hosted-After p sql (step_rows p sql)
              (event (Call.step_update_status c id (final_stage_state result)) (some e) ∷ []) i
              (step state_running (some t1) none) db mid refl (q, tt) held h in
          Left.unrecorded (final_stage_state result)
            (
              c,
              e,
              inl (
                  ap (λ k. event (Call.step_update_status c k (final_stage_state result)) (some e))
                    q),
            )
            (x ∙ subst (Holds p sql mid) (sym f) g)
      ended-Left t1 none c id none t db mid db' q held h x =
          let (after, (now', f), g, _) =
            Hosted-After p sql (step_rows p sql)
              (event (Call.step_update_status c id state_succeeded) none ∷ []) i
              (step state_running (some t1) none) db mid refl (q, tt) held h in
          Left.succeeded refl (x ∙ subst (Holds p sql mid) (sym f) g)
      ended-Left t1 (some y) c id none t db mid db' q held h x =
          let (after, (now', f), g, _) =
            Hosted-After p sql (step_rows p sql)
              (event (Call.step_update_status c id state_failed) none ∷ []) i
              (step state_running (some t1) none) db mid refl (q, tt) held h in
          Left.failed y now' refl (x ∙ subst (Holds p sql mid) (sym f) g)

      -- What is left to do of the `executeAndPoll`, and what comes of it.
      abbrev Worked : Time → Prog (Option Error) → Trace → d.Db → Type 0
      Worked t1 q t db' =
          (result : Option Error) × (u : Trace) × Executes q u (some result)
          × Sub u t
          × Left t1 result t db'

      Worked-later :
          (t1 : Time) (q : Prog (Option Error)) (e : Event) (t : Trace) (db' : d.Db)
          → Worked t1 q t db'
          → Worked t1 q (e ∷ t) db'
      Worked-later t1 q e t db' (result, u, x, b, l) =
          (result, u, x, Sub.skip e b, Left-later t1 result e t db' l)

      advanced-Worked :
          (t1 : Time) (c : Call) (r : Reply c) (q : Prog (Option Error)) (t : Trace) (db' : d.Db)
          → Advances c r q (λ q'. Worked t1 q' t db')
          → Worked t1 q (event c r ∷ t) db'
      advanced-Worked t1 c r (ret a) t db' h = absurd h
      advanced-Worked t1 c r (call c' k) t db' (r', e, (result, u, x, b, l)) = (
        result,
        event c' r' ∷ u,
        Executes.answers c' r' x,
        subst (λ z. Sub (event c' r' ∷ u) (z ∷ t)) (sym e) (Sub.take (event c' r') b),
        Left-later t1 result (event c r) t db' l,
      )
      advanced-Worked t1 c r hang t db' h = absurd h

      -- What comes after the start of the step.
      working-Worked :
          (t1 : Time) (w : Prog (Option Error)) (t : Trace) (db db' : d.Db)
          → Leads rounds i outside t (Where.working job_id name order group w)
          → ¬ In i (step_ids t)
          → Holds p sql db (step state_running (some t1) none)
          → HostedStep t db db'
          → Worked t1 w t db'
      working-Worked t1 w [] db db' h n held x = cc
      working-Worked t1 w (event (Call.step_create c s) (ok id) ∷ t) db db' h n held x =
          let other : ok id ≢ ok i = λ e. n (inl (ok-injective e)) in
          let (after, k, rest) =
            passed state_running (some t1) none (Call.step_create c s) (ok id) t db db' (other, tt)
              held x in
          Worked-later t1 w _ t db'
            (working-Worked t1 w t after db' (h other) (λ m. n (inr m)) k rest)
      working-Worked t1 w (event (Call.step_create c s) (err e) ∷ t) db db' h n held x =
          let (after, k, rest) =
            passed state_running (some t1) none (Call.step_create c s) (err e) t db db'
              ((λ z. cc), tt) held x in
          Worked-later t1 w _ t db' (working-Worked t1 w t after db' (h (λ z. cc)) n k rest)
      working-Worked t1 w (event (Call.step_update_status c id s) r ∷ t) db db' (inl (o, h)) n held
            x =
          let (after, k, rest) =
            passed state_running (some t1) none (Call.step_update_status c id s) r t db db' (o, tt)
              held x in
          Worked-later t1 w _ t db' (working-Worked t1 w t after db' h n k rest)
      working-Worked t1 w (event (Call.step_update_status c id s) r ∷ t) db db'
            (inr (e, result, z, q', h)) n held (before, after, x, q, rest) =
          (
            result,
            [],
            subst (λ w. Executes w [] (some result)) (sym z) (Executes.returns result),
            Sub-none _,
            subst (λ s. Left t1 result (event (Call.step_update_status c id s) r ∷ t) db') (sym q')
                (ended-Left t1 result c id r t db after db' e held
                  (subst (λ s. HostedStep (event (Call.step_update_status c id s) r ∷ []) db after)
                    q' (before, after, x, q, refl))
                  (keeps t after db' (outside-IsOther rounds i t h n) rest)),
          )
      working-Worked t1 w (event c r ∷ t) db' db'' (inl h) n held x =
          let (after, k, rest) = passed state_running (some t1) none c r t db' db'' tt held x in
          Worked-later t1 w _ t db'' (working-Worked t1 w t after db'' h n k rest)
      working-Worked t1 w (event c r ∷ t) db' db'' (inr h) n held x =
          let (after, k, rest) = passed state_running (some t1) none c r t db' db'' tt held x in
          advanced-Worked t1 c r w t db''
            (Advances_mono rounds i c r w (λ w' l. working-Worked t1 w' t after db'' l n k rest) h)

      -- The end of a step that was started.
      Worked-StepHeld :
          (t1 : Time) (id : JobStepId) (spec : ExecutionSpec) (e : Event) (t : Trace) (db' : d.Db)
          → id ≡ i
          → Worked t1 (execute_and_poll rounds id spec) t db'
          → StepHeld p sql rounds job_id name order group i (e ∷ t) db'
      Worked-StepHeld t1 id spec e t db' q (result, u, x, b, l) = go l (
        spec,
        u,
        subst (λ k. Executes (execute_and_poll rounds k spec) u (some result)) q x,
        Sub.skip e b,
      )
        where
          go :
              Left t1 result t db'
              → Ran p sql rounds i (e ∷ t) result
              → StepHeld p sql rounds job_id name order group i (e ∷ t) db'
          go (Left.unrecorded s (c, y, m) h) ran =
              StepHeld.running now t1 result s ran (c, y, inr m) h
          go (Left.succeeded z h) ran =
              StepHeld.succeeded now t1 (subst (Ran p sql rounds i (e ∷ t)) z ran) h
          go (Left.failed y t2 z h) ran =
              StepHeld.failed now t1 t2 y (subst (Ran p sql rounds i (e ∷ t)) z ran) h

      -- What comes after the making of the step.
      pub pending-StepHeld :
          (t : Trace) (db db' : d.Db)
          → Leads rounds i outside t (Where.pending job_id name order group)
          → ¬ In i (step_ids t)
          → Holds p sql db (step state_pending none none)
          → HostedStep t db db'
          → StepHeld p sql rounds job_id name order group i t db'
      unfolding string_eq
      pending-StepHeld [] db db' h n held x = cc
      pending-StepHeld (event (Call.step_create c s) (ok id) ∷ t) db db' h n held x =
          let other : ok id ≢ ok i = λ e. n (inl (ok-injective e)) in
          let (after, k, rest) =
            passed state_pending none none (Call.step_create c s) (ok id) t db db' (other, tt) held
              x in
          StepHeld-later p sql rounds job_id name order group i _ t db'
            (pending-StepHeld t after db' (h other) (λ m. n (inr m)) k rest)
      pending-StepHeld (event (Call.step_create c s) (err e) ∷ t) db db' h n held x =
          let (after, k, rest) =
            passed state_pending none none (Call.step_create c s) (err e) t db db' ((λ z. cc), tt)
              held x in
          StepHeld-later p sql rounds job_id name order group i _ t db'
            (pending-StepHeld t after db' (h (λ z. cc)) n k rest)
      pending-StepHeld (event (Call.step_update_status c id s) r ∷ t) db db' (inl (o, h)) n held x =
          let (after, k, rest) =
            passed state_pending none none (Call.step_update_status c id s) r t db db' (o, tt) held
              x in
          StepHeld-later p sql rounds job_id name order group i _ t db'
            (pending-StepHeld t after db' h n k rest)
      pending-StepHeld (event (Call.step_update_status c id s) r ∷ t) db db' (inr (e, q', h, k)) n
            held (before, after, x, q, rest) =
          subst
            (λ s.
              StepHeld p sql rounds job_id name order group i
                (event (Call.step_update_status c id s) r ∷ t) db')
            (sym q')
            (started r h k (
              subst (λ s. HostedStep (event (Call.step_update_status c id s) r ∷ []) db after) q'
                (before, after, x, q, refl)))
        where
          started :
              (r : Option Error)
              → (r ≡ none
                  → (spec : ExecutionSpec) × Leads rounds i outside t
                      (Where.working job_id name order group (execute_and_poll rounds id spec)))
              → ((e : Error) → r ≡ some e → Leads rounds i outside t outside)
              → HostedStep (event (Call.step_update_status c id state_running) r ∷ []) db after
              → StepHeld p sql rounds job_id name order group i
                  (event (Call.step_update_status c id state_running) r ∷ t)
                  db'
          started none h k y =
              let (_, (t1, f), g, _) =
                Hosted-After p sql (step_rows p sql)
                  (event (Call.step_update_status c id state_running) none ∷ []) i
                  (step state_pending none none) db after refl (e, tt) held y in
              let (spec, leads) = h refl in
              Worked-StepHeld t1 id spec _ t db' e (
                working-Worked t1 (execute_and_poll rounds id spec) t after db' leads n
                  (subst (Holds p sql after) (sym f) g) rest)
          started (some z) h k y =
              let (_, f, g, _) =
                Hosted-After p sql (step_rows p sql)
                  (event (Call.step_update_status c id state_running) (some z) ∷ []) i
                  (step state_pending none none) db after refl (e, tt) held y in
              StepHeld.pending now
                (c, z, inl (ap (λ k. event (Call.step_update_status c k "running") (some z)) e))
                (keeps t after db' (outside-IsOther rounds i t (k z refl) n) rest
                  ∙ subst (Holds p sql after) (sym f) g)
      pending-StepHeld (event c r ∷ t) db db' h n held x =
          let (after, k, rest) = passed state_pending none none (c) r t db db' tt held x in
          StepHeld-later p sql rounds job_id name order group i _ t db'
            (pending-StepHeld t after db' h n k rest)
