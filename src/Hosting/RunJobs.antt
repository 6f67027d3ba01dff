-- ===== src/Hosting/RunJobs.antt =====
-- `Run` over the Postgres stores: the rows of its jobs afterwards.
use mathlib.Core.Path.{subst}
use shipinator.Common.{
  ◌≡◌, ◌≢◌, refl, sym, ap, ◌∙◌, inl, inr, String, Option, none, some, List, [], ◌∷◌, ◌++◌, All, In,
  In-append, In-left, In-right, Distinct, Distinct-append,
}
use shipinator.Errors.{Error, ok, err, ok-injective}
use shipinator.Models.{Time, PipelineRunId, JobId}
use shipinator.Config.{ShipinatorConfig}
use shipinator.Effects.{Platform}
use shipinator.Effects.Logic.{Trace, Executes, Ensures-Executes}
use shipinator.Effects.Stories.{Change, set, jobs, story, story-append}
use shipinator.Orchestrator.{Rounds, Config, final_stage_state, run}
use shipinator.Orchestrator.Stages.{configured}
use shipinator.Orchestrator.Runs.{RunEnds, run-RunEnds}
use shipinator.Postgres.{Driver}
use shipinator.Postgres.Sql.{Sql}
use shipinator.Postgres.Jobs.Laws.{Holds}
use shipinator.Hosting.{Hosted}
use shipinator.Hosting.Rows.{Elsewhere}
use shipinator.Hosting.Kinds.{job_rows}
use shipinator.Hosting.Keeps.{
  made_ids, made_ids-append, IsOther, Hosted-append, Hosted-Hosted, Hosted-keeps,
}
use shipinator.Hosting.Lives.{Life, LifeSent, LifeStored, LifeSent-LifeStored}
use shipinator.Hosting.JobRows.{job_record, job_event, job_opens}
use shipinator.Hosting.JobLives.{JobLives, run-JobLives}

abbrev pub job_ids : Trace → List JobId
job_ids t = made_ids (story jobs t)

job_ids-append : (t u : Trace) → job_ids (t ++ u) ≡ job_ids t ++ job_ids u
job_ids-append t u =
    ap made_ids (story-append jobs t u) ∙ made_ids-append (story jobs t) (story jobs u)

-- A record that has been made makes no other and is the only one that changes.
LifeSent-made_ids :
    (id : JobId) (l : List Change) (result : Option Error) → LifeSent id l result → made_ids l ≡ []
LifeSent-made_ids id l result (LifeSent.refused e x q w) = rw q refl
LifeSent-made_ids id l result (LifeSent.sent last q) = rw q refl

LifeSent-others :
    (id i : JobId) (l : List Change) (result : Option Error)
    → i ≢ id
    → LifeSent id l result
    → All (IsOther i) l
LifeSent-others id i l result n (LifeSent.refused e x q w) = rw q (n, tt)
LifeSent-others id i l result n (LifeSent.sent last q) = rw q (n, (n, tt))

module _ (p : Platform) {d : Driver} (sql : Sql d) (run_id : PipelineRunId) where
  -- A job of the run in the table, by the updates of it that a story has.
  pub data JobHeld (story : List Change) (db : d.Db) (id : JobId) : Type 0 where
    pending :
        (job_type : String) (now : Time) (e : Error)
        → In (set id "running" (some e)) story
        → Holds p sql db (job_record run_id job_type id now "pending" none none)
        → JobHeld story db id
    running :
        (job_type : String) (now t1 : Time) (status : String) (e : Error)
        → In (set id "running" none) story
        → In (set id status (some e)) story
        → Holds p sql db (job_record run_id job_type id now "running" (some t1) none)
        → JobHeld story db id
    succeeded :
        (job_type : String) (now t1 : Time)
        → In (set id "succeeded" none) story
        → Holds p sql db (job_record run_id job_type id now "succeeded" (some t1) none)
        → JobHeld story db id
    failed :
        (job_type : String) (now t1 t2 : Time)
        → In (set id "failed" none) story
        → Holds p sql db (job_record run_id job_type id now "failed" (some t1) (some t2))
        → JobHeld story db id

  JobHeld-moved :
      (l m : List Change) (db db' : d.Db) (id : JobId)
      → ((c : Change) → In c l → In c m)
      → sql.row db' "jobs" id ≡ sql.row db "jobs" id
      → JobHeld l db id
      → JobHeld m db' id
  JobHeld-moved l m db db' id f x (JobHeld.pending s now e i h) =
      JobHeld.pending s now e (f _ i) (x ∙ h)
  JobHeld-moved l m db db' id f x (JobHeld.running s now t1 status e i j h) =
      JobHeld.running s now t1 status e (f _ i) (f _ j) (x ∙ h)
  JobHeld-moved l m db db' id f x (JobHeld.succeeded s now t1 i h) =
      JobHeld.succeeded s now t1 (f _ i) (x ∙ h)
  JobHeld-moved l m db db' id f x (JobHeld.failed s now t1 t2 i h) =
      JobHeld.failed s now t1 t2 (f _ i) (x ∙ h)

  LifeStored-JobHeld :
      (job_type : String) (id : JobId) (now : Time) (db : d.Db) (l : List Change)
      (result : Option Error)
      → LifeStored p sql (job_rows p sql) (job_record run_id job_type id now) id db l result
      → JobHeld l db id
  LifeStored-JobHeld s id now db l result (LifeStored.not_started e x q w h) =
      JobHeld.pending s now e (rw q (inl refl)) h
  LifeStored-JobHeld s id now db l result (LifeStored.unfinished t1 e q h) =
      JobHeld.running s now t1 (final_stage_state result) e (rw q (inl refl))
        (rw q (inr (inl refl))) h
  LifeStored-JobHeld s id now db l result (LifeStored.succeeded t1 w q h) =
      JobHeld.succeeded s now t1 (rw q (inr (inl refl))) h
  LifeStored-JobHeld s id now db l result (LifeStored.failed x t1 t2 w q h) =
      JobHeld.failed s now t1 t2 (rw q (inr (inl refl))) h

  -- Other clients leave the rows of the jobs.
  abbrev pub ElsewhereJobs : List JobId → d.Db → d.Db → Type 0
  ElsewhereJobs ids db db' = (i : JobId) → In i ids → sql.row db' "jobs" i ≡ sql.row db "jobs" i

  -- After a part of the trace its jobs are held, and the rows of the others are as they were.
  abbrev Held : List JobId → Trace → Type 0
  Held ids t =
      (db db' : d.Db)
      → ((i : JobId) → In i (job_ids t) → In i ids)
      → Distinct (job_ids t)
      → Hosted p d (ElsewhereJobs ids) t db db'
      → ((i : JobId) → In i (job_ids t) → JobHeld (story jobs t) db' i)
        × ((i : JobId) → In i ids → ¬ In i (job_ids t) → sql.row db' "jobs" i ≡ sql.row db "jobs" i)

  module _ (ids : List JobId) where
    keeps :
        (i : JobId)
        → In i ids
        → (t : Trace) (db db' : d.Db) → All (IsOther i) (story jobs t)
        → Hosted p d (ElsewhereJobs ids) t db db'
        → sql.row db' "jobs" i ≡ sql.row db "jobs" i
    keeps i m t db db' o h =
        Hosted-keeps p sql (job_rows p sql) (ElsewhereJobs ids) i (λ db db' x. x i m) t db db' o h

    quiet-Held : (t : Trace) → story jobs t ≡ [] → Held ids t
    quiet-Held t q db db' sub dist h = (
      λ i m. absurd (subst (λ l. In i (made_ids l)) q m),
      λ i m _. keeps i m t db db' (rw q tt) h,
    )

    -- The row that a life leaves.
    begun-JobHeld :
        (job_type : String) (id : JobId) (u : Trace) (result : Option Error) (db db' : d.Db)
        → In id ids
        → LifeSent id (story jobs u) result
        → Hosted p d (ElsewhereJobs ids) (job_event run_id job_type (ok id) ∷ u) db db'
        → JobHeld (story jobs u) db' id
    begun-JobHeld s id u result db db' m life h =
        let job = job_record run_id s in
        let opens = job_opens run_id s p sql in
        let (after, now, held, rest) = opens.Hosted-creation id u db db' (
          Hosted-Hosted p d {E = ElsewhereJobs ids} {F = Elsewhere p sql "jobs" (some id)}
            (λ db db' x. x id m) (job_event run_id s (ok id) ∷ u) db db' h) in
        LifeStored-JobHeld s id now db' (story jobs u) result (
          LifeSent-LifeStored p sql (job_rows p sql) (job id now) (opens.shaped id now) id u after
            db' result (opens.id_of-shape id now) held rest life)

    Life-Held :
        (job_type : String) (t : Trace) (result : Option Error)
        → Life jobs (job_event run_id job_type) t result
        → Held ids t
    Life-Held s t result (Life.not_made e x q w) = subst (Held ids) (sym q) (λ db db' sub dist h. (
      λ i m. absurd m,
      λ i m _. keeps i m (job_event run_id s (err e) ∷ []) db db' ((λ z. cc), tt) h,
    ))
    Life-Held s t result (Life.begun id u q life) = subst (Held ids) (sym q) (λ db db' sub dist h. (
      λ i m. elim m [
        | inl e ↦ subst (JobHeld (Change.made (ok id) ∷ story jobs u) db') e (
            JobHeld-moved (story jobs u) _ db' db' id (λ c x. inr x) refl
              (begun-JobHeld s id u result db db' (sub id (inl refl)) life h))
        | inr j ↦ absurd (subst (In i) (LifeSent-made_ids id (story jobs u) result life) j)
      ],
      λ i m n.
          keeps i m (job_event run_id s (ok id) ∷ u) db db'
            (
              (λ z. n (inl (ok-injective z))),
              LifeSent-others id i (story jobs u) result (λ z. n (inl (sym z))) life,
            )
            h,
    ))

    both-Held : (t u : Trace) → Held ids t → Held ids u → Held ids (t ++ u)
    both-Held t u f g db db' sub dist h =
        let e = job_ids-append t u in
        let (left, right, apart) =
          Distinct-append (job_ids t) (job_ids u) (subst Distinct e dist) in
        let (mid, h1, h2) = Hosted-append p d (ElsewhereJobs ids) (λ db i m. refl) t u db db' h in
        let into : (i : JobId) → In i (job_ids t ++ job_ids u) → In i ids =
          λ i m. sub i (subst (In i) (sym e) m) in
        let (f1, f2) = f db mid (λ i m. into i (In-left i (job_ids t) (job_ids u) m)) left h1 in
        let (g1, g2) = g mid db' (λ i m. into i (In-right i (job_ids t) (job_ids u) m)) right h2 in
        (
          λ i m. elim (In-append i (job_ids t) (job_ids u) (subst (In i) e m)) [
            | inl j ↦
                JobHeld-moved (story jobs t) (story jobs (t ++ u)) mid db' i
                  (λ c x.
                    subst (In c) (sym (story-append jobs t u))
                      (In-left c (story jobs t) (story jobs u) x))
                  (g2 i (into i (In-left i (job_ids t) (job_ids u) j)) (apart i j)) (f1 i j)
            | inr j ↦
                JobHeld-moved (story jobs u) (story jobs (t ++ u)) db' db' i
                  (λ c x.
                    subst (In c) (sym (story-append jobs t u))
                      (In-right c (story jobs t) (story jobs u) x))
                  refl (g1 i j)
          ],
          λ i m n.
              let n' : In i (job_ids t ++ job_ids u) → ⊥ = λ m. n (subst (In i) (sym e) m) in
              g2 i m (λ j. n' (In-right i (job_ids t) (job_ids u) j))
              ∙ f2 i m (λ j. n' (In-left i (job_ids t) (job_ids u) j)),
        )

    JobLives-Held : (t : Trace) → JobLives run_id t → Held ids t
    JobLives-Held t (JobLives.quiet _ q) = quiet-Held t q
    JobLives-Held t (JobLives.lived s _ result life) = Life-Held s t result life
    JobLives-Held _ (JobLives.both t u l m) = both-Held t u (JobLives-Held t l) (JobLives-Held u m)

  -- A `Run` over the Postgres stores that returns, whose jobs got different IDs and have rows that
  -- other clients leave alone, ends in one of two ways. Its update to running was refused, and this
  -- was its only call; or the jobs of the configured stages follow in order until one fails, each
  -- set to running and then to succeeded where its stage returned nil and to failed where not. Each
  -- job that it made is in the table as a job of the run: pending and without instants, where its
  -- update to running was refused; at running with started_at, where this was accepted and a later
  -- one refused; succeeded with started_at, and its finished_at is NULL, where the update to
  -- succeeded was accepted; failed with both instants, where the update to failed was accepted.
  pub run-JobHeld :
      (rounds : Rounds) (config : Config) (cfg : ShipinatorConfig) (db db' : d.Db) {t : Trace}
      {result : Option Error}
      → Executes (run p rounds config run_id cfg) t (some result)
      → Distinct (job_ids t)
      → Hosted p d (ElsewhereJobs (job_ids t)) t db db'
      → RunEnds run_id (configured cfg) t result
        × ((id : JobId) → In id (job_ids t) → JobHeld (story jobs t) db' id)
  run-JobHeld rounds config cfg db db' {t} x dist h = (
    Ensures-Executes x (RunEnds run_id (configured cfg)) (run-RunEnds p rounds config run_id cfg)
        refl,
    (JobLives-Held (job_ids t) t
        (Ensures-Executes x (λ t _. JobLives run_id t) (run-JobLives run_id p rounds config cfg)
          refl)
        db db' (λ i m. m) dist h).0,
  )
