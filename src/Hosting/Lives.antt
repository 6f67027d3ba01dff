-- ===== src/Hosting/Lives.antt =====
-- The row of a job or of a step over its life.
use mathlib.Core.Path.{subst}
use shipinator.Common.{◌≡◌, refl, sym, ap, ◌∙◌, String, Option, none, some, List, [], ◌∷◌}
use shipinator.Errors.{Error, Result, ok, err}
use shipinator.Models.{Uuid, Time}
use shipinator.Fsm.{state_pending, state_running, state_succeeded, state_failed}
use shipinator.Orchestrator.{final_stage_state}
use shipinator.Effects.{Platform}
use shipinator.Effects.Logic.{Trace, Event}
use shipinator.Effects.Stories.{Kind, Change, made, set, story}
use shipinator.Postgres.{Driver}
use shipinator.Postgres.Sql.{Sql}
use shipinator.Hosting.{Hosted}
use shipinator.Hosting.Rows.{Elsewhere, Replayed, Tracked, Stored, Hosted-After}

-- The ID of the record that a story makes.
abbrev pub made_id : List Change → Option Uuid
made_id (made (ok id) ∷ _) = some id
made_id _ = none

-- The updates of a record that has been made.
pub data LifeSent (id : Uuid) (changes : List Change) (result : Option Error) : Type 0 where
  refused :
      (e x : Error)
      → changes ≡ set id state_running (some e) ∷ []
      → result ≡ some x
      → LifeSent id changes result
  sent :
      (last : Option Error)
      → changes ≡ set id state_running none ∷ set id (final_stage_state result) last ∷ []
      → LifeSent id changes result

-- `shape` makes the record of a status, of started_at and of finished_at.
module _ (p : Platform) {d : Driver} (sql : Sql d) (k : Tracked p sql)
    (shape : String → Option Time → Option Time → k.R) where
  -- The row of the record after these updates.
  pub data LifeStored (id : Uuid) (db' : d.Db) (changes : List Change) (result : Option Error)
      : Type 0 where
    not_started :
        (e x : Error)
        → changes ≡ set id state_running (some e) ∷ []
        → result ≡ some x
        → Stored p sql k db' (shape state_pending none none)
        → LifeStored id db' changes result
    unfinished :
        (t1 : Time) (e : Error)
        → changes ≡ set id state_running none ∷ set id (final_stage_state result) (some e) ∷ []
        → Stored p sql k db' (shape state_running (some t1) none)
        → LifeStored id db' changes result
    succeeded :
        (t1 : Time)
        → result ≡ none
        → changes ≡ set id "running" none ∷ set id "succeeded" none ∷ []
        → Stored p sql k db' (shape state_succeeded (some t1) none)
        → LifeStored id db' changes result
    failed :
        (x : Error) (t1 t2 : Time)
        → result ≡ some x
        → changes ≡ set id "running" none ∷ set id "failed" none ∷ []
        → Stored p sql k db' (shape state_failed (some t1) (some t2))
        → LifeStored id db' changes result

  -- What `UpdateStatus` does to the three fields.
  pub record Shaped : Type 0 where
    pub starts :
        (now : Time) (s : String) (a b : Option Time)
        → k.with_status now state_running (shape s a b) ≡ shape state_running (some now) b
    pub succeeds :
        (now : Time) (s : String) (a b : Option Time)
        → k.with_status now state_succeeded (shape s a b) ≡ shape state_succeeded a b
    pub fails :
        (now : Time) (s : String) (a b : Option Time)
        → k.with_status now state_failed (shape s a b) ≡ shape state_failed a (some now)

  module _ (shaped : Shaped) where
    open shaped use {starts, succeeds, fails}

    sent-LifeStored :
        (id : Uuid) (db' : d.Db) (changes : List Change) (result last : Option Error) (r' : k.R)
        → changes ≡ set id state_running none ∷ set id (final_stage_state result) last ∷ []
        → Replayed k.with_status
            (shape state_pending none none)
            (set id state_running none ∷ set id (final_stage_state result) last ∷ [])
            r'
        → Stored p sql k db' r'
        → LifeStored id db' changes result
    unfolding final_stage_state
    sent-LifeStored id db' changes none none r' q (t1, (t2, f)) h = LifeStored.succeeded t1 refl q (
        subst (Stored p sql k db')
          (sym f ∙ (ap (k.with_status t2 state_succeeded) (starts t1 _ _ _) ∙ succeeds t2 _ _ _)) h)
    sent-LifeStored id db' changes (some x) none r' q (t1, (t2, f)) h =
        LifeStored.failed x t1 t2 refl q (
          subst (Stored p sql k db')
            (sym f ∙ (ap (k.with_status t2 state_failed) (starts t1 _ _ _) ∙ fails t2 _ _ _)) h)
    sent-LifeStored id db' changes result (some e) r' q (t1, f) h =
        LifeStored.unfinished t1 e q (subst (Stored p sql k db') (sym f ∙ starts t1 _ _ _) h)

    -- A record that has just been made, and the calls on it.
    pub LifeSent-LifeStored :
        (id : Uuid) (t : Trace) (db db' : d.Db) (result : Option Error)
        → ((s : String) (a b : Option Time) → k.id_of (shape s a b) ≡ id)
        → Stored p sql k db (shape state_pending none none)
        → Hosted p d (Elsewhere p sql k.table (some id)) t db db'
        → LifeSent id (story k.kind t) result
        → LifeStored id db' (story k.kind t) result
    LifeSent-LifeStored id t db db' result e h x (LifeSent.refused y z q w) =
        let (r', f, g, _) = Hosted-After p sql k t id _ db db' (e _ _ _) (rw q (refl, tt)) h x in
        LifeStored.not_started y z q w (
          subst (Stored p sql k db')
            (sym (subst (λ l. Replayed k.with_status (shape state_pending none none) l r') q f)) g)
    LifeSent-LifeStored id t db db' result e h x (LifeSent.sent last q) =
        let (r', f, g, _) =
          Hosted-After p sql k t id _ db db' (e _ _ _) (rw q (refl, (refl, tt))) h x in
        sent-LifeStored id db' (story k.kind t) result last r' q
          (subst (λ l. Replayed k.with_status (shape state_pending none none) l r') q f) g

-- The calls of a program on the record that it makes: `creation` is the call that makes it, with
-- its answer.
module _ (kind : Kind) (creation : Result Uuid → Event) where
  pub data Life (t : Trace) (result : Option Error) : Type 0 where
    not_made : (e x : Error) → t ≡ creation (err e) ∷ [] → result ≡ some x → Life t result
    begun :
        (id : Uuid) (u : Trace)
        → t ≡ creation (ok id) ∷ u
        → LifeSent id (story kind u) result
        → Life t result

module _ (p : Platform) {d : Driver} (sql : Sql d) (k : Tracked p sql)
    (shape : Uuid → Time → String → Option Time → Option Time → k.R)
    (creation : Result Uuid → Event) where
  -- The row afterwards of the record that such a program makes. The second argument of `shape` is
  -- the instant of its making.
  pub data RowStored (db' : d.Db) (t : Trace) (result : Option Error) : Type 0 where
    not_made : (e x : Error) → t ≡ creation (err e) ∷ [] → result ≡ some x → RowStored db' t result
    begun :
        (id : Uuid) (now : Time) (u : Trace)
        → t ≡ creation (ok id) ∷ u
        → LifeStored p sql k (shape id now) id db' (story k.kind u) result
        → RowStored db' t result

  -- Other clients leave the row of the record that the trace makes.
  abbrev pub ElsewhereMade : Trace → d.Db → d.Db → Type 0
  ElsewhereMade t = Elsewhere p sql k.table (made_id (story k.kind t))

  -- What makes the record of the shape.
  pub record Opens : Type 0 where
    pub shaped : (id : Uuid) (now : Time) → Shaped p sql k (shape id now)
    pub id_of-shape :
        (id : Uuid) (now : Time) (s : String) (a b : Option Time)
        → k.id_of (shape id now s a b) ≡ id
    pub Hosted-creation :
        (id : Uuid) (u : Trace) (db db' : d.Db)
        → Hosted p d (ElsewhereMade (creation (ok id) ∷ u)) (creation (ok id) ∷ u) db db'
        → (after : d.Db) × (now : Time) × Stored p sql k after
            (shape id now state_pending none none)
          × Hosted p d (Elsewhere p sql k.table (some id)) u after db'

  pub Life-RowStored :
      (opens : Opens) (t : Trace) (db db' : d.Db) (result : Option Error)
      → Life k.kind creation t result
      → Hosted p d (ElsewhereMade t) t db db'
      → RowStored db' t result
  Life-RowStored opens t db db' result (Life.not_made e x q w) h = RowStored.not_made e x q w
  Life-RowStored opens t db db' result (Life.begun id u q life) h =
      let (after, now, held, rest) =
        opens.Hosted-creation id u db db'
          (subst (λ t. Hosted p d (ElsewhereMade t) t db db') q h) in
      RowStored.begun id now u q (
        LifeSent-LifeStored p sql k (shape id now) (opens.shaped id now) id u after db' result
          (opens.id_of-shape id now) held rest life)
