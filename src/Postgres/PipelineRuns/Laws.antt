-- ===== src/Postgres/PipelineRuns/Laws.antt =====
-- `PipelineRunStore` over a database: what is stored, read back and updated.
use mathlib.Core.Path.{subst}
use mathlib.Core.Option
use mathlib.Core.Option.{or_else}
use shipinator.Common.{
  ◌≡◌, ◌≢◌, refl, ap, ◌∙◌, String, true, Option, none, some, [], ◌∷◌, ◌==◌, string_eq,
  if◌then◌else◌,
}
use shipinator.Errors.{Error, ok, is_sentinel}
use shipinator.Models.{Uuid, Time, PipelineRun}
use shipinator.Effects.{Platform}
use shipinator.Postgres.{Driver, text, time, nullable, assign, coalesce}
use shipinator.Postgres.Helpers.{started_finished_for_status}
use shipinator.Postgres.Helpers.Times.{
  is_final, final_not_running, is_running, started_lem, finished_lem,
}
use shipinator.Postgres.Sql.{Sql, stored, micros, assigned}
use shipinator.Postgres.Sql.Statements.{
  row-insert, row-update_of, update-missing, update-refused, query_row-row, scan-kept_time,
}
use shipinator.Postgres.PipelineRuns.{
  columns, values, prepared, create, get_by_id, update_status, status_sets,
}

-- What a reader gets of a stored record: instants in microseconds.
abbrev pub as_read : PipelineRun → PipelineRun
as_read r = record r {
  created_at = micros r.created_at;
  started_at = Option.map micros r.started_at;
  finished_at = Option.map micros r.finished_at;
}

-- The record with a new status, set at `now`.
abbrev pub with_status : Time → String → PipelineRun → PipelineRun
with_status now status r = record r {
  status = status;
  started_at = if status == "running" then some now else r.started_at;
  finished_at = if is_final status then some now else r.finished_at;
}

assigned-values :
    (r : PipelineRun) (status : String) (a b : Option Time)
    → assigned
        (("status", assign (text status))
          ∷ ("started_at", coalesce (nullable time a))
          ∷ ("finished_at", coalesce (nullable time b))
          ∷ [])
        (stored columns (values r))
      ≡ stored columns (
          values (record r {
            status = status;
            started_at = or_else a r.started_at;
            finished_at = or_else b r.finished_at;
          }))
unfolding string_eq or_else
assigned-values r status none none = refl
assigned-values r status none (some b) = refl
assigned-values r status (some a) none = refl
assigned-values r status (some a) (some b) = refl

with_status-values :
    (now : Time) (status : String) (r : PipelineRun)
    → assigned (status_sets now status) (stored columns (values r))
      ≡ stored columns (values (with_status now status r))
unfolding status_sets
with_status-values now status r =
    assigned-values r status (started_finished_for_status status now).0
      (started_finished_for_status status now).1
    ∙ rw (started_lem status now r.started_at, finished_lem status now r.finished_at)

-- A record that was set to running and then to a final status.
pub with_status-with_status :
    (t1 t2 : Time) (status : String) (r : PipelineRun)
    → is_final status ≡ true
    → with_status t2 status (with_status t1 "running" r)
      ≡ record r { status = status; started_at = some t1; finished_at = some t2 }
with_status-with_status t1 t2 status r h =
    rw (h, final_not_running status h, is_running "running" refl) refl

module _ (p : Platform) {d : Driver} (sql : Sql d) where
  -- The table holds the record under its ID.
  abbrev pub Holds : d.Db → PipelineRun → Type 0
  Holds db r = sql.row db "pipeline_runs" r.id ≡ some (stored columns (values r))

  pub get_by_id-Holds :
      (db : d.Db) (r : PipelineRun)
      → sql.fault db ≡ none
      → Holds db r
      → get_by_id p d r.id db ≡ ok (as_read r)
  unfolding get_by_id string_eq
  get_by_id-Holds db r f h =
      rw (query_row-row sql columns "pipeline_runs" r.id db _ f h)
        (rw (scan-kept_time r.started_at) (rw (scan-kept_time r.finished_at)))

  pub create-Holds :
      (fresh : Uuid) (now : Time) (r : PipelineRun) (db : d.Db)
      → (create p d fresh now r db).2 ≡ none
      → Holds (create p d fresh now r db).0 (create p d fresh now r db).1
  unfolding create string_eq
  create-Holds fresh now r db h =
      row-insert sql "pipeline_runs" columns (values (prepared fresh now r))
        (prepared fresh now r).id db refl h

  -- A `Create` with no error is read back by `GetByID`, if the database can be reached: every
  -- field is the one that `Create` left in the record, its instants cut to microseconds.
  pub create-get_by_id :
      (fresh : Uuid) (now : Time) (r : PipelineRun) (db : d.Db)
      → (create p d fresh now r db).2 ≡ none
      → sql.fault (create p d fresh now r db).0 ≡ none
      → get_by_id p d (create p d fresh now r db).1.id (create p d fresh now r db).0
        ≡ ok (as_read (create p d fresh now r db).1)
  create-get_by_id fresh now r db h f = get_by_id-Holds _ _ f (create-Holds fresh now r db h)

  -- An `UpdateStatus` with no error, on a stored record, leaves it stored with the new status:
  -- started_at is set at `running`, finished_at at `success`, `failed` and
  -- `canceled`, and no other field changes.
  pub update_status-Holds :
      (now : Time) (status : String) (r : PipelineRun) (db : d.Db)
      → Holds db r
      → (update_status p d now r.id status db).1 ≡ none
      → Holds (update_status p d now r.id status db).0 (with_status now status r)
  unfolding update_status
  update_status-Holds now status r db h e =
      row-update_of sql p "pipeline run" "pipeline_runs" r.id db (status_sets now status) _ h e
      ∙ ap some (with_status-values now status r)

  -- An `UpdateStatus` whose error is `ErrNotFound` found no row for the ID, and where there is no
  -- row it returns an error.
  pub update_status-missing :
      (now : Time) (status : String) (id : Uuid) (db : d.Db)
      → ((e : Error)
          → (update_status p d now id status db).1 ≡ some e
          → is_sentinel "not found" e ≡ true
          → sql.row db "pipeline_runs" id ≡ none)
        × (sql.row db "pipeline_runs" id ≡ none → (update_status p d now id status db).1 ≢ none)
  unfolding update_status
  update_status-missing now status id db =
      update-missing sql p "pipeline run" "pipeline_runs" id db (status_sets now status)

  -- Two calls of `UpdateStatus` with no error, the first to `running` and the second to `success`,
  -- `failed` or `canceled`, leave a stored run with the second status, started at the instant of
  -- the first call and finished at the instant of the second.
  update_status-update_status :
      (t1 t2 : Time) (status : String) (r : PipelineRun) (db : d.Db)
      → is_final status ≡ true
      → Holds db r
      → (update_status p d t1 r.id "running" db).1 ≡ none
      → (update_status p d t2 r.id status (update_status p d t1 r.id "running" db).0).1 ≡ none
      → Holds
          (update_status p d t2 r.id status (update_status p d t1 r.id "running" db).0).0
          (record r { status = status; started_at = some t1; finished_at = some t2 })
  update_status-update_status t1 t2 status r db h k e1 e2 =
      subst (Holds (update_status p d t2 r.id status (update_status p d t1 r.id "running" db).0).0)
        (with_status-with_status t1 t2 status r h)
        (update_status-Holds t2 status (with_status t1 "running" r) _
          (update_status-Holds t1 "running" r db k e1) e2)

  -- An `UpdateStatus` with an error leaves a stored run as it was.
  pub update_status-refused :
      (now : Time) (status : String) (r : PipelineRun) (db : d.Db) {e : Error}
      → Holds db r
      → (update_status p d now r.id status db).1 ≡ some e
      → Holds (update_status p d now r.id status db).0 r
  unfolding update_status
  update_status-refused now status r db h q =
      update-refused sql p "pipeline run" "pipeline_runs" r.id db (status_sets now status) _ h q
