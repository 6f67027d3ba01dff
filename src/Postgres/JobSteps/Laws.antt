-- ===== src/Postgres/JobSteps/Laws.antt =====
-- `JobStepStore` over a database: what is stored, read back and updated.
use mathlib.Core.Option
use mathlib.Core.Option.{or_else}
use shipinator.Common.{
  ◌≡◌, ◌≢◌, refl, ap, ◌∙◌, String, true, Option, none, some, [], ◌∷◌, ◌==◌, string_eq,
  if◌then◌else◌,
}
use shipinator.Errors.{Error, ok, is_sentinel}
use shipinator.Models.{Uuid, Time, JobStep}
use shipinator.Effects.{Platform}
use shipinator.Postgres.{Driver, text, time, nullable, assign, coalesce}
use shipinator.Postgres.Helpers.{started_finished_for_status}
use shipinator.Postgres.Helpers.Times.{is_final, started_lem, finished_lem}
use shipinator.Postgres.Sql.{Sql, stored, micros, assigned}
use shipinator.Postgres.Sql.Statements.{
  row-insert, row-update_of, update-missing, update-refused, query_row-row, scan-kept_time,
  scan-kept_text, scan-kept_int,
}
use shipinator.Fsm.{state_succeeded}
use shipinator.Postgres.JobSteps.{
  columns, values, prepared, create, get_by_id, update_status, status_sets,
}

-- What a reader gets of a stored record: instants in microseconds.
abbrev pub as_read : JobStep → JobStep
as_read r = record r {
  created_at = micros r.created_at;
  started_at = Option.map micros r.started_at;
  finished_at = Option.map micros r.finished_at;
}

-- The record with a new status, set at `now`.
abbrev pub with_status : Time → String → JobStep → JobStep
with_status now status r = record r {
  status = status;
  started_at = if status == "running" then some now else r.started_at;
  finished_at = if is_final status then some now else r.finished_at;
}

assigned-values :
    (r : JobStep) (status : String) (a b : Option Time)
    → assigned
        (("status", assign (text status))
          ∷ ("started_at", coalesce (nullable time a))
          ∷ ("finished_at", coalesce (nullable time b))
          ∷ [])
        (stored columns (values r))
      ≡ stored columns (
          values (record r {
            status = status;
            started_at = or_else a r.started_at;
            finished_at = or_else b r.finished_at;
          }))
unfolding string_eq or_else
assigned-values r status none none = refl
assigned-values r status none (some b) = refl
assigned-values r status (some a) none = refl
assigned-values r status (some a) (some b) = refl

with_status-values :
    (now : Time) (status : String) (r : JobStep)
    → assigned (status_sets now status) (stored columns (values r))
      ≡ stored columns (values (with_status now status r))
unfolding status_sets
with_status-values now status r =
    assigned-values r status (started_finished_for_status status now).0
      (started_finished_for_status status now).1
    ∙ rw (started_lem status now r.started_at, finished_lem status now r.finished_at)

module _ (p : Platform) {d : Driver} (sql : Sql d) where
  -- The table holds the record under its ID.
  abbrev pub Holds : d.Db → JobStep → Type 0
  Holds db r = sql.row db "job_steps" r.id ≡ some (stored columns (values r))

  pub get_by_id-Holds :
      (db : d.Db) (r : JobStep)
      → sql.fault db ≡ none
      → Holds db r
      → get_by_id p d r.id db ≡ ok (as_read r)
  unfolding get_by_id string_eq
  get_by_id-Holds db r f h = rw (query_row-row sql columns "job_steps" r.id db _ f h) (
      rw (scan-kept_int r.execution_order) (
        rw (scan-kept_text r.parallel_group)
          (rw (scan-kept_time r.started_at) (rw (scan-kept_time r.finished_at)))))

  pub create-Holds :
      (fresh : Uuid) (now : Time) (r : JobStep) (db : d.Db)
      → (create p d fresh now r db).2 ≡ none
      → Holds (create p d fresh now r db).0 (create p d fresh now r db).1
  unfolding create string_eq
  create-Holds fresh now r db h =
      row-insert sql "job_steps" columns (values (prepared fresh now r)) (prepared fresh now r).id
        db refl h

  -- A `Create` with no error is read back by `GetByID`, if the database can be reached: every
  -- field is the one that `Create` left in the record, its instants cut to microseconds.
  pub create-get_by_id :
      (fresh : Uuid) (now : Time) (r : JobStep) (db : d.Db)
      → (create p d fresh now r db).2 ≡ none
      → sql.fault (create p d fresh now r db).0 ≡ none
      → get_by_id p d (create p d fresh now r db).1.id (create p d fresh now r db).0
        ≡ ok (as_read (create p d fresh now r db).1)
  create-get_by_id fresh now r db h f = get_by_id-Holds _ _ f (create-Holds fresh now r db h)

  -- An `UpdateStatus` with no error, on a stored record, leaves it stored with the new status:
  -- started_at is set at `running`, finished_at at `success`, `failed` and
  -- `canceled`, and no other field changes.
  pub update_status-Holds :
      (now : Time) (status : String) (r : JobStep) (db : d.Db)
      → Holds db r
      → (update_status p d now r.id status db).1 ≡ none
      → Holds (update_status p d now r.id status db).0 (with_status now status r)
  unfolding update_status
  update_status-Holds now status r db h e =
      row-update_of sql p "job step" "job_steps" r.id db (status_sets now status) _ h e
      ∙ ap some (with_status-values now status r)

  -- An `UpdateStatus` with an error leaves a stored record as it was.
  pub update_status-refused :
      (now : Time) (status : String) (r : JobStep) (db : d.Db) {e : Error}
      → Holds db r
      → (update_status p d now r.id status db).1 ≡ some e
      → Holds (update_status p d now r.id status db).0 r
  unfolding update_status
  update_status-refused now status r db h q =
      update-refused sql p "job step" "job_steps" r.id db (status_sets now status) _ h q

  -- An `UpdateStatus` whose error is `ErrNotFound` found no row for the ID, and where there is no
  -- row it returns an error.
  pub update_status-missing :
      (now : Time) (status : String) (id : Uuid) (db : d.Db)
      → ((e : Error)
          → (update_status p d now id status db).1 ≡ some e
          → is_sentinel "not found" e ≡ true
          → sql.row db "job_steps" id ≡ none)
        × (sql.row db "job_steps" id ≡ none → (update_status p d now id status db).1 ≢ none)
  unfolding update_status
  update_status-missing now status id db =
      update-missing sql p "job step" "job_steps" id db (status_sets now status)

  -- The status that ends a successful stage or execution sets no instant: an `UpdateStatus` to
  -- `succeeded` with no error leaves finished_at as it was.
  pub update_status-succeeded :
      (now : Time) (r : JobStep) (db : d.Db)
      → Holds db r
      → (update_status p d now r.id state_succeeded db).1 ≡ none
      → Holds
          (update_status p d now r.id state_succeeded db).0
          (record r { status = state_succeeded })
  unfolding string_eq
  update_status-succeeded now r db h e = update_status-Holds now state_succeeded r db h e
