-- ===== src/Postgres/Executions/Laws.antt =====
-- `ExecutionStore` over a database: what is stored, read back and updated.
use mathlib.Core.Option
use mathlib.Core.Option.{or_else}
use shipinator.Common.{
  ◌≡◌, ◌≢◌, refl, ap, ◌∙◌, String, true, Option, none, some, [], ◌∷◌, string_eq, if◌then◌else◌,
}
use shipinator.Errors.{Error, ok, is_sentinel}
use shipinator.Models.{Uuid, Time, Execution}
use shipinator.Effects.{Platform}
use shipinator.Postgres.{Driver, text, time, nullable, assign, coalesce}
use shipinator.Postgres.Helpers.{completed_at_for_status}
use shipinator.Postgres.Helpers.Times.{is_final, completed_lem}
use shipinator.Postgres.Sql.{Sql, stored, micros, assigned}
use shipinator.Postgres.Sql.Statements.{
  row-insert, row-update_of, update-missing, query_row-row, scan-kept_time,
}
use shipinator.Fsm.{state_succeeded}
use shipinator.Postgres.Executions.{
  columns, values, prepared, create, get_by_id, update_status, status_sets,
}

-- What a reader gets of a stored record: instants in microseconds.
abbrev pub as_read : Execution → Execution
as_read r = record r {
  submitted_at = micros r.submitted_at;
  completed_at = Option.map micros r.completed_at;
}

-- The record with a new status, set at `now`.
abbrev pub with_status : Time → String → Execution → Execution
with_status now status r = record r {
  status = status;
  completed_at = if is_final status then some now else r.completed_at;
}

assigned-values :
    (r : Execution) (status : String) (a : Option Time)
    → assigned
        (("status", assign (text status)) ∷ ("completed_at", coalesce (nullable time a)) ∷ [])
        (stored columns (values r))
      ≡ stored columns
          (values (record r { status = status; completed_at = or_else a r.completed_at }))
unfolding string_eq or_else
assigned-values r status none = refl
assigned-values r status (some a) = refl

with_status-values :
    (now : Time) (status : String) (r : Execution)
    → assigned (status_sets now status) (stored columns (values r))
      ≡ stored columns (values (with_status now status r))
unfolding status_sets
with_status-values now status r =
    assigned-values r status (completed_at_for_status status now)
    ∙ rw (completed_lem status now r.completed_at)

module _ (p : Platform) {d : Driver} (sql : Sql d) where
  -- The table holds the record under its ID.
  abbrev pub Holds : d.Db → Execution → Type 0
  Holds db r = sql.row db "executions" r.id ≡ some (stored columns (values r))

  pub get_by_id-Holds :
      (db : d.Db) (r : Execution)
      → sql.fault db ≡ none
      → Holds db r
      → get_by_id p d r.id db ≡ ok (as_read r)
  unfolding get_by_id string_eq
  get_by_id-Holds db r f h =
      rw (query_row-row sql columns "executions" r.id db _ f h) (rw (scan-kept_time r.completed_at))

  pub create-Holds :
      (fresh : Uuid) (now : Time) (r : Execution) (db : d.Db)
      → (create p d fresh now r db).2 ≡ none
      → Holds (create p d fresh now r db).0 (create p d fresh now r db).1
  unfolding create string_eq
  create-Holds fresh now r db h =
      row-insert sql "executions" columns (values (prepared fresh now r)) (prepared fresh now r).id
        db refl h

  -- A `Create` with no error is read back by `GetByID`, if the database can be reached: every
  -- field is the one that `Create` left in the record, its instants cut to microseconds.
  pub create-get_by_id :
      (fresh : Uuid) (now : Time) (r : Execution) (db : d.Db)
      → (create p d fresh now r db).2 ≡ none
      → sql.fault (create p d fresh now r db).0 ≡ none
      → get_by_id p d (create p d fresh now r db).1.id (create p d fresh now r db).0
        ≡ ok (as_read (create p d fresh now r db).1)
  create-get_by_id fresh now r db h f = get_by_id-Holds _ _ f (create-Holds fresh now r db h)

  -- An `UpdateStatus` with no error, on a stored record, leaves it stored with the new status:
  -- completed_at is set at `success`, `failed` and `canceled`, and no other field changes.
  pub update_status-Holds :
      (now : Time) (status : String) (r : Execution) (db : d.Db)
      → Holds db r
      → (update_status p d now r.id status db).1 ≡ none
      → Holds (update_status p d now r.id status db).0 (with_status now status r)
  unfolding update_status
  update_status-Holds now status r db h e =
      row-update_of sql p "execution" "executions" r.id db (status_sets now status) _ h e
      ∙ ap some (with_status-values now status r)

  -- An `UpdateStatus` whose error is `ErrNotFound` found no row for the ID, and where there is no
  -- row it returns an error.
  pub update_status-missing :
      (now : Time) (status : String) (id : Uuid) (db : d.Db)
      → ((e : Error)
          → (update_status p d now id status db).1 ≡ some e
          → is_sentinel "not found" e ≡ true
          → sql.row db "executions" id ≡ none)
        × (sql.row db "executions" id ≡ none → (update_status p d now id status db).1 ≢ none)
  unfolding update_status
  update_status-missing now status id db =
      update-missing sql p "execution" "executions" id db (status_sets now status)

  -- The status that ends a successful stage or execution sets no instant: an `UpdateStatus` to
  -- `succeeded` with no error leaves completed_at as it was.
  pub update_status-succeeded :
      (now : Time) (r : Execution) (db : d.Db)
      → Holds db r
      → (update_status p d now r.id state_succeeded db).1 ≡ none
      → Holds
          (update_status p d now r.id state_succeeded db).0
          (record r { status = state_succeeded })
  unfolding string_eq
  update_status-succeeded now r db h e = update_status-Holds now state_succeeded r db h e
