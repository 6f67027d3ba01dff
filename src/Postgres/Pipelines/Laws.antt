-- ===== src/Postgres/Pipelines/Laws.antt =====
-- `PipelineStore` over a database: what is stored, read back and updated.
use shipinator.Common.{◌≡◌, ◌≢◌, refl, ap, ◌∙◌, true, none, some, string_eq}
use shipinator.Errors.{Error, ok, is_sentinel}
use shipinator.Models.{Uuid, Time, Pipeline}
use shipinator.Effects.{Platform}
use shipinator.Postgres.{Driver}
use shipinator.Postgres.Sql.{Sql, stored, micros, assigned}
use shipinator.Postgres.Sql.Statements.{
  row-insert, row-update_of, delete-missing, row-delete, query_row-row,
}
use shipinator.Postgres.Pipelines.{
  columns, values, prepared, create, get_by_id, modify, modify_sets, remove,
}

-- What a reader gets of a stored record: instants in microseconds.
abbrev pub as_read : Pipeline → Pipeline
as_read r = record r { created_at = micros r.created_at; updated_at = micros r.updated_at }

-- What is stored after an `Update` with `r`: all of `r` but the creation instant.
abbrev pub overwritten : Time → Pipeline → Pipeline → Pipeline
overwritten now r old = record r { created_at = old.created_at; updated_at = now }

modified-values :
    (now : Time) (r old : Pipeline)
    → assigned
        (modify_sets (record r { updated_at = now }))
        (stored columns (values (record old { id = r.id })))
      ≡ stored columns (values (overwritten now r old))
unfolding modify_sets string_eq
modified-values now r old = refl

module _ (p : Platform) {d : Driver} (sql : Sql d) where
  -- The table holds the record under its ID.
  abbrev pub Holds : d.Db → Pipeline → Type 0
  Holds db r = sql.row db "pipelines" r.id ≡ some (stored columns (values r))

  pub get_by_id-Holds :
      (db : d.Db) (r : Pipeline)
      → sql.fault db ≡ none
      → Holds db r
      → get_by_id p d r.id db ≡ ok (as_read r)
  unfolding get_by_id string_eq
  get_by_id-Holds db r f h = rw (query_row-row sql columns "pipelines" r.id db _ f h)

  -- After a `Create` with no error the table holds, under its ID, the record as `Create` left it.
  pub create-Holds :
      (fresh : Uuid) (now : Time) (r : Pipeline) (db : d.Db)
      → (create p d fresh now r db).2 ≡ none
      → Holds (create p d fresh now r db).0 (create p d fresh now r db).1
  unfolding create string_eq
  create-Holds fresh now r db h =
      row-insert sql "pipelines" columns (values (prepared fresh now r)) (prepared fresh now r).id
        db refl h

  -- A `Create` with no error is read back by `GetByID`, if the database can be reached: every
  -- field is the one that `Create` left in the record, its instants cut to microseconds.
  pub create-get_by_id :
      (fresh : Uuid) (now : Time) (r : Pipeline) (db : d.Db)
      → (create p d fresh now r db).2 ≡ none
      → sql.fault (create p d fresh now r db).0 ≡ none
      → get_by_id p d (create p d fresh now r db).1.id (create p d fresh now r db).0
        ≡ ok (as_read (create p d fresh now r db).1)
  create-get_by_id fresh now r db h f = get_by_id-Holds _ _ f (create-Holds fresh now r db h)

  -- An `Update` with no error, of a stored record with the ID of `r`, leaves `r` stored with the
  -- new update instant and the creation instant that was stored.
  pub modify-Holds :
      (now : Time) (r old : Pipeline) (db : d.Db)
      → Holds db (record old { id = r.id })
      → (modify p d now r db).2 ≡ none
      → Holds (modify p d now r db).0 (overwritten now r old)
  unfolding modify
  modify-Holds now r old db h e =
      row-update_of sql p "pipeline" "pipelines" r.id db
        (modify_sets (record r { updated_at = now })) _ h e
      ∙ ap some (modified-values now r old)

  -- A `Delete` with no error found a row and leaves none under its ID; one whose error is
  -- `ErrNotFound` found none.
  pub remove-missing :
      (id : Uuid) (db : d.Db)
      → ((remove p d id db).1 ≡ none
          → (sql.row db "pipelines" id ≢ none)
            × (sql.row (remove p d id db).0 "pipelines" id ≡ none))
        × ((e : Error)
            → (remove p d id db).1 ≡ some e
            → is_sentinel "not found" e ≡ true
            → sql.row db "pipelines" id ≡ none)
  unfolding remove
  remove-missing id db = (
    row-delete sql p "pipeline" "pipelines" id db,
    delete-missing sql p "pipeline" "pipelines" id db,
  )
