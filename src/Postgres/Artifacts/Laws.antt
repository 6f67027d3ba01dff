-- ===== src/Postgres/Artifacts/Laws.antt =====
-- `ArtifactStore` over a database: what is stored, read back and updated.
use shipinator.Common.{◌≡◌, refl, none, some, string_eq}
use shipinator.Errors.{ok}
use shipinator.Models.{Uuid, Time, Artifact}
use shipinator.Effects.{Platform}
use shipinator.Postgres.{Driver}
use shipinator.Postgres.Sql.{Sql, stored, micros}
use shipinator.Postgres.Sql.Statements.{row-insert, query_row-row, scan-kept_text}
use shipinator.Postgres.Artifacts.{columns, values, prepared, create, get_by_id}

-- What a reader gets of a stored record: instants in microseconds.
abbrev pub as_read : Artifact → Artifact
as_read r = record r { created_at = micros r.created_at }

module _ (p : Platform) {d : Driver} (sql : Sql d) where
  -- The table holds the record under its ID.
  abbrev pub Holds : d.Db → Artifact → Type 0
  Holds db r = sql.row db "artifacts" r.id ≡ some (stored columns (values r))

  -- A record that the table holds under its ID is what `GetByID` returns for the ID, if the
  -- database can be reached, with its instants cut to microseconds.
  pub get_by_id-Holds :
      (db : d.Db) (r : Artifact)
      → sql.fault db ≡ none
      → Holds db r
      → get_by_id p d r.id db ≡ ok (as_read r)
  unfolding get_by_id string_eq
  get_by_id-Holds db r f h =
      rw (query_row-row sql columns "artifacts" r.id db _ f h) (rw (scan-kept_text r.checksum))

  pub create-Holds :
      (fresh : Uuid) (now : Time) (r : Artifact) (db : d.Db)
      → (create p d fresh now r db).2 ≡ none
      → Holds (create p d fresh now r db).0 (create p d fresh now r db).1
  unfolding create string_eq
  create-Holds fresh now r db h =
      row-insert sql "artifacts" columns (values (prepared fresh now r)) (prepared fresh now r).id
        db refl h

  -- A `Create` with no error is read back by `GetByID`, if the database can be reached: every
  -- field is the one that `Create` left in the record, its instants cut to microseconds.
  pub create-get_by_id :
      (fresh : Uuid) (now : Time) (r : Artifact) (db : d.Db)
      → (create p d fresh now r db).2 ≡ none
      → sql.fault (create p d fresh now r db).0 ≡ none
      → get_by_id p d (create p d fresh now r db).1.id (create p d fresh now r db).0
        ≡ ok (as_read (create p d fresh now r db).1)
  create-get_by_id fresh now r db h f = get_by_id-Holds _ _ f (create-Holds fresh now r db h)
