-- ===== src/Postgres/Artifacts/Lists.antt =====
-- What `ListByJob` of the artifacts returns.
use mathlib.Core.Path.{subst}
use shipinator.Common.{In}
use shipinator.Common.{List, ◌≡◌, sym, ap, ◌∙◌, some, string_eq}
use shipinator.Errors.{ok, ok-injective}
use shipinator.Models.{Uuid, Artifact}
use shipinator.Effects.{Platform}
use shipinator.Postgres.{
  Driver, uuid, time, scan_uuid, scan_text, scan_time, scan_nullable, scan_all,
}
use shipinator.Postgres.Sql.{Sql, Row, stored, column, columns_of}
use shipinator.Postgres.Sql.Statements.{scan-kept_text}
use shipinator.Postgres.Sql.Queries.{
  Ascends, Queries, bind-ok, scan_all-Scanned, Scanned-In, In-Scanned, Scanned-Ascends,
  scan_uuid-ok, scan_time-ok,
}
use shipinator.Postgres.Artifacts.{columns, values, scan, list_by_job}
use shipinator.Postgres.Artifacts.Laws.{as_read, Holds}

-- The job and the instant of a record are those of its row.
scan-columns :
    (r : Row) (a : Artifact)
    → scan (columns_of columns r) ≡ ok a
    → (column "job_id" r ≡ uuid a.job_id) × (column "created_at" r ≡ time a.created_at)
scan-columns r a e =
    let (id, e0, k0) = bind-ok (scan_uuid (column "id" r)) _ e in
    let (job_id, e1, k1) = bind-ok (scan_uuid (column "job_id" r)) _ k0 in
    let (artifact_type, e2, k2) = bind-ok (scan_text (column "artifact_type" r)) _ k1 in
    let (backend, e3, k3) = bind-ok (scan_text (column "storage_backend" r)) _ k2 in
    let (path, e4, k4) = bind-ok (scan_text (column "storage_path" r)) _ k3 in
    let (checksum, e5, k5) = bind-ok (scan_nullable scan_text (column "checksum" r)) _ k4 in
    let (created_at, e6, k6) = bind-ok (scan_time (column "created_at" r)) _ k5 in
    let same : _ ≡ a = ok-injective k6 in
    (
      scan_uuid-ok _ e1 ∙ ap (λ x. uuid x.job_id) same,
      scan_time-ok _ e6 ∙ ap (λ x. time x.created_at) same,
    )

-- A stored record is scanned as a reader has it.
scan-stored :
    (r : Artifact) → scan (columns_of columns (stored columns (values r))) ≡ ok (as_read r)
unfolding string_eq
scan-stored r = rw (scan-kept_text r.checksum)

module _ (p : Platform) {d : Driver} (sql : Sql d) where
  -- Over a database whose queries answer with the rows that match, in order: the artifacts that
  -- `ListByJob` returns with no error are those that the table holds for the job, each as a reader
  -- has it, with none left out, and they are in the order of their creation instants.
  pub list_by_job_lem :
      (queries : Queries sql) (job_id : Uuid) (db : d.Db) (items : List Artifact)
      → list_by_job p d job_id db ≡ ok items
      → ((r : Artifact) → r.job_id ≡ job_id → Holds p sql db r → In (as_read r) items)
        × ((a : Artifact)
            → In a items
            → (a.job_id ≡ job_id)
              × ((id : Uuid) × (r : Row) × (sql.row db "artifacts" id ≡ some r)
                  × (scan (columns_of columns r) ≡ ok a)))
        × Ascends (λ a. a.created_at) items
  unfolding list_by_job string_eq
  list_by_job_lem queries job_id db items e =
      let (vs, e0, k0) = bind-ok (d.query _ db) _ e in
      let (rs, same, sound, complete, order) = queries.query-rows _ db vs e0 in
      let scanned =
        scan_all-Scanned scan columns rs items
          (subst (λ vs. scan_all scan vs ≡ ok items) same k0) in
      (
        λ r j h.
            Scanned-In scan columns rs items _ scanned (scan-stored r)
              (complete r.id _ h (ap uuid j)),
        λ a i.
            let (r, j, s) = In-Scanned scan columns rs items a scanned i in
            let (id, row, m) = sound r j in
            (ok-injective (ap scan_uuid (sym (scan-columns r a s).0 ∙ m)), (id, r, row, s)),
        Scanned-Ascends scan columns "created_at" (λ a. a.created_at)
            (λ r a h. (scan-columns r a h).1) rs items scanned order,
      )
