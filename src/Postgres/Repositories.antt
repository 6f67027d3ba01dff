-- ===== src/Postgres/Repositories.antt =====
-- internal/store/postgres/repository.go
pub mod Laws
use shipinator.Common.{String, Option, none, some, List, [], ◌∷◌}
use shipinator.Errors.{Error, Result, ok}
use shipinator.Models.{Uuid, Time, Repository}
use shipinator.Stores.{RepositoryStore}
use shipinator.Effects.{Platform}
use shipinator.Postgres.{
  Value, uuid, text, time, Assignment, assign, insert, update, delete, Driver, scan_uuid, scan_text,
  scan_time, mismatch, scan_all,
}
use shipinator.Postgres.{◌>>=◌}
use shipinator.Postgres.Helpers.{
  ensure_id, wrap_no_rows_by_id, exec_error, or_wrapped, affected_or_error,
}

abbrev pub columns : List String
columns =
    "id" ∷ "project_id" ∷ "vcs_provider" ∷ "clone_url" ∷ "default_branch" ∷ "created_at"
    ∷ "updated_at" ∷ []

-- The arguments of the INSERT, in the order of its columns.
abbrev pub values : Repository → List Value
values r =
    uuid r.id
    ∷ uuid r.project_id
    ∷ text r.vcs_provider
    ∷ text r.clone_url
    ∷ text r.default_branch
    ∷ time r.created_at
    ∷ time r.updated_at
    ∷ []

-- The targets of `Scan`, in the order of the columns.
abbrev pub scan : List Value → Result Repository
scan (v0 ∷ v1 ∷ v2 ∷ v3 ∷ v4 ∷ v5 ∷ v6 ∷ []) = do
  id ← scan_uuid v0
  project_id ← scan_uuid v1
  vcs_provider ← scan_text v2
  clone_url ← scan_text v3
  default_branch ← scan_text v4
  created_at ← scan_time v5
  updated_at ← scan_time v6
  ok (record {
    id = id;
    project_id = project_id;
    vcs_provider = vcs_provider;
    clone_url = clone_url;
    default_branch = default_branch;
    created_at = created_at;
    updated_at = updated_at;
  })
scan _ = mismatch

-- The record as `Create` leaves it, given `uuid.New()` and `time.Now()`.
unfoldable pub prepared : Uuid → Time → Repository → Repository
unfolding ensure_id
prepared fresh now r = record r { id = ensure_id fresh r.id; created_at = now; updated_at = now }

-- The SET clause of `Update`.
unfoldable pub modify_sets : Repository → List (String × Assignment)
modify_sets r =
    (("project_id", assign (uuid r.project_id))
      ∷ ("vcs_provider", assign (text r.vcs_provider))
      ∷ ("clone_url", assign (text r.clone_url))
      ∷ ("default_branch", assign (text r.default_branch))
      ∷ ("updated_at", assign (time r.updated_at))
      ∷ [])

module _ (p : Platform) (d : Driver) where
  open d use {Db, exec, query_row, query}

  -- The new state, the record as the caller then has it, and the error.
  unfoldable pub create : Uuid → Time → Repository → Db → Db × Repository × Option Error
  unfolding prepared
  create fresh now r db =
      let r' = prepared fresh now r in
      let (db', result) = exec (insert "repositories" columns (values r')) db in
      (db', r', exec_error result)

  unfoldable pub get_by_id : Uuid → Db → Result Repository
  unfolding wrap_no_rows_by_id
  get_by_id id db = or_wrapped (wrap_no_rows_by_id p "repository" id) (
      query_row
        (record {
          columns = columns;
          table = "repositories";
          rows = some ("id", uuid id);
          order = none;
        })
        db
      >>= scan)

  unfoldable pub list_by_project : Uuid → Db → Result (List Repository)
  unfolding scan_all
  list_by_project key db =
      query
        (record {
          columns = columns;
          table = "repositories";
          rows = some ("project_id", uuid key);
          order = some "created_at";
        })
        db
      >>= scan_all scan

  -- The new state, the record as the caller then has it, and the error.
  unfoldable pub modify : Time → Repository → Db → Db × Repository × Option Error
  unfolding affected_or_error modify_sets
  modify now r db =
      let r' = record r { updated_at = now } in
      let (db', result) = exec (update "repositories" (modify_sets r') ("id", uuid r'.id)) db in
      (db', r', affected_or_error p "repository" r'.id result)

  unfoldable pub remove : Uuid → Db → Db × Option Error
  unfolding affected_or_error
  remove id db =
      let (db', result) = exec (delete "repositories" ("id", uuid id)) db in
      (db', affected_or_error p "repository" id result)

  abbrev pub new_repository_store : RepositoryStore Db
  new_repository_store = record {
    create = create;
    get_by_id = get_by_id;
    list_by_project = list_by_project;
    modify = modify;
    remove = remove;
  }
