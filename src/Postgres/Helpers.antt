-- ===== src/Postgres/Helpers.antt =====
-- internal/store/postgres/helpers.go. `time.Now()` and `uuid.New()` are arguments.
pub mod Times
use shipinator.Common.{
  ℕ, String, Option, none, some, [], ◌∷◌, ◌==◌, nat_eq, string_eq, ◌||◌, if◌then◌else◌,
}
use shipinator.Errors.{Error, sentinel, wrap, is_sentinel, err_not_found, Result, ok, err}
use shipinator.Models.{Uuid, Time}
use shipinator.Effects.{Platform}

-- `pgx.ErrNoRows`
abbrev pub err_no_rows : Error
err_no_rows = sentinel "no rows in result set"

unfoldable pub ensure_id : Uuid → Uuid → Uuid
ensure_id fresh id = if id == 0 then fresh else id

unfoldable pub set_default_status : String → String → String
set_default_status status fallback = if status == "" then fallback else status

unfoldable pub wrap_no_rows_by_id : Platform → String → Uuid → Error → Error
unfolding is_sentinel
wrap_no_rows_by_id p entity id e =
    if is_sentinel "no rows in result set" e
    then wrap "%s %s: %w" (entity ∷ p.uuid_string id ∷ []) err_not_found
    else e

unfoldable pub wrap_no_rows_by_name : String → String → Error → Error
unfolding is_sentinel
wrap_no_rows_by_name entity name e =
    if is_sentinel "no rows in result set" e
    then wrap "%s %q: %w" (entity ∷ name ∷ []) err_not_found
    else e

unfoldable pub ensure_rows_affected : Platform → ℕ → String → Uuid → Option Error
ensure_rows_affected p affected entity id =
    if affected == 0
    then some (wrap "%s %s: %w" (entity ∷ p.uuid_string id ∷ []) err_not_found)
    else none

unfoldable pub started_finished_for_status : String → Time → Option Time × Option Time
started_finished_for_status status now =
    if status == "running"
    then (some now, none)
    else if status == "success" || (status == "failed" || status == "canceled")
    then (none, some now)
    else (none, none)

unfoldable pub completed_at_for_status : String → Time → Option Time
completed_at_for_status status now =
    if status == "success" || (status == "failed" || status == "canceled") then some now else none

-- `if err != nil { return err }; return ensureRowsAffected(…)`, after an `Exec`.
unfoldable pub affected_or_error : Platform → String → Uuid → Result ℕ → Option Error
unfolding ensure_rows_affected
affected_or_error p entity id (ok n) = ensure_rows_affected p n entity id
affected_or_error p entity id (err e) = some e

-- The error of an `Exec` whose tag is not looked at.
abbrev pub exec_error : Result ℕ → Option Error
exec_error (ok n) = none
exec_error (err e) = some e

-- `if err != nil { return nil, wrap(err) }`
abbrev pub or_wrapped {ℓ} : {A : Type ℓ} → (Error → Error) → Result A → Result A
or_wrapped f (ok a) = ok a
or_wrapped f (err e) = err (f e)
