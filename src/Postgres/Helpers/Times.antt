-- ===== src/Postgres/Helpers/Times.antt =====
-- What a status update does to the two instants, when COALESCE keeps the old one for a NULL.
use mathlib.Core.Option.{or_else}
use shipinator.Common.{
  ◌≡◌, String, Bool, true, false, Option, some, ◌||◌, ◌==◌, string_eq, if◌then◌else◌, arith,
}
use shipinator.Models.{Time}
use shipinator.Postgres.Helpers.{started_finished_for_status, completed_at_for_status}

-- The statuses that end a run.
abbrev pub is_final : String → Bool
is_final status = status == "success" || (status == "failed" || status == "canceled")

pub started_lem :
    (status : String) (now : Time) (old : Option Time)
    → or_else (started_finished_for_status status now).0 old
      ≡ (if status == "running" then some now else old)
unfolding started_finished_for_status or_else
started_lem status now old = ground arith

running_not_final : (status : String) → status ≡ "running" → is_final status ≡ false
unfolding string_eq
running_not_final status e = rw e

pub finished_lem :
    (status : String) (now : Time) (old : Option Time)
    → or_else (started_finished_for_status status now).1 old
      ≡ (if is_final status then some now else old)
unfolding started_finished_for_status or_else
finished_lem status now old = ground (arith, running_not_final status)

pub completed_lem :
    (status : String) (now : Time) (old : Option Time)
    → or_else (completed_at_for_status status now) old ≡ (if is_final status then some now else old)
unfolding completed_at_for_status or_else
completed_lem status now old = ground arith

pub final_not_running : (status : String) → is_final status ≡ true → (status == "running") ≡ false
final_not_running status h = ground (arith, running_not_final status)

pub is_running : (status : String) → status ≡ "running" → (status == "running") ≡ true
is_running status e = ground (arith, e)
