-- ===== src/Executor.antt =====
-- internal/executor/executor.go: the data that passes between the orchestrator and an executor.
use shipinator.Common.{ℕ, String, Bool, Option, List, [], ◌∷◌, string_eq, contains}
use shipinator.Models.{Time}

pub record ArtifactSpec : Type 0 where
  pub type : String
  pub path : String

-- A map is a list of entries in the order in which a `range` over it gives them. The timeout is in
-- nanoseconds; a negative duration has no value here.
pub record ExecutionSpec : Type 0 where
  pub image : String
  pub command : List String
  pub env : List (String × String)
  pub artifacts : List ArtifactSpec
  pub timeout : ℕ

pub record ExecutionHandle : Type 0 where
  pub id : String

abbrev pub ExecutionPhase : Type 0
ExecutionPhase = String

abbrev pub phase_pending : ExecutionPhase
phase_pending = "pending"

abbrev pub phase_running : ExecutionPhase
phase_running = "running"

abbrev pub phase_succeeded : ExecutionPhase
phase_succeeded = "succeeded"

abbrev pub phase_failed : ExecutionPhase
phase_failed = "failed"

abbrev pub phase_canceled : ExecutionPhase
phase_canceled = "canceled"

abbrev pub terminal_execution_phases : List ExecutionPhase
terminal_execution_phases = phase_succeeded ∷ phase_failed ∷ phase_canceled ∷ []

pub record ExecutionStatus : Type 0 where
  pub phase : ExecutionPhase
  pub started_at : Option Time
  pub finished_at : Option Time
  pub exit_code : Option ℕ
  pub message : String

unfoldable pub is_terminal : ExecutionStatus → Bool
is_terminal s = contains terminal_execution_phases s.phase
