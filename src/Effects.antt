-- ===== src/Effects.antt =====
-- What the orchestrator asks of its surroundings, one call at a time. The stores and the executor
-- are interfaces in the source (internal/store/store.go, internal/executor/executor.go), and the
-- clock, the contexts and the goroutines belong to the Go runtime. A program is the tree of its
-- calls: whatever can be answered has a branch, so a statement about all branches is a statement
-- about every implementation, every failure and every schedule.
pub mod Logic
pub mod Logs
pub mod Stories
pub mod Only
pub mod Judgements
pub mod Lasts
use shipinator.Common.{ℕ, String, Option, List}
use shipinator.Errors.{Error, Result}
use shipinator.Models.{
  Uuid, PipelineRunId, JobId, JobStepId, ExecutionId, Job, JobStep, Artifact, Execution,
}
use shipinator.Executor.{ExecutionSpec, ExecutionHandle, ExecutionStatus}

-- The context that a call is given: the caller's, `context.WithoutCancel` of it, or
-- `context.Background()`.
pub data Context : Type 0 where
  caller detached background : Context

pub data Call : Type 0 where
  run_update_status : Context → PipelineRunId → String → Call
  job_create : Context → Job → Call
  job_update_status : Context → JobId → String → Call
  step_create : Context → JobStep → Call
  step_update_status : Context → JobStepId → String → Call
  execution_create : Context → Execution → Call
  execution_update_status : Context → ExecutionId → String → Call
  artifact_create : Context → Artifact → Call
  artifact_list_by_job : Context → JobId → Call
  submit : Context → ExecutionSpec → Call
  status : Context → ExecutionHandle → Call
  cancel : Context → ExecutionHandle → Call
  -- `store.NewArtifactID()`
  new_artifact_id : Call
  -- `ctx.Err()`
  context_err : Call
  -- The `select` of `poll`.
  select : Call
  -- Which of the goroutines that are left, counted from 0, makes the next move.
  schedule : ℕ → Call

-- A `select` takes `<-ctx.Done()`, with the error that `ctx.Err()` then has, or `<-ticker.C`.
pub data Ready : Type 0 where
  done : Error → Ready
  tick : Ready

-- A `Create` leaves the ID in the record that it is given: that is its answer.
abbrev pub Reply : Call → Type 0
Reply (Call.run_update_status _ _ _) = Option Error
Reply (Call.job_create _ _) = Result JobId
Reply (Call.job_update_status _ _ _) = Option Error
Reply (Call.step_create _ _) = Result JobStepId
Reply (Call.step_update_status _ _ _) = Option Error
Reply (Call.execution_create _ _) = Result ExecutionId
Reply (Call.execution_update_status _ _ _) = Option Error
Reply (Call.artifact_create _ _) = Option Error
Reply (Call.artifact_list_by_job _ _) = Result (List Artifact)
Reply (Call.submit _ _) = Result ExecutionHandle
Reply (Call.status _ _) = Result ExecutionStatus
Reply (Call.cancel _ _) = Option Error
Reply Call.new_artifact_id = Uuid
Reply Call.context_err = Option Error
Reply Call.select = Ready
Reply (Call.schedule _) = ℕ

-- The two functions of libraries whose texts the program keeps: `uuid.UUID.String` and
-- `filepath.Join` of two parts.
pub record Platform : Type 0 where
  pub uuid_string : Uuid → String
  pub path_join : String → String → String

-- `hang` is where a run that was given too few rounds is left.
pub data Prog (A : Type 0) : Type 0 where
  ret : A → Prog A
  call : (c : Call) → (Reply c → Prog A) → Prog A
  hang : Prog A

infixl 5 ◌>>=◌
abbrev pub ◌>>=◌ : {A B : Type 0} → Prog A → (A → Prog B) → Prog B
ret a >>= f = f a
call c k >>= f = call c (λ r. k r >>= f)
hang >>= f = hang

-- A call made by itself.
abbrev pub ask : (c : Call) → Prog (Reply c)
ask c = call c ret

-- `if err != nil { return wrap(err) }`, and on.
abbrev pub check : {A : Type 0} → Option Error → (Error → A) → Prog A → Prog A
check (Option.some e) out rest = ret (out e)
check Option.none out rest = rest

-- The same for a call with a value.
abbrev pub given : {A B : Type 0} → Result A → (Error → B) → (A → Prog B) → Prog B
given (Result.ok a) out rest = rest a
given (Result.err e) out rest = ret (out e)
