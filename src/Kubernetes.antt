-- ===== src/Kubernetes.antt =====
-- internal/executor/kubernetes/executor.go. The client of Kubernetes is a parameter; of a Job only
-- the fields that the executor writes or reads are kept.
pub mod Laws
use shipinator.Common.{
  ℕ, ◌/◌, String, ◌<>◌, Bool, ◌&&◌, Option, none, some, List, [], ◌∷◌, map, ◌==◌, string_eq, ltb,
  if◌then◌else◌,
}
use shipinator.Errors.{Error, wrap, Result, ok, err}
use shipinator.Models.{Uuid, Time}
use shipinator.Executor.{
  ExecutionSpec, ExecutionHandle, ExecutionPhase, ExecutionStatus, phase_pending, phase_running,
  phase_succeeded, phase_failed,
}

pub record EnvVar : Type 0 where
  pub name : String
  pub value : String

pub record Container : Type 0 where
  pub name : String
  pub image : String
  pub command : List String
  pub env : List EnvVar

pub record JobSpec : Type 0 where
  pub name : String
  pub namespace : String
  pub backoff_limit : Option ℕ
  pub active_deadline_seconds : Option ℕ
  pub restart_policy : String
  pub containers : List Container

pub record Condition : Type 0 where
  pub type : String
  pub status : String

pub record JobStatus : Type 0 where
  pub start_time : Option Time
  pub completion_time : Option Time
  pub active : ℕ
  pub conditions : List Condition

-- `client.BatchV1().Jobs(namespace)`, with the cluster behind it. `create` answers with the name
-- of the Job, `get` with its status, and `delete` is given the propagation policy.
pub record Client : Type 1 where
  pub Cluster : Type 0
  pub create : String → JobSpec → Cluster → Cluster × Result String
  pub get : String → String → Cluster → Result JobStatus
  pub delete : String → String → String → Cluster → Cluster × Option Error

pub record Executor : Type 1 where
  pub client : Client
  pub namespace : String

abbrev pub new : Client → String → Executor
new client namespace = record { client = client; namespace = namespace }

-- A second in nanoseconds.
abbrev pub second : ℕ
second = 1000000000

-- `activeDeadlineSeconds`: whole seconds, with nil for no timeout.
unfoldable pub deadline : ℕ → Option ℕ
deadline timeout = if ltb 0 timeout then some (timeout / second) else none

-- The Job that `Submit` creates, with the text of `uuid.New()`.
unfoldable pub job_for : String → String → ExecutionSpec → JobSpec
unfolding deadline
job_for namespace fresh spec = record {
  name = "shipinator-" <> fresh;
  namespace = namespace;
  backoff_limit = some 0;
  active_deadline_seconds = deadline spec.timeout;
  restart_policy = "Never";
  containers =
      record {
        name = "main";
        image = spec.image;
        command = spec.command;
        env = map (λ e. record { name = e.0; value = e.1 }) spec.env;
      }
      ∷ [];
}

-- `cond.Status == corev1.ConditionTrue`, of a condition of a type.
abbrev pub holds : String → Condition → Bool
holds type cond = cond.type == type && cond.status == "True"

-- The loop over the conditions, on the status that it starts with.
unfoldable pub conditions_to_status :
    Option Time → List Condition → ExecutionStatus → ExecutionStatus
conditions_to_status completion [] status = status
conditions_to_status completion (cond ∷ conds) status =
    let rest = conditions_to_status completion conds status in
    if holds "Complete" cond
    then record status { phase = phase_succeeded; finished_at = completion }
    else if holds "Failed" cond
    then record status { phase = phase_failed; finished_at = completion }
    else rest

-- The status that `jobToStatus` starts with.
abbrev pub initial_status : JobStatus → ExecutionStatus
initial_status job = record {
  phase = phase_pending;
  started_at = job.start_time;
  finished_at = none;
  exit_code = none;
  message = "";
}

unfoldable pub job_to_status : JobStatus → ExecutionStatus
unfolding conditions_to_status
job_to_status job =
    let status = initial_status job in
    if ltb 0 job.active
    then record status { phase = phase_running }
    else conditions_to_status job.completion_time job.conditions status

module _ (e : Executor) where
  open e use {client, namespace}
  open client use {Cluster, create, get, delete}

  unfoldable pub submit : String → ExecutionSpec → Cluster → Cluster × Result ExecutionHandle
  unfolding job_for
  submit fresh spec k = answer (create namespace (job_for namespace fresh spec) k)
    where
      answer : Cluster × Result String → Cluster × Result ExecutionHandle
      answer (k', ok name) = (k', ok (record { id = name }))
      answer (k', err e) = (k', err (wrap "create job: %w" [] e))

  unfoldable pub status : ExecutionHandle → Cluster → Result ExecutionStatus
  unfolding job_to_status
  status handle k = answer (get namespace handle.id k)
    where
      answer : Result JobStatus → Result ExecutionStatus
      answer (ok job) = ok (job_to_status job)
      answer (err e) = err (wrap "get job %q: %w" (handle.id ∷ []) e)

  unfoldable pub cancel : ExecutionHandle → Cluster → Cluster × Option Error
  cancel handle k = answer (delete namespace handle.id "Foreground" k)
    where
      answer : Cluster × Option Error → Cluster × Option Error
      answer (k', some e) = (k', some (wrap "delete job %q: %w" (handle.id ∷ []) e))
      answer (k', none) = (k', none)
