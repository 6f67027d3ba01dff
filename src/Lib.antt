-- ===== src/Lib.antt =====
-- Shipinator, a self-hosted CI/CD control plane: a run of a pipeline is a build, a test and a deploy
-- stage, and each stage is a job whose steps an executor carries out.
--
-- Common, Errors      Go's tests, maps and error values (`errors.Is`, `%w`).
-- Fsm                 internal/orchestrator: states.go, stage_fsm.go, pipeline_run_fsm.go. `Stage`
--                     and `PipelineRun` hold each machine against its diagram, `Paths` is about
--                     sequences of statuses.
-- Models, Stores      internal/store/models.go and internal/store/store.go
-- Config              internal/config/config.go: the parsed .shipinator.yaml; `Loading` has `Load`,
--                     over the YAML decoder and the validator.
-- Executor            internal/executor/executor.go: the data that passes to and from an executor.
-- Effects             The interfaces of internal/store/store.go and of the executor, as calls with
--                     answers. A program is the tree of its calls. `Logic` says what holds of every
--                     execution, `Logs` and `Stories` read a trace, `Only` is about which calls are made,
--                     `Lasts` about when a program hangs.
-- Buildinator         internal/buildinator/buildinator.go
-- Testinator          internal/testinator/testinator.go. `Batch` and `Halting` are about the
--                     goroutines of a batch, `Rounds` and `Plan` about the loop over the steps.
-- Deployinator        internal/deployinator/deployinator.go
-- Orchestrator        internal/orchestrator/orchestrator.go. `Poll`, `Steps`, `Stages` and `Runs` go
--                     from the polling loop to the whole run, `Lifecycle` is the life of a record,
--                     `Artifacts` what a run registers, `Patience` how it can fail to return.
-- Postgres            internal/store/postgres: a store for each entity, over a driver. `Helpers` is
--                     helpers.go, `Sql` is what is relied on of the database, each `Laws` is about
--                     the store that it stands under.
-- Hosting             The orchestrator with its calls answered by the Postgres stores; `Rows`
--                     follows a row through a trace, `Runs`, `JobRows` and `StepRows` are about the
--                     rows afterwards, `RunJobs` and `RunSteps` about those of all jobs and
--                     steps of a run, `Deploys` about the artifact that a deployment takes.
-- Kubernetes          internal/executor/kubernetes/executor.go, over a client.
-- Server              internal/server/config/config.go, over a viper. `Start` is cmd/server/main.go:
--                     the set-up, then the moves of the goroutine, of a signal and of the shutdown.
-- Storetest           internal/store/storetest/helpers.go: the chain of test entities. `TestPool` is
--                     the pool of a test and its cleanup.
-- Filesystem          internal/artifact/artifact.go and internal/artifact/filesystem/store.go, over
--                     files whose laws are in `Laws`; `Memory` meets them.
-- Tests               The theorems at concrete data.
--
-- The orchestrator is written over interfaces, and so is the model: each call of a store, of the
-- executor, of a context or of the runtime's scheduler is a node with a branch for every answer.
-- `Ensures p Q` says that `Q` holds of the trace and the result of every execution of `p` that
-- returns; `Stalls p P` is about the executions that do not.
--
-- A state, a phase and a status are strings, as in the source. An error is kept with its format,
-- its arguments and the error that it wraps. IDs are numbers, and instants are nanoseconds. Log
-- lines are left out, and so is the time between two polls.
--
-- Fuel: `polls` bounds how often a poll may select, and `moves` how many moves the goroutines of a
-- batch may make. A run that needs more hangs. `poll_returns` says what a poll has seen then, and
-- `run_returns` that nothing else keeps a `Run` from returning. The outer loop over test steps takes
-- their number as fuel, and takes one step at least a round.
--
-- Parameters: the text of a UUID (github.com/google/uuid) and `filepath.Join` are the fields of
-- `Platform`. pgx with its database is a `Driver`. Its laws, `Sql`, are about statements on a
-- primary key: what they store, that one that is answered with an error changes nothing (a
-- connection that breaks after a statement took effect is left out), that pgx does not return the
-- program's own sentinels, and that a TIMESTAMPTZ column keeps microseconds. `Sql.Memory` meets
-- them. `Sql.Queries` adds that a SELECT of many rows answers with those that match, in order.
-- The Kubernetes API is a `Client`, about which nothing is assumed. The operating system's files are
-- `Files`, whose laws say which file a call changes and what a file reads as. The YAML decoder, the
-- validator, viper and the `Libraries` of `main` are arguments, about which nothing is assumed
-- either. Of the `Services` of a test, `Tracked` says which pools a call leaves open.
--
-- Not modelled: the API, which has no handlers yet, and the mock of the executor.
mod Common
mod Errors
pub mod Fsm
pub mod Models
pub mod Stores
pub mod Config
pub mod Executor
pub mod Effects
pub mod Buildinator
pub mod Testinator
pub mod Deployinator
pub mod Orchestrator
pub mod Postgres
pub mod Kubernetes
pub mod Filesystem
pub mod Server
pub mod Hosting
pub mod Storetest
mod Tests
