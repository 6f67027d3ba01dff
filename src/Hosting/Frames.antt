-- ===== src/Hosting/Frames.antt =====
-- Which rows the answer of a store leaves alone.
use shipinator.Errors.{Error, Result, ok}
use shipinator.Common.{
  ◌≢◌, Option, none, some, List, ◌≡◌, refl, sym, ap, ◌∙◌, String, false, ◌==◌, string_eq,
}
use shipinator.Models.{Uuid}
use shipinator.Effects.{Platform, Call, Reply}
use shipinator.Postgres.{Value, uuid, insert, Driver}
use shipinator.Postgres.Helpers.{exec_error}
use shipinator.Postgres.Sql.{Sql, entries, column}
use shipinator.Postgres.Sql.Frames.{
  insert-other_row, insert-refused, is_row_other, insert-other, update-other_table,
}
use shipinator.Postgres.PipelineRuns
use shipinator.Postgres.Jobs
use shipinator.Postgres.JobSteps
use shipinator.Postgres.Executions
use shipinator.Postgres.Artifacts
use shipinator.Hosting.{id_or_error, Answers, postgres_stores}

-- The table that a call writes to.
abbrev pub written : Call → String
written (Call.run_update_status _ _ _) = "pipeline_runs"
written (Call.job_create _ _) = "jobs"
written (Call.job_update_status _ _ _) = "jobs"
written (Call.step_create _ _) = "job_steps"
written (Call.step_update_status _ _ _) = "job_steps"
written (Call.execution_create _ _) = "executions"
written (Call.execution_update_status _ _ _) = "executions"
written (Call.artifact_create _ _) = "artifacts"
written _ = ""

module _ {d : Driver} (sql : Sql d) where
  -- A `Create` leaves every row but that of the ID that it answers with.
  pub creation-other :
      (t : String) (cs : List String) (vs : List Value) (id : Uuid) (db : d.Db) (r : Result Uuid)
      → column "id" (entries cs vs) ≡ uuid id
      → r ≡ id_or_error id (exec_error (d.exec (insert t cs vs) db).1)
      → (i : Uuid) → r ≢ ok i
      → sql.row (d.exec (insert t cs vs) db).0 t i ≡ sql.row db t i
  creation-other t cs vs id db r k q i n = go (exec_error (d.exec (insert t cs vs) db).1) refl q
    where
      go :
          (o : Option Error)
          → exec_error (d.exec (insert t cs vs) db).1 ≡ o
          → r ≡ id_or_error id o
          → sql.row (d.exec (insert t cs vs) db).0 t i ≡ sql.row db t i
      go none e q =
          insert-other_row sql t cs vs id db k t i
            (is_row_other sql t id i (λ same. n (q ∙ ap ok (sym same))))
      go (some x) e q = insert-refused sql t cs vs db e t i

module _ (p : Platform) {d : Driver} (sql : Sql d) where
  -- The rows of the other tables.
  pub Answers-other :
      (c : Call) (r : Reply c) (db db' : d.Db) (t : String) (i : Uuid)
      → (t == written c) ≡ false
      → Answers (postgres_stores p d) c r db db'
      → sql.row db' t i ≡ sql.row db t i
  unfolding PipelineRuns.update_status Jobs.create Jobs.update_status JobSteps.create
      JobSteps.update_status Executions.create Executions.update_status Artifacts.create string_eq
  Answers-other (Call.run_update_status _ id s) r db db' t i n (now, q) =
      sym (ap (λ x. sql.row x.0 t i) q) ∙ update-other_table sql "pipeline_runs" _ id db t i n
  Answers-other (Call.job_create _ x) r db db' t i n (fresh, now, (q, _)) =
      rw q (insert-other sql "jobs" Jobs.columns _ _ db refl t i n)
  Answers-other (Call.job_update_status _ id s) r db db' t i n (now, q) =
      sym (ap (λ x. sql.row x.0 t i) q) ∙ update-other_table sql "jobs" _ id db t i n
  Answers-other (Call.step_create _ x) r db db' t i n (fresh, now, (q, _)) =
      rw q (insert-other sql "job_steps" JobSteps.columns _ _ db refl t i n)
  Answers-other (Call.step_update_status _ id s) r db db' t i n (now, q) =
      sym (ap (λ x. sql.row x.0 t i) q) ∙ update-other_table sql "job_steps" _ id db t i n
  Answers-other (Call.execution_create _ x) r db db' t i n (fresh, now, (q, _)) =
      rw q (insert-other sql "executions" Executions.columns _ _ db refl t i n)
  Answers-other (Call.execution_update_status _ id s) r db db' t i n (now, q) =
      sym (ap (λ x. sql.row x.0 t i) q) ∙ update-other_table sql "executions" _ id db t i n
  Answers-other (Call.artifact_create _ x) r db db' t i n (fresh, now, (q, _)) =
      rw q (insert-other sql "artifacts" Artifacts.columns _ _ db refl t i n)
  Answers-other (Call.artifact_list_by_job _ id) r db db' t i n (q, _) = rw q refl
  Answers-other c r db db' t i n q = rw q refl
