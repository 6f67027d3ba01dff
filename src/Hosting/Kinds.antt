-- ===== src/Hosting/Kinds.antt =====
-- The runs, the jobs and the steps as kinds of tracked records.
use shipinator.Common.{◌≡◌, ◌≢◌, String, refl, string_eq}
use shipinator.Models.{Uuid, Time, PipelineRun, Job, JobStep}
use shipinator.Effects.{Platform, Call, Reply}
use shipinator.Effects.Stories.{runs, jobs, steps, changes}
use shipinator.Postgres.{Driver}
use shipinator.Postgres.Sql.{Sql, stored}
use shipinator.Postgres.PipelineRuns
use shipinator.Postgres.PipelineRuns.Laws as RunLaws
use shipinator.Postgres.Jobs
use shipinator.Postgres.Jobs.Laws as JobLaws
use shipinator.Postgres.JobSteps
use shipinator.Postgres.JobSteps.Laws as StepLaws
use shipinator.Postgres.Sql.Frames.{update-other, is_row_other}
use shipinator.Hosting.{Answers, postgres_stores}
use shipinator.Hosting.Frames.{creation-other, Answers-other}
use shipinator.Hosting.Rows.{Tracked, Carried}

module _ (p : Platform) {d : Driver} (sql : Sql d) where
  pub run_changes-Carried :
      (c : Call) (a : Reply c) (db db' : d.Db)
      → Answers (postgres_stores p d) c a db db'
      → Carried p sql "pipeline_runs" (PipelineRuns.update_status p d) (changes runs c a) db db'
  unfolding string_eq
  run_changes-Carried (Call.run_update_status _ id s) a db db' q = q
  run_changes-Carried c a db db' q = λ i. Answers-other p sql c a db db' "pipeline_runs" i refl q

  pub job_changes-Carried :
      (c : Call) (a : Reply c) (db db' : d.Db)
      → Answers (postgres_stores p d) c a db db'
      → Carried p sql "jobs" (Jobs.update_status p d) (changes jobs c a) db db'
  unfolding string_eq Jobs.create
  job_changes-Carried (Call.job_create _ j) a db db' (fresh, now, (q, r)) =
      rw q (creation-other sql "jobs" Jobs.columns _ _ db a refl r)
  job_changes-Carried (Call.job_update_status _ id s) a db db' q = q
  job_changes-Carried c a db db' q = λ i. Answers-other p sql c a db db' "jobs" i refl q

  pub step_changes-Carried :
      (c : Call) (a : Reply c) (db db' : d.Db)
      → Answers (postgres_stores p d) c a db db'
      → Carried p sql "job_steps" (JobSteps.update_status p d) (changes steps c a) db db'
  unfolding string_eq JobSteps.create
  step_changes-Carried (Call.step_create _ s) a db db' (fresh, now, (q, r)) =
      rw q (creation-other sql "job_steps" JobSteps.columns _ _ db a refl r)
  step_changes-Carried (Call.step_update_status _ id s) a db db' q = q
  step_changes-Carried c a db db' q = λ i. Answers-other p sql c a db db' "job_steps" i refl q

  pub run_update-other :
      (now : Time) (i : Uuid) (s : String) (db : d.Db) (j : Uuid)
      → j ≢ i
      → sql.row (PipelineRuns.update_status p d now i s db).0 "pipeline_runs" j
        ≡ sql.row db "pipeline_runs" j
  unfolding PipelineRuns.update_status
  run_update-other now i s db j n =
      update-other sql "pipeline_runs" (PipelineRuns.status_sets now s) i db "pipeline_runs" j
        (is_row_other sql "pipeline_runs" i j n)

  pub job_update-other :
      (now : Time) (i : Uuid) (s : String) (db : d.Db) (j : Uuid)
      → j ≢ i
      → sql.row (Jobs.update_status p d now i s db).0 "jobs" j ≡ sql.row db "jobs" j
  unfolding Jobs.update_status
  job_update-other now i s db j n =
      update-other sql "jobs" (Jobs.status_sets now s) i db "jobs" j (is_row_other sql "jobs" i j n)

  pub step_update-other :
      (now : Time) (i : Uuid) (s : String) (db : d.Db) (j : Uuid)
      → j ≢ i
      → sql.row (JobSteps.update_status p d now i s db).0 "job_steps" j ≡ sql.row db "job_steps" j
  unfolding JobSteps.update_status
  step_update-other now i s db j n =
      update-other sql "job_steps" (JobSteps.status_sets now s) i db "job_steps" j
        (is_row_other sql "job_steps" i j n)

  abbrev pub run_rows : Tracked p sql
  run_rows = record {
    kind = runs;
    table = "pipeline_runs";
    R = PipelineRun;
    id_of = λ r. r.id;
    image = λ r. stored PipelineRuns.columns (PipelineRuns.values r);
    with_status = RunLaws.with_status;
    id_of-with_status = λ now s r. refl;
    update = PipelineRuns.update_status p d;
    update-accepted = λ now s r db h e. RunLaws.update_status-Holds p sql now s r db h e;
    update-refused = λ now s r db h e. RunLaws.update_status-refused p sql now s r db h e;
    changes-Carried = run_changes-Carried;
    update-other = run_update-other;
  }

  abbrev pub job_rows : Tracked p sql
  job_rows = record {
    kind = jobs;
    table = "jobs";
    R = Job;
    id_of = λ r. r.id;
    image = λ r. stored Jobs.columns (Jobs.values r);
    with_status = JobLaws.with_status;
    id_of-with_status = λ now s r. refl;
    update = Jobs.update_status p d;
    update-accepted = λ now s r db h e. JobLaws.update_status-Holds p sql now s r db h e;
    update-refused = λ now s r db h e. JobLaws.update_status-refused p sql now s r db h e;
    changes-Carried = job_changes-Carried;
    update-other = job_update-other;
  }

  abbrev pub step_rows : Tracked p sql
  step_rows = record {
    kind = steps;
    table = "job_steps";
    R = JobStep;
    id_of = λ r. r.id;
    image = λ r. stored JobSteps.columns (JobSteps.values r);
    with_status = StepLaws.with_status;
    id_of-with_status = λ now s r. refl;
    update = JobSteps.update_status p d;
    update-accepted = λ now s r db h e. StepLaws.update_status-Holds p sql now s r db h e;
    update-refused = λ now s r db h e. StepLaws.update_status-refused p sql now s r db h e;
    changes-Carried = step_changes-Carried;
    update-other = step_update-other;
  }
