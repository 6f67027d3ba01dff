-- ===== src/Tests/Steps.antt =====
-- A `Run` over the stores in memory, whose two test steps move in turns and both fail.
use shipinator.Common.{inl, inr, refl, arith, none, some, [], ◌∷◌, string_eq, nat_eq}
use shipinator.Effects.Logic.{Executes}
use shipinator.Orchestrator
use shipinator.Testinator
use shipinator.Postgres.Helpers.{
  ensure_id, set_default_status, affected_or_error, ensure_rows_affected,
}
use shipinator.Postgres.Sql.Memory.{memory, memory_sql}
use shipinator.Postgres.PipelineRuns
use shipinator.Postgres.Jobs
use shipinator.Postgres.JobSteps
use shipinator.Hosting.{Hosted}
use shipinator.Hosting.RunSteps.{ElsewhereSteps, MadeHeld, run-MadeHeld}
use shipinator.Tests.Hosting.{platform, rounds, settings}
use shipinator.Tests.Turns.{
  pipeline, failure, trace, db0, db1, db2, db3, db4, db5, db6, db7, db8, db9, db10, db11,
}

executed :
    Executes (Orchestrator.run platform rounds settings 5 pipeline) trace (some (some failure))
unfolding Orchestrator.run Testinator.run Orchestrator.run_stage Orchestrator.run_step
executed = Executes.answers _ none (
    Executes.answers _ _ (
      Executes.answers _ none (
        Executes.answers _ 0 (
          Executes.answers _ _ (
            Executes.answers _ 1 (
              Executes.answers _ _ (
                Executes.answers _ 1 (
                  Executes.answers _ none (
                    Executes.answers _ 0 (
                      Executes.answers _ none (
                        Executes.answers _ 0 (
                          Executes.answers _ _ (
                            Executes.answers _ 0 (
                              Executes.answers _ none (
                                Executes.answers _ 0 (
                                  Executes.answers _ 0 (
                                    Executes.answers _ _ (
                                      Executes.answers _ 0 (
                                        Executes.answers _ none (
                                          Executes.answers _ 0 (
                                            Executes.answers _ none (
                                              Executes.answers _ none (
                                                Executes.answers _ none
                                                  (Executes.returns _))))))))))))))))))))))))

trace-Hosted :
    Hosted platform memory (ElsewhereSteps platform memory_sql rounds (11 ∷ 12 ∷ [])) trace db0 db11
unfolding PipelineRuns.update_status PipelineRuns.status_sets Jobs.create Jobs.prepared
    Jobs.update_status Jobs.status_sets JobSteps.create JobSteps.prepared JobSteps.update_status
    JobSteps.status_sets ensure_id set_default_status affected_or_error ensure_rows_affected
    string_eq nat_eq
trace-Hosted = (
  db0,
  db1,
  (λ i m. refl),
  (7000, refl),
  (
    db1,
    db2,
    (λ i m. refl),
    (9, 8000, (refl, refl)),
    (
      db2,
      db3,
      (λ i m. refl),
      (8000, refl),
      (
        db3,
        db3,
        (λ i m. refl),
        refl,
        (
          db3,
          db4,
          (λ i m. refl),
          (11, 8100, (refl, refl)),
          (
            db4,
            db4,
            (λ i m. refl),
            refl,
            (
              db4,
              db5,
              (λ i m. refl),
              (12, 8200, (refl, refl)),
              (
                db5,
                db5,
                (λ i m. refl),
                refl,
                (
                  db5,
                  db6,
                  (λ i m. refl),
                  (8300, refl),
                  (
                    db6,
                    db6,
                    (λ i m. refl),
                    refl,
                    (
                      db6,
                      db7,
                      (λ i m. refl),
                      (8400, refl),
                      (
                        db7,
                        db7,
                        (λ i m. refl),
                        refl,
                        (
                          db7,
                          db7,
                          (λ i m. refl),
                          refl,
                          (
                            db7,
                            db7,
                            (λ i m. refl),
                            refl,
                            (
                              db7,
                              db8,
                              (λ i m. refl),
                              (8600, refl),
                              (
                                db8,
                                db8,
                                (λ i m. refl),
                                refl,
                                (
                                  db8,
                                  db8,
                                  (λ i m. refl),
                                  refl,
                                  (
                                    db8,
                                    db8,
                                    (λ i m. refl),
                                    refl,
                                    (
                                      db8,
                                      db8,
                                      (λ i m. refl),
                                      refl,
                                      (
                                        db8,
                                        db9,
                                        (λ i m. refl),
                                        (8700, refl),
                                        (
                                          db9,
                                          db9,
                                          (λ i m. refl),
                                          refl,
                                          (
                                            db9,
                                            db10,
                                            (λ i m. refl),
                                            (8800, refl),
                                            (
                                              db10,
                                              db10,
                                              (λ i m. refl),
                                              refl,
                                              (
                                                db10,
                                                db11,
                                                (λ i m. refl),
                                                (9000, refl),
                                                (λ i m. refl),
                                              ),
                                            ),
                                          ),
                                        ),
                                      ),
                                    ),
                                  ),
                                ),
                              ),
                            ),
                          ),
                        ),
                      ),
                    ),
                  ),
                ),
              ),
            ),
          ),
        ),
      ),
    ),
  ),
)

run-MadeHeld_example : MadeHeld platform memory_sql rounds 12 trace db11
run-MadeHeld_example =
    run-MadeHeld platform memory_sql rounds 5 settings pipeline db0 db11 executed
      ((λ m. elim m [ inl e ↦ omega (arith, e) | inr m ↦ m ]), ((λ m. m), tt)) trace-Hosted 12
      (inr (inl refl))
