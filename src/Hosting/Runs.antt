-- ===== src/Hosting/Runs.antt =====
-- `Run` over the Postgres stores: the row of the run afterwards.
use mathlib.Core.Path.{subst}
use shipinator.Common.{
  ◌≡◌, refl, sym, ap, ◌∙◌, true, String, Option, none, some, List, [], ◌∷◌, string_eq,
}
use shipinator.Errors.{Error}
use shipinator.Models.{Time, PipelineRun, PipelineRunId}
use shipinator.Config.{ShipinatorConfig}
use shipinator.Effects.{Platform, Call, caller}
use shipinator.Effects.Logic.{Trace, event, Executes, Ensures-Executes}
use shipinator.Effects.Stories.{set, story, runs, story-quiet, run_log-story}
use shipinator.Orchestrator.{Rounds, Config, run}
use shipinator.Orchestrator.Stages.{configured}
use shipinator.Orchestrator.Runs.{Ending, Works, RunEnds, run-RunEnds}
use shipinator.Postgres.{Driver}
use shipinator.Postgres.Helpers.Times.{is_final}
use shipinator.Postgres.Sql.{Sql}
use shipinator.Postgres.PipelineRuns.Laws.{Holds, with_status, with_status-with_status}
use shipinator.Hosting.{Hosted}
use shipinator.Hosting.Rows.{Elsewhere, Replayed, Hosted-After}
use shipinator.Hosting.Kinds.{run_rows}

final-is_final :
    (c result : Option Error) (status : String) → Ending c result status → is_final status ≡ true
unfolding string_eq
final-is_final c result _ (Ending.canceled e _) = refl
final-is_final c result _ (Ending.failed e) = refl
final-is_final c result _ Ending.succeeded = refl

-- The updates of a `Run` that was started, with their answers.
Works-story :
    (id : PipelineRunId) (stages : List String) (t : Trace) (result : Option Error)
    (status : String) (last : Option Error)
    → Works id stages t result status last
    → (story runs t ≡ set id "running" none ∷ set id status last ∷ []) × (is_final status ≡ true)
Works-story id stages t result status last (Works.works work c q s r k e) = (
  ap (story runs) q
      ∙ ap (λ l. set id "running" none ∷ l) (story-quiet runs work _ (run_log-story work r)),
  final-is_final c result status e,
)

module _ (p : Platform) {d : Driver} (sql : Sql d) (stages : List String) where
  -- The row of a run after its `Run`.
  pub data RunStored (r : PipelineRun) (db' : d.Db) (t : Trace) (result : Option Error)
      : Type 0 where
    not_started :
        (e x : Error)
        → t ≡ event (Call.run_update_status caller r.id "running") (some e) ∷ []
        → result ≡ some x
        → Holds p sql db' r
        → RunStored r db' t result
    unfinished :
        (t1 : Time) (status : String) (e : Error)
        → Works r.id stages t result status (some e)
        → Holds p sql db' (record r { status = "running"; started_at = some t1 })
        → RunStored r db' t result
    ended :
        (t1 t2 : Time) (status : String)
        → Works r.id stages t result status none
        → Holds p sql db'
            (record r { status = status; started_at = some t1; finished_at = some t2 })
        → RunStored r db' t result

  sent-RunStored :
      (r r' : PipelineRun) (db' : d.Db) (t : Trace) (result : Option Error) (status : String)
      (last : Option Error)
      → Works r.id stages t result status last
      → is_final status ≡ true
      → Replayed with_status r (set r.id "running" none ∷ set r.id status last ∷ []) r'
      → Holds p sql db' r'
      → RunStored r db' t result
  unfolding string_eq
  sent-RunStored r r' db' t result status none w e (t1, (t2, f)) h =
      RunStored.ended t1 t2 status w
        (subst (Holds p sql db') (sym f ∙ with_status-with_status t1 t2 status r e) h)
  sent-RunStored r r' db' t result status (some e) w _ (t1, f) h =
      RunStored.unfinished t1 status e w (subst (Holds p sql db') (sym f) h)

  RunEnds-RunStored :
      (r : PipelineRun) (t : Trace) (db db' : d.Db) (result : Option Error)
      → RunEnds r.id stages t result
      → Holds p sql db r
      → Hosted p d (Elsewhere p sql "pipeline_runs" (some r.id)) t db db'
      → RunStored r db' t result
  RunEnds-RunStored r t db db' result (RunEnds.not_started e x q w) h k =
      let o : story runs t ≡ set r.id "running" (some e) ∷ [] = ap (story runs) q in
      let (r', f, g, _) =
        Hosted-After p sql (run_rows p sql) t r.id r db db' refl (rw o (refl, tt)) h k in
      RunStored.not_started e x q w
        (subst (Holds p sql db') (sym (subst (λ l. Replayed with_status r l r') o f)) g)
  RunEnds-RunStored r t db db' result (RunEnds.started status last w) h k =
      let (o, e) = Works-story r.id stages t result status last w in
      let (r', f, g, _) =
        Hosted-After p sql (run_rows p sql) t r.id r db db' refl (rw o (refl, (refl, tt))) h k in
      sent-RunStored r r' db' t result status last w e
        (subst (λ l. Replayed with_status r l r') o f) g

pub run-RunStored :
    (p : Platform) {d : Driver} (sql : Sql d) (rounds : Rounds) (config : Config)
    (cfg : ShipinatorConfig) (r : PipelineRun) (db db' : d.Db) {t : Trace} {result : Option Error}
    → Executes (run p rounds config r.id cfg) t (some result)
    → Holds p sql db r
    → Hosted p d (Elsewhere p sql "pipeline_runs" (some r.id)) t db db'
    → RunStored p sql (configured cfg) r db' t result
run-RunStored p {d} sql rounds config cfg r db db' {t} {result} x h k =
    RunEnds-RunStored p sql (configured cfg) r t db db' result
      (Ensures-Executes x (RunEnds r.id (configured cfg)) (run-RunEnds p rounds config r.id cfg)
        refl)
      h k
