-- ===== src/Tests/Lists.antt =====
-- The theorems about lists of artifacts, over a database that can only be read.
use shipinator.Common.{In}
use shipinator.Common.{
  ℕ, ◌≡◌, refl, sym, ap, ◌∙◌, inl, inr, String, Bool, true, false, ◌&&◌, Option, none, some, List,
  [], ◌∷◌, map, ◌==◌, nat_eq, string_eq, if◌then◌else◌, arith,
}
use mathlib.Core.Path.{subst}
use mathlib.Core.Option.{none-ne-some, some-injective}
use shipinator.Errors.{Error, Result, ok, err, is_sentinel, ok-injective}
use shipinator.Models.{Uuid, Artifact}
use shipinator.Postgres.{Value, null, uuid, text, int, time, Where, Driver, scan_all, scan_time}
use shipinator.Postgres.Sql.{Row, Sql, stored, column, columns_of}
use shipinator.Postgres.Sql.Memory.{Tables, refusal, query_where, query_by_id}
use shipinator.Postgres.Sql.Queries.{Ascends, Queries, Matches, InOrder}
use shipinator.Postgres.Artifacts
use shipinator.Postgres.Artifacts.Laws.{Holds, as_read}
use shipinator.Postgres.Artifacts.Lists.{list_by_job_lem}
use shipinator.Deployinator.{find_artifact}
use shipinator.Hosting.Deploys.{Takes, find_artifact-list_by_job}
use shipinator.Tests.Stores.{platform}

abbrev binary : Artifact
binary = record {
  id = 5;
  job_id = 4;
  artifact_type = "binary";
  storage_backend = "nfs";
  storage_path = "/artifacts/5";
  checksum = none;
  created_at = 2000;
}

abbrev chart : Artifact
chart = record {
  id = 6;
  job_id = 4;
  artifact_type = "helm_chart";
  storage_backend = "nfs";
  storage_path = "/artifacts/6";
  checksum = some "sha256";
  created_at = 3500;
}

abbrev row_of : Artifact → Row
row_of a = stored Artifacts.columns (Artifacts.values a)

abbrev rows : List Row
rows = row_of binary ∷ row_of chart ∷ []

-- The one table.
abbrev tables : Tables
tables t id =
    if t == "artifacts"
    then if id == 5 then some (row_of binary) else if id == 6 then some (row_of chart) else none
    else none

-- The one query with many rows that it answers.
abbrev is_answered : String → Option Where → Option String → Bool
is_answered t (some (c, uuid v)) (some o) =
    t == "artifacts" && (c == "job_id" && (v == 4 && o == "created_at"))
is_answered _ _ _ = false

abbrev snapshot : Driver
snapshot = record {
  Db = Unit;
  exec = λ s db. (db, err refusal);
  query_row = λ q db. query_where q.columns q.table q.rows tables;
  query = λ q db.
      if is_answered q.table q.rows q.order
      then ok (map (columns_of q.columns) rows)
      else err refusal;
}

abbrev refused : Result ℕ
refused = err refusal

refusal_foreign : (e : Error) → refused ≡ err e → is_sentinel "not found" e ≡ false
unfolding is_sentinel
refusal_foreign e h = let same : refusal ≡ e = cc in ap (is_sentinel "not found") (sym same)

refusal_final : {n : ℕ} → err refusal ≡ ok n → ⊥
refusal_final h = cc

abbrev snapshot_sql : Sql snapshot
snapshot_sql = record {
  row = λ _ t i. tables t i;
  fault = λ _. none;
  exec-refused = λ s db db' e h. (λ t i. refl, refusal_foreign e (ap (λ x. x.1) h));
  exec-insert = λ t cs vs id db db' n k h. absurd (refusal_final (ap (λ x. x.1) h));
  exec-update = λ t sets id db db' n h. absurd (refusal_final (ap (λ x. x.1) h));
  exec-delete = λ t id db db' n h. absurd (refusal_final (ap (λ x. x.1) h));
  query_row-by_id = λ cs t id db _. query_by_id cs t id tables;
  query_row-fault = λ q db {e} h. absurd (none-ne-some e h);
}

eq_of_test : (s t : String) → (s == t) ≡ true → s ≡ t
eq_of_test s t h = ground arith

eq_of_nat_test : (a b : ℕ) → (a == b) ≡ true → a ≡ b
eq_of_nat_test a b h = ground arith

both : (a b : Bool) → (a && b) ≡ true → (a ≡ true) × (b ≡ true)
both true b h = (refl, h)
both false b h = cc

answered :
    (t : String) (w : Option Where) (o : Option String)
    → is_answered t w o ≡ true
    → (t ≡ "artifacts") × (w ≡ some ("job_id", uuid 4)) × (o ≡ some "created_at")
answered t (some (c, uuid v)) (some o) h =
    let (e, h) = both _ _ h in
    let (f, h) = both _ _ h in
    let (g, h) = both _ _ h in
    (eq_of_test t _ e, rw (eq_of_test c _ f, eq_of_nat_test v _ g) refl, ap some (eq_of_test o _ h))
answered t none o h = cc
answered t (some (c, uuid v)) none h = cc
answered t (some (c, null)) o h = cc
answered t (some (c, text s)) o h = cc
answered t (some (c, int n)) o h = cc
answered t (some (c, time i)) o h = cc

stored_rows :
    (a b c : Bool) (r : Row)
    → (if a
        then if b then some (row_of binary) else if c then some (row_of chart) else none
        else none)
      ≡ some r
    → In r rows
stored_rows true true c r h = inl (some-injective _ _ h)
stored_rows true false true r h = inr (inl (some-injective _ _ h))
stored_rows true false false r h = absurd (none-ne-some r h)
stored_rows false b c r h = absurd (none-ne-some r h)

held_rows :
    (r : Row)
    → In r rows
    → (id : Uuid) × (tables "artifacts" id ≡ some r) × (column "job_id" r ≡ uuid 4)
unfolding nat_eq string_eq
held_rows r (inl e) = (5, ap some e, ap (column "job_id") (sym e))
held_rows r (inr (inl e)) = (6, ap some e, ap (column "job_id") (sym e))
held_rows r (inr (inr x)) = absurd x

rows-InOrder : InOrder (some "created_at") rows
unfolding string_eq
rows-InOrder =
    (λ a b e f. omega (arith, ok-injective (ap scan_time e), ok-injective (ap scan_time f)), tt)

answer_rows :
    (cs : List String) (t : String) (w : Option Where) (o : Option String) (vs : List (List Value))
    (b : Bool)
    → is_answered t w o ≡ b
    → (if b then ok (map (columns_of cs) rows) else err refusal) ≡ ok vs
    → (rs : List Row) × (vs ≡ map (columns_of cs) rs)
      × ((r : Row) → In r rs → (id : Uuid) × (tables t id ≡ some r) × Matches w r)
      × ((id : Uuid) (r : Row) → tables t id ≡ some r → Matches w r → In r rs)
      × InOrder o rs
answer_rows cs t w o vs true e h =
    let (et, ew, eo) = answered t w o e in
    (
      rows,
      sym (ok-injective h),
      λ r i.
          let (id, row, job) = held_rows r i in
          (id, ap (λ t. tables t id) et ∙ row, subst (λ w. Matches w r) (sym ew) job),
      λ id r row _. stored_rows _ _ _ r row,
      subst (λ o. InOrder o rows) (sym eo) rows-InOrder,
    )
answer_rows cs t w o vs false e h = cc

snapshot-Queries : Queries snapshot_sql
snapshot-Queries = record {
  query-rows = λ q db vs h.
      answer_rows q.columns q.table q.rows q.order vs (is_answered q.table q.rows q.order) refl h;
}

-- The artifacts of the job, read in the order of their making.
listed : Artifacts.list_by_job platform snapshot 4 tt ≡ ok (as_read binary ∷ as_read chart ∷ [])
unfolding Artifacts.list_by_job scan_all nat_eq string_eq
listed = refl

list_by_job_lem_example :
    ((r : Artifact)
      → r.job_id ≡ 4
      → Holds platform snapshot_sql tt r
      → In (as_read r) (as_read binary ∷ as_read chart ∷ []))
    × ((a : Artifact)
        → In a (as_read binary ∷ as_read chart ∷ [])
        → (a.job_id ≡ 4)
          × ((id : Uuid) × (r : Row) × (tables "artifacts" id ≡ some r)
              × (Artifacts.scan (columns_of Artifacts.columns r) ≡ ok a)))
    × Ascends (λ a. a.created_at) (as_read binary ∷ as_read chart ∷ [])
list_by_job_lem_example = list_by_job_lem platform snapshot_sql snapshot-Queries 4 tt _ listed

find_artifact-list_by_job_example :
    Takes platform snapshot_sql tt 4 "helm_chart" (some (as_read chart))
unfolding find_artifact string_eq
find_artifact-list_by_job_example =
    find_artifact-list_by_job platform snapshot_sql tt 4 "helm_chart" snapshot-Queries _ listed
