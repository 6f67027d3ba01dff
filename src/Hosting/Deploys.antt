-- ===== src/Hosting/Deploys.antt =====
-- Which of the stored artifacts of a build a deployment takes: the choice of
-- internal/deployinator among what `ListByJob` of the Postgres store returns.
use shipinator.Common.{In}
use shipinator.Common.{
  ◌≤◌, ◌≡◌, ◌≢◌, refl, ap, ◌∙◌, inl, inr, String, Option, none, some, List, [], ◌∷◌, arith,
}
use shipinator.Errors.{ok}
use shipinator.Models.{Uuid, Time, Artifact}
use shipinator.Effects.{Platform}
use shipinator.Deployinator.{find_artifact}
use shipinator.Deployinator.Choice.{First, find_artifact-First}
use shipinator.Postgres.{Driver}
use shipinator.Postgres.Sql.{Sql, Row, micros, columns_of}
use shipinator.Postgres.Sql.Queries.{Ascends, Queries}
use shipinator.Postgres.Artifacts.{columns, scan, list_by_job}
use shipinator.Postgres.Artifacts.Laws.{Holds, as_read}
use shipinator.Postgres.Artifacts.Lists.{list_by_job_lem}

module _ {A : Type 0} (f : A → Time) where
  Ascends-tail : (a : A) (items : List A) → Ascends f (a ∷ items) → Ascends f items
  Ascends-tail a [] h = tt
  Ascends-tail a (b ∷ items) h = h.1

  Ascends-le : (a b : A) (items : List A) → Ascends f (a ∷ items) → In b (a ∷ items) → f a ≤ f b
  Ascends-le a b items h (inl e) = omega (arith, ap f e)
  Ascends-le a b [] h (inr i) = absurd i
  Ascends-le a b (c ∷ items) h (inr i) = omega (arith, h.0, Ascends-le c b items h.1 i)

-- The oldest of the artifacts that has the type, if there is one.
abbrev Oldest : String → List Artifact → Option Artifact → Type 0
Oldest type items none = (b : Artifact) → In b items → b.artifact_type ≢ type
Oldest type items (some a) =
    In a items
    × (a.artifact_type ≡ type)
    × ((b : Artifact) → In b items → b.artifact_type ≡ type → a.created_at ≤ b.created_at)

Oldest-later :
    (type : String) (a : Artifact) (items : List Artifact) (found : Option Artifact)
    → a.artifact_type ≢ type
    → Oldest type items found
    → Oldest type (a ∷ items) found
Oldest-later type a items none ne h = none_else
  where
    none_else : (b : Artifact) → In b (a ∷ items) → b.artifact_type ≢ type
    none_else b (inl e) = λ k. ne (ap (λ x. x.artifact_type) e ∙ k)
    none_else b (inr i) = h b i
Oldest-later type a items (some x) ne (i, k, least) = (inr i, k, others)
  where
    others :
        (b : Artifact) → In b (a ∷ items) → b.artifact_type ≡ type → x.created_at ≤ b.created_at
    others b (inl e) q = absurd (ne (ap (λ x. x.artifact_type) e ∙ q))
    others b (inr j) q = least b j q

First-Oldest :
    {type : String} {items : List Artifact} {found : Option Artifact}
    → First type items found
    → Ascends (λ a. a.created_at) items
    → Oldest type items found
First-Oldest First.absent h = λ b i. absurd i
First-Oldest (First.here a arts e) h =
    (inl refl, e, λ b i _. Ascends-le (λ a. a.created_at) a b arts h i)
First-Oldest {type = type} (First.later a {arts} {found} ne first) h =
    Oldest-later type a arts found ne
      (First-Oldest first (Ascends-tail (λ a. a.created_at) a arts h))

module _ (p : Platform) {d : Driver} (sql : Sql d) (db : d.Db) (job_id : Uuid) (type : String) where
  -- The artifact is the oldest that the table holds for the job with the type; without one, the
  -- table holds none.
  abbrev pub Takes : Option Artifact → Type 0
  Takes none = (r : Artifact) → r.job_id ≡ job_id → Holds p sql db r → r.artifact_type ≢ type
  Takes (some a) =
      (a.job_id ≡ job_id)
      × (a.artifact_type ≡ type)
      × ((id : Uuid) × (r : Row) × (sql.row db "artifacts" id ≡ some r)
          × (scan (columns_of columns r) ≡ ok a))
      × ((r : Artifact)
          → r.job_id ≡ job_id
          → Holds p sql db r
          → r.artifact_type ≡ type
          → a.created_at ≤ micros r.created_at)

  -- Among the artifacts that `ListByJob` returned with no error for the build job, over a database
  -- whose queries answer with the rows that match, in order: a deployment takes a stored artifact
  -- of the job with the type of its configuration, and no stored one of them is older, in
  -- microseconds. It finds none only where the table holds none.
  pub find_artifact-list_by_job :
      (queries : Queries sql) (items : List Artifact)
      → list_by_job p d job_id db ≡ ok items
      → Takes (find_artifact type items)
  find_artifact-list_by_job queries items e =
      let (complete, sound, order) = list_by_job_lem p sql queries job_id db items e in
      taken items complete sound (find_artifact type items)
        (First-Oldest (find_artifact-First type items) order)
    where
      taken :
          (items : List Artifact)
          → ((r : Artifact) → r.job_id ≡ job_id → Holds p sql db r → In (as_read r) items)
          → ((a : Artifact)
              → In a items
              → (a.job_id ≡ job_id)
                × ((id : Uuid) × (r : Row) × (sql.row db "artifacts" id ≡ some r)
                    × (scan (columns_of columns r) ≡ ok a)))
          → (found : Option Artifact) → Oldest type items found
          → Takes found
      taken items complete sound none h = λ r j k. h (as_read r) (complete r j k)
      taken items complete sound (some a) (i, k, least) =
          let (job, stored) = sound a i in
          (job, k, stored, λ r j h q. least (as_read r) (complete r j h) q)
