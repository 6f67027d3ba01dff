-- ===== src/Postgres.antt =====
-- internal/store/postgres. A statement is kept by its parts, the columns in the order of its text
-- and the arguments in the order of the call; the database that carries it out is a parameter.
pub mod Helpers
pub mod Sql
pub mod Projects
pub mod Repositories
pub mod Pipelines
pub mod PipelineRuns
pub mod Jobs
pub mod JobSteps
pub mod Artifacts
pub mod Executions
use shipinator.Common.{ℕ, String, Option, none, some, List, [], ◌∷◌}
use shipinator.Errors.{Error, external, Result, ok, err}
use shipinator.Models.{Uuid, Time}

-- What passes between pgx and a column.
pub data Value : Type 0 where
  null : Value
  uuid : Uuid → Value
  text : String → Value
  int : ℕ → Value
  time : Time → Value

-- A pointer as an argument: nil is NULL.
abbrev pub nullable : {A : Type 0} → (A → Value) → Option A → Value
nullable f none = null
nullable f (some a) = f a

-- `column = $n` and `column = COALESCE($n, column)`.
pub data Assignment : Type 0 where
  assign : Value → Assignment
  coalesce : Value → Assignment

-- `WHERE column = $n`
abbrev pub Where : Type 0
Where = String × Value

pub data Statement : Type 0 where
  insert : String → List String → List Value → Statement
  update : String → List (String × Assignment) → Where → Statement
  delete : String → Where → Statement

-- The columns, the table, the rows and the column to order by.
pub record Select : Type 0 where
  pub columns : List String
  pub table : String
  pub rows : Option Where
  pub order : Option String

-- pgx with the database behind it: `Exec` with the rows affected, `QueryRow`, and `Query` read to
-- its end.
pub record Driver : Type 1 where
  pub Db : Type 0
  pub exec : Statement → Db → Db × Result ℕ
  pub query_row : Select → Db → Result (List Value)
  pub query : Select → Db → Result (List (List Value))

infixl 5 ◌>>=◌
abbrev pub ◌>>=◌ {ℓ κ} : {A : Type ℓ} {B : Type κ} → Result A → (A → Result B) → Result B
ok a >>= f = f a
err e >>= f = err e

-- `Scan` into a target of each type; a NULL needs a pointer.
abbrev pub mismatch {ℓ} : {A : Type ℓ} → Result A
mismatch = err (external "can't scan into dest")

abbrev pub scan_uuid : Value → Result Uuid
scan_uuid (uuid id) = ok id
scan_uuid _ = mismatch

abbrev pub scan_text : Value → Result String
scan_text (text s) = ok s
scan_text _ = mismatch

abbrev pub scan_int : Value → Result ℕ
scan_int (int n) = ok n
scan_int _ = mismatch

abbrev pub scan_time : Value → Result Time
scan_time (time t) = ok t
scan_time _ = mismatch

abbrev pub scan_nullable : {A : Type 0} → (Value → Result A) → Value → Result (Option A)
scan_nullable scan null = ok none
scan_nullable scan v = scan v >>= λ a. ok (some a)

-- The `rows.Next()` loop, with the function that scans one row.
unfoldable pub scan_all :
    {A : Type 0} → (List Value → Result A) → List (List Value) → Result (List A)
scan_all scan [] = ok []
scan_all scan (row ∷ rows) = do a ← scan row; more ← scan_all scan rows; ok (a ∷ more)
