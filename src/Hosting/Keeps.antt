-- ===== src/Hosting/Keeps.antt =====
-- Which rows the calls of a trace leave alone, and the parts of a trace that is hosted.
use shipinator.Common.{◌≡◌, ◌≢◌, refl, sym, ap, ◌∙◌, List, [], ◌∷◌, ◌++◌, All, All-append_iff}
use shipinator.Errors.{ok, err}
use shipinator.Models.{Uuid}
use shipinator.Effects.{Platform}
use shipinator.Effects.Logic.{Trace, event}
use shipinator.Effects.Stories.{Change, made, set, changes, story}
use shipinator.Postgres.{Driver}
use shipinator.Postgres.Sql.{Sql}
use shipinator.Hosting.{Hosted}
use shipinator.Hosting.Rows.{Tracked, Carried}

-- The IDs of the records that a story makes.
abbrev pub made_ids : List Change → List Uuid
made_ids [] = []
made_ids (made (ok id) ∷ l) = id ∷ made_ids l
made_ids (_ ∷ l) = made_ids l

pub made_ids-append : (l m : List Change) → made_ids (l ++ m) ≡ made_ids l ++ made_ids m
made_ids-append [] m = refl
made_ids-append (made (ok id) ∷ l) m = ap (λ x. id ∷ x) (made_ids-append l m)
made_ids-append (made (err e) ∷ l) m = made_ids-append l m
made_ids-append (set i s o ∷ l) m = made_ids-append l m

-- A change of another record.
abbrev pub IsOther : Uuid → Change → Type 0
IsOther id (made r) = r ≢ ok id
IsOther id (set i _ _) = id ≢ i

module _ (p : Platform) (d : Driver) where
  -- A trace in two parts, where what other clients do may be nothing.
  pub Hosted-append :
      (E : d.Db → d.Db → Type 0)
      → ((db : d.Db) → E db db)
      → (t u : Trace) (db db' : d.Db) → Hosted p d E (t ++ u) db db'
      → (mid : d.Db) × Hosted p d E t db mid × Hosted p d E u mid db'
  Hosted-append E idle [] u db db' h = (db, idle db, h)
  Hosted-append E idle (event c r ∷ t) u db db' (before, after, x, q, rest) =
      let (mid, left, right) = Hosted-append E idle t u after db' rest in
      (mid, (before, after, x, q, left), right)

  pub Hosted-Hosted :
      {E F : d.Db → d.Db → Type 0}
      → ((db db' : d.Db) → E db db' → F db db')
      → (t : Trace) (db db' : d.Db) → Hosted p d E t db db'
      → Hosted p d F t db db'
  Hosted-Hosted f [] db db' h = f db db' h
  Hosted-Hosted f (event c r ∷ t) db db' (before, after, x, q, rest) =
      (before, after, f db before x, q, Hosted-Hosted f t after db' rest)

module _ (p : Platform) {d : Driver} (sql : Sql d) (k : Tracked p sql) where
  open k use {kind, table, update, update-other, changes-Carried}

  Carried-keeps :
      (l : List Change) (i : Uuid) (db db' : d.Db)
      → Carried p sql table update l db db'
      → All (IsOther i) l
      → sql.row db' table i ≡ sql.row db table i
  Carried-keeps [] i db db' h o = h i
  Carried-keeps (made r ∷ []) i db db' h o = h i o.0
  Carried-keeps (made r ∷ _ ∷ _) i db db' h o = absurd h
  Carried-keeps (set j s a ∷ []) i db db' (now, q) o =
      sym (ap (λ x. sql.row x.0 table i) q) ∙ update-other now j s db i o.0
  Carried-keeps (set j s a ∷ _ ∷ _) i db db' h o = absurd h

  -- The calls on other records leave the row, where other clients do.
  pub Hosted-keeps :
      (E : d.Db → d.Db → Type 0) (i : Uuid)
      → ((db db' : d.Db) → E db db' → sql.row db' table i ≡ sql.row db table i)
      → (t : Trace) (db db' : d.Db) → All (IsOther i) (story kind t)
      → Hosted p d E t db db'
      → sql.row db' table i ≡ sql.row db table i
  Hosted-keeps E i keeps [] db db' o h = keeps db db' h
  Hosted-keeps E i keeps (event c r ∷ t) db db' o (before, after, x, q, rest) =
      let (first, others) = All-append_iff (IsOther i) (changes kind c r) (story kind t) o in
      Hosted-keeps E i keeps t after db' others rest
      ∙ (Carried-keeps (changes kind c r) i before after (changes-Carried c r before after q) first
          ∙ keeps db before x)
