-- ===== src/Hosting/Rows.antt =====
-- What the calls of a trace do to one row, for any kind of record whose status is moved.
use mathlib.Core.Path.{subst}
use shipinator.Common.{
  ◌≢◌, ◌≡◌, refl, sym, ap, ◌∙◌, String, Option, none, some, List, [], ◌∷◌, ◌++◌, All,
  All-append_iff,
}
use shipinator.Errors.{Error, ok}
use shipinator.Models.{Uuid, Time}
use shipinator.Effects.{Platform, Call, Reply}
use shipinator.Effects.Logic.{Trace, event}
use shipinator.Effects.Stories.{Kind, Change, made, set, changes, story}
use shipinator.Postgres.{Driver}
use shipinator.Postgres.Sql.{Sql, Row}
use shipinator.Hosting.{Answers, Hosted, postgres_stores}

-- What a list of changes makes of a record: an update with no error sets the status at some
-- instant, one with an error changes nothing. No record is made.
abbrev pub Replayed : {R : Type 0} → (Time → String → R → R) → R → List Change → R → Type 0
Replayed with_status r [] r' = r ≡ r'
Replayed with_status r (set _ s none ∷ l) r' =
    (now : Time) × Replayed with_status (with_status now s r) l r'
Replayed with_status r (set _ s (some _) ∷ l) r' = Replayed with_status r l r'
Replayed with_status r (made _ ∷ l) r' = ⊥

-- An update of the record with the ID.
abbrev pub IsOwn : Uuid → Change → Type 0
IsOwn id (set i _ _) = i ≡ id
IsOwn id (made _) = ⊥

Replayed-append :
    {R : Type 0} (with_status : Time → String → R → R) (r r' r'' : R) (xs ys : List Change)
    → Replayed with_status r xs r'
    → Replayed with_status r' ys r''
    → Replayed with_status r (xs ++ ys) r''
Replayed-append w r r' r'' [] ys h k = subst (λ x. Replayed w x ys r'') (sym h) k
Replayed-append w r r' r'' (set i s none ∷ xs) ys (now, h) k =
    (now, Replayed-append w (w now s r) r' r'' xs ys h k)
Replayed-append w r r' r'' (set i s (some e) ∷ xs) ys h k = Replayed-append w r r' r'' xs ys h k
Replayed-append w r r' r'' (made x ∷ xs) ys h k = absurd h

module _ (p : Platform) {d : Driver} (sql : Sql d) where
  -- Other clients leave the row, if there is one to speak of.
  abbrev pub Elsewhere : String → Option Uuid → d.Db → d.Db → Type 0
  Elsewhere table none db db' = Unit
  Elsewhere table (some id) db db' = sql.row db' table id ≡ sql.row db table id

  -- What a call does for the changes that it is: none, an update, or a creation, which leaves the
  -- other rows.
  abbrev pub Carried :
      String
      → (Time → Uuid → String → d.Db → d.Db × Option Error)
      → List Change
      → d.Db
      → d.Db
      → Type 0
  Carried table update [] db db' = (i : Uuid) → sql.row db' table i ≡ sql.row db table i
  Carried table update (set i s o ∷ []) db db' = (now : Time) × (update now i s db ≡ (db', o))
  Carried table update (set i s o ∷ _ ∷ _) db db' = ⊥
  Carried table update (made r ∷ []) db db' =
      (i : Uuid) → r ≢ ok i → sql.row db' table i ≡ sql.row db table i
  Carried table update (made r ∷ _ ∷ _) db db' = ⊥

  -- A kind of record, with the store's update of its status.
  pub record Tracked : Type 1 where
    pub kind : Kind
    pub table : String
    pub R : Type 0
    pub id_of : R → Uuid
    pub image : R → Row
    pub with_status : Time → String → R → R
    pub id_of-with_status :
        (now : Time) (s : String) (r : R) → id_of (with_status now s r) ≡ id_of r
    pub update : Time → Uuid → String → d.Db → d.Db × Option Error
    pub update-accepted :
        (now : Time) (s : String) (r : R) (db : d.Db)
        → sql.row db table (id_of r) ≡ some (image r)
        → (update now (id_of r) s db).1 ≡ none
        → sql.row (update now (id_of r) s db).0 table (id_of (with_status now s r))
          ≡ some (image (with_status now s r))
    pub update-refused :
        (now : Time) (s : String) (r : R) (db : d.Db) {e : Error}
        → sql.row db table (id_of r) ≡ some (image r)
        → (update now (id_of r) s db).1 ≡ some e
        → sql.row (update now (id_of r) s db).0 table (id_of r) ≡ some (image r)
    pub update-other :
        (now : Time) (i : Uuid) (s : String) (db : d.Db) (j : Uuid)
        → j ≢ i
        → sql.row (update now i s db).0 table j ≡ sql.row db table j
    pub changes-Carried :
        (c : Call) (a : Reply c) (db db' : d.Db)
        → Answers (postgres_stores p d) c a db db'
        → Carried table update (changes kind c a) db db'

  module _ (k : Tracked) where
    open k use {
      kind, table, R, id_of, image, with_status, id_of-with_status, update, update-accepted,
      update-refused, changes-Carried,
    }

    -- The table holds the record under its ID.
    abbrev pub Stored : d.Db → R → Type 0
    Stored db r = sql.row db table (id_of r) ≡ some (image r)

    -- The record that is held after some changes.
    abbrev pub After : R → List Change → d.Db → Type 0
    After r l db' = (r' : R) × Replayed with_status r l r' × Stored db' r' × (id_of r' ≡ id_of r)

    update-After :
        (now : Time) (i : Uuid) (s : String) (o : Option Error) (r : R) (db db' : d.Db)
        → i ≡ id_of r
        → update now i s db ≡ (db', o)
        → Stored db r
        → After r (set i s o ∷ []) db'
    update-After now i s o r db db' e q h =
        let own : update now (id_of r) s db ≡ (db', o) = ap (λ i. update now i s db) (sym e) ∙ q in
        go o (ap (λ x. x.0) own) (ap (λ x. x.1) own)
      where
        go :
            (o : Option Error)
            → (update now (id_of r) s db).0 ≡ db'
            → (update now (id_of r) s db).1 ≡ o
            → After r (set i s o ∷ []) db'
        go none q w = (
          with_status now s r,
          (now, refl),
          subst (λ x. Stored x (with_status now s r)) q (update-accepted now s r db h w),
          id_of-with_status now s r,
        )
        go (some x) q w = (r, refl, subst (λ x. Stored x r) q (update-refused now s r db h w), refl)

    moved :
        (r : R) (db db' : d.Db)
        → sql.row db' table (id_of r) ≡ sql.row db table (id_of r)
        → Stored db r
        → Stored db' r
    moved r db db' x h = x ∙ h

    Carried-After :
        (l : List Change) (r : R) (db db' : d.Db)
        → All (IsOwn (id_of r)) l
        → Carried table update l db db'
        → Stored db r
        → After r l db'
    Carried-After [] r db db' own x h = (r, refl, moved r db db' (x (id_of r)) h, refl)
    Carried-After (set i s o ∷ []) r db db' own (now, q) h =
        update-After now i s o r db db' own.0 q h
    Carried-After (set i s o ∷ _ ∷ _) r db db' own x h = absurd x
    Carried-After (made _ ∷ _) r db db' own x h = absurd own.0

    -- A stored record after the calls of a trace that makes no record of the kind and updates no
    -- other, over stores between whose calls other clients leave its row.
    pub Hosted-After :
        (t : Trace) (id : Uuid) (r : R) (db db' : d.Db)
        → id_of r ≡ id
        → All (IsOwn id) (story kind t)
        → Stored db r
        → Hosted p d (Elsewhere table (some id)) t db db'
        → After r (story kind t) db'
    Hosted-After [] id r db db' e own h x = (
      r,
      refl,
      moved r db db' (subst (λ i. sql.row db' table i ≡ sql.row db table i) (sym e) x) h,
      refl,
    )
    Hosted-After (event c a ∷ t) id r db db' e own h (before, after, x, q, rest) =
        let (first, others) = All-append_iff (IsOwn id) (changes kind c a) (story kind t) own in
        let held =
          moved r db before (subst (λ i. sql.row before table i ≡ sql.row db table i) (sym e) x)
            h in
        let (r1, f1, h1, e1) =
          Carried-After (changes kind c a) r before after
            (subst (λ i. All (IsOwn i) (changes kind c a)) (sym e) first)
            (changes-Carried c a before after q) held in
        let (r2, f2, h2, e2) = Hosted-After t id r1 after db' (e1 ∙ e) others h1 rest in
        (
          r2,
          Replayed-append with_status r r1 r2 (changes kind c a) (story kind t) f1 f2,
          h2,
          e2 ∙ e1,
        )
