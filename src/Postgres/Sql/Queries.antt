-- ===== src/Postgres/Sql/Queries.antt =====
-- What the stores rely on of a SELECT with many rows, and what their loop makes of it.
use mathlib.Core.Path.{subst}
use shipinator.Common.{
  ◌≤◌, ◌≡◌, refl, ap, ◌∙◌, inl, inr, String, Option, none, some, List, [], ◌∷◌, map, In,
}
use shipinator.Errors.{Result, ok, err, ok-injective}
use shipinator.Models.{Uuid, Time}
use shipinator.Postgres.{
  Value, null, uuid, text, int, time, Where, Select, Driver, scan_uuid, scan_time, scan_all,
}
use shipinator.Postgres.{◌>>=◌}
use shipinator.Postgres.Sql.{Row, Sql, column, columns_of}

-- Instants one after the other, as `f` reads them.
abbrev pub Ascends : {A : Type 0} → (A → Time) → List A → Type 0
Ascends f [] = Unit
Ascends f (a ∷ []) = Unit
Ascends f (a ∷ b ∷ items) = (f a ≤ f b) × Ascends f (b ∷ items)

-- `WHERE column = value`
abbrev pub Matches : Option Where → Row → Type 0
Matches none r = Unit
Matches (some (c, v)) r = column c r ≡ v

-- `ORDER BY column`, for a column of instants.
abbrev pub InOrder : Option String → List Row → Type 0
InOrder none rs = Unit
InOrder (some c) [] = Unit
InOrder (some c) (r ∷ []) = Unit
InOrder (some c) (r ∷ s ∷ rs) =
    ((a b : Time) → column c r ≡ time a → column c s ≡ time b → a ≤ b) × InOrder (some c) (s ∷ rs)

-- A query with no error answers with the table's rows that match, in order.
pub record Queries {d : Driver} (sql : Sql d) : Type 0 where
  pub query-rows :
      (q : Select) (db : d.Db) (vs : List (List Value))
      → d.query q db ≡ ok vs
      → (rs : List Row) × (vs ≡ map (columns_of q.columns) rs)
        × ((r : Row) → In r rs → (id : Uuid) × (sql.row db q.table id ≡ some r) × Matches q.rows r)
        × ((id : Uuid) (r : Row) → sql.row db q.table id ≡ some r → Matches q.rows r → In r rs)
        × InOrder q.order rs

pub bind-ok {ℓ κ} :
    {A : Type ℓ} {B : Type κ} (x : Result A) (f : A → Result B) {b : B}
    → (x >>= f) ≡ ok b
    → (a : A) × (x ≡ ok a) × (f a ≡ ok b)
bind-ok (ok a) f e = (a, refl, e)
bind-ok (err y) f e = cc

module _ {A : Type 0} (scan : List Value → Result A) (cs : List String) where
  -- Each record is what its row is scanned as.
  abbrev pub Scanned : List Row → List A → Type 0
  Scanned [] [] = Unit
  Scanned (r ∷ rs) (a ∷ items) = (scan (columns_of cs r) ≡ ok a) × Scanned rs items
  Scanned _ _ = ⊥

  pub scan_all-Scanned :
      (rs : List Row) (items : List A)
      → scan_all scan (map (columns_of cs) rs) ≡ ok items
      → Scanned rs items
  unfolding scan_all
  scan_all-Scanned [] [] e = tt
  scan_all-Scanned [] (a ∷ items) e = cc
  scan_all-Scanned (r ∷ rs) items e =
      let (a, e0, k0) = bind-ok (scan (columns_of cs r)) _ e in
      let (more, e1, k1) = bind-ok (scan_all scan (map (columns_of cs) rs)) _ k0 in
      subst (Scanned (r ∷ rs)) (ok-injective k1) (e0, scan_all-Scanned rs more e1)

  pub Scanned-In :
      (rs : List Row) (items : List A) (r : Row) {a : A}
      → Scanned rs items
      → scan (columns_of cs r) ≡ ok a
      → In r rs
      → In a items
  Scanned-In [] items r h e i = absurd i
  Scanned-In (s ∷ rs) [] r h e i = absurd h
  Scanned-In (s ∷ rs) (b ∷ items) r (h, k) e (inl q) = inl cc
  Scanned-In (s ∷ rs) (b ∷ items) r (h, k) e (inr i) = inr (Scanned-In rs items r k e i)

  pub In-Scanned :
      (rs : List Row) (items : List A) (a : A)
      → Scanned rs items
      → In a items
      → (r : Row) × In r rs × (scan (columns_of cs r) ≡ ok a)
  In-Scanned [] [] a h i = absurd i
  In-Scanned [] (b ∷ items) a h i = absurd h
  In-Scanned (r ∷ rs) [] a h i = absurd h
  In-Scanned (r ∷ rs) (b ∷ items) a (h, k) (inl q) = (r, inl refl, h ∙ ap ok q)
  In-Scanned (r ∷ rs) (b ∷ items) a (h, k) (inr i) =
      let (s, j, e) = In-Scanned rs items a k i in (s, inr j, e)

  pub Scanned-Ascends :
      (c : String) (f : A → Time)
      → ((r : Row) (a : A) → scan (columns_of cs r) ≡ ok a → column c r ≡ time (f a))
      → (rs : List Row) (items : List A) → Scanned rs items
      → InOrder (some c) rs
      → Ascends f items
  Scanned-Ascends c f g [] [] h o = tt
  Scanned-Ascends c f g [] (a ∷ items) h o = absurd h
  Scanned-Ascends c f g (r ∷ rs) [] h o = absurd h
  Scanned-Ascends c f g (r ∷ []) (a ∷ []) h o = tt
  Scanned-Ascends c f g (r ∷ []) (a ∷ b ∷ items) (h, k) o = absurd k
  Scanned-Ascends c f g (r ∷ s ∷ rs) (a ∷ []) (h, k) o = absurd k
  Scanned-Ascends c f g (r ∷ s ∷ rs) (a ∷ b ∷ items) (h, (k, l)) (o, more) =
      (o (f a) (f b) (g r a h) (g s b k), Scanned-Ascends c f g (s ∷ rs) (b ∷ items) (k, l) more)

pub scan_uuid-ok : (v : Value) {id : Uuid} → scan_uuid v ≡ ok id → v ≡ uuid id
scan_uuid-ok (uuid id) e = cc
scan_uuid-ok null e = cc
scan_uuid-ok (text s) e = cc
scan_uuid-ok (int n) e = cc
scan_uuid-ok (time t) e = cc

pub scan_time-ok : (v : Value) {t : Time} → scan_time v ≡ ok t → v ≡ time t
scan_time-ok (time t) e = cc
scan_time-ok null e = cc
scan_time-ok (uuid id) e = cc
scan_time-ok (text s) e = cc
scan_time-ok (int n) e = cc
