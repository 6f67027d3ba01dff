-- ===== src/Storetest/Scripts.antt =====
-- What holds when a script has returned with no error.
use mathlib.Core.Path.{subst}
use shipinator.Common.{◌≡◌, refl, ap, Option, none, some}
use shipinator.Errors.{Error, Result, ok, err, ok-injective}
use shipinator.Storetest.{Script, then_do, record_or_error}

module _ {Db : Type 0} where
  -- It holds of the state and the value, if there is one.
  abbrev pub Returns {κ} : {A : Type 0} → Db × Result A → (Db → A → Type κ) → Type κ
  Returns {A = A} x P = (db' : Db) (a : A) → x ≡ (db', ok a) → P db' a

  pub Returns-return :
      {A : Type 0} (P : Db → A → Type 0) (a : A) (db : Db) → P db a → Returns (db, ok a) P
  Returns-return P a db h db' a' e =
      subst (λ x. P x a') (ap (λ x. x.0) e) (subst (P db) (ok-injective (ap (λ x. x.1) e)) h)

  pub Returns-record_or_error :
      {A : Type 0} (P : Db → A → Type 0) (x : Db × A × Option Error)
      → (x.2 ≡ none → P x.0 x.1)
      → Returns (record_or_error x) P
  Returns-record_or_error P (db, a, none) h db' a' e = Returns-return P a db (h refl) db' a' e
  Returns-record_or_error P (db, a, some y) h db' a' e = cc

  pub Returns-then_do :
      {A B : Type 0} {Q : Db → A → Type 0} {P : Db → B → Type 0} (x : Db × Result A)
      (f : A → Script Db B)
      → Returns x Q
      → ((db : Db) (a : A) → Q db a → Returns (f a db) P)
      → Returns (then_do f x) P
  Returns-then_do (db, ok a) f h k db' b e = k db a (h db a refl) db' b e
  Returns-then_do (db, err y) f h k db' b e = cc
