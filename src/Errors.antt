-- ===== src/Errors.antt =====
-- Go's error values, as far as the program looks at them: what a chain of `%w` wraps.
use shipinator.Common.{◌≡◌, ap, String, List, Bool, false, ◌==◌, string_eq}

pub data Error : Type 0 where
  -- A package-level `errors.New`, named by its text.
  sentinel : String → Error
  -- An error made by code that is not the program's.
  external : String → Error
  -- `fmt.Errorf` with its format and arguments: without `%w`, and with.
  errorf : String → List String → Error
  wrap : String → List String → Error → Error

-- `errors.Is` for a sentinel.
unfoldable pub is_sentinel : String → Error → Bool
is_sentinel s (sentinel t) = t == s
is_sentinel s (external _) = false
is_sentinel s (errorf _ _) = false
is_sentinel s (wrap _ _ e) = is_sentinel s e

-- internal/orchestrator/errors.go and internal/store/errors.go
abbrev pub err_invalid_transition : Error
err_invalid_transition = sentinel "invalid state transition"

abbrev pub err_not_found : Error
err_not_found = sentinel "not found"

-- Go's `(T, error)`: the value where the error is nil.
pub data Result {ℓ} (A : Type ℓ) : Type ℓ where
  ok : A → Result A
  err : Error → Result A

value_or {ℓ} : {A : Type ℓ} → A → Result A → A
value_or other (ok a) = a
value_or other (err e) = other

pub ok-injective {ℓ} : {A : Type ℓ} {a b : A} → ok a ≡ ok b → a ≡ b
unfolding value_or
ok-injective {a = a} e = ap (value_or a) e
