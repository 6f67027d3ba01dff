-- ===== src/Config/Loading.antt =====
-- `Load` and `LoadFromFile`, over the YAML decoder with known fields only, the validator of the
-- struct tags, and the files.
use mathlib.Core.Option.{some-ne-none}
use shipinator.Common.{
  ◌≡◌, ◌≢◌, ◌↔◌, ◌⊎◌, inl, inr, refl, sym, ap, ◌∙◌, String, Bool, true, false, ◌&&◌, Option, none,
  some, [], if◌then◌else◌,
}
use shipinator.Errors.{Error, errorf, wrap, Result, ok, err}
use shipinator.Config.{BuildConfig, TestConfig, DeployConfig, ShipinatorConfig}

-- `== nil`
abbrev pub is_nil {ℓ} : {A : Type ℓ} → Option A → Bool
is_nil none = true
is_nil (some _) = false

abbrev pub is_empty : ShipinatorConfig → Bool
is_empty cfg = is_nil cfg.build && (is_nil cfg.test && is_nil cfg.deploy)

module _ {Reader : Type 0} (decode : Reader → Result ShipinatorConfig)
    (validate : ShipinatorConfig → Option Error) where
  -- `Load` from the validation on.
  unfoldable pub validated : ShipinatorConfig → Option Error → Result ShipinatorConfig
  validated cfg none = ok cfg
  validated cfg (some e) = err (wrap "validating config: %w" [] e)

  -- `Load` from the decoded value on.
  unfoldable pub decoded : Result ShipinatorConfig → Result ShipinatorConfig
  unfolding validated
  decoded (err e) = err (wrap "parsing config: %w" [] e)
  decoded (ok cfg) =
      if is_empty cfg
      then err (errorf "config must define at least one of: build, test, deploy" [])
      else validated cfg (validate cfg)

  unfoldable pub load : Reader → Result ShipinatorConfig
  unfolding decoded
  load r = decoded (decode r)

  unfoldable pub load_from_file : (String → Result Reader) → String → Result ShipinatorConfig
  unfolding load
  load_from_file open_file path = opened (open_file path)
    where
      opened : Result Reader → Result ShipinatorConfig
      opened (err e) = err (wrap "opening config file: %w" [] e)
      opened (ok r) = load r

  abbrev loaded : Result ShipinatorConfig → ShipinatorConfig → ShipinatorConfig
  loaded (ok cfg) other = cfg
  loaded (err e) other = other

  -- Some stage is there.
  abbrev pub HasStage : ShipinatorConfig → Type 0
  HasStage cfg = (cfg.build ≢ none) ⊎ ((cfg.test ≢ none) ⊎ (cfg.deploy ≢ none))

  is_empty-HasStage : (cfg : ShipinatorConfig) → is_empty cfg ≡ false → HasStage cfg
  is_empty-HasStage cfg h = go cfg.build cfg.test cfg.deploy h
    where
      go :
          (b : Option BuildConfig) (t : Option TestConfig) (d : Option DeployConfig)
          → is_nil b && (is_nil t && is_nil d) ≡ false
          → (b ≢ none) ⊎ ((t ≢ none) ⊎ (d ≢ none))
      go (some x) t d h = inl (some-ne-none x)
      go none (some x) d h = inr (inl (some-ne-none x))
      go none none (some x) h = inr (inr (some-ne-none x))
      go none none none h = cc

  HasStage-is_empty : (cfg : ShipinatorConfig) → HasStage cfg → is_empty cfg ≡ false
  HasStage-is_empty cfg h = go cfg.build cfg.test cfg.deploy h
    where
      go :
          (b : Option BuildConfig) (t : Option TestConfig) (d : Option DeployConfig)
          → (b ≢ none) ⊎ ((t ≢ none) ⊎ (d ≢ none))
          → is_nil b && (is_nil t && is_nil d) ≡ false
      go (some x) t d h = refl
      go none (some x) d h = refl
      go none none (some x) h = refl
      go none none none (inl n) = absurd (n refl)
      go none none none (inr (inl n)) = absurd (n refl)
      go none none none (inr (inr n)) = absurd (n refl)

  -- `Load` returns a configuration exactly where it was decoded, has one of the three stages, and
  -- was accepted by the validator.
  load_iff :
      (r : Reader) (cfg : ShipinatorConfig)
      → load r ≡ ok cfg ↔ ((decode r ≡ ok cfg) × (is_empty cfg ≡ false) × (validate cfg ≡ none))
  unfolding load
  load_iff r cfg = (there (decode r), λ (d, n, v). rw d (rw n (rw v refl)))
    where
      validated_ok :
          (c : ShipinatorConfig) (o : Option Error)
          → validated c o ≡ ok cfg
          → (c ≡ cfg) × (o ≡ none)
      validated_ok c none h = (ap (λ x. loaded x c) h, refl)
      validated_ok c (some e) h = cc

      split :
          (c : ShipinatorConfig) (b : Bool) (o : Option Error)
          → is_empty c ≡ b
          → validate c ≡ o
          → (if b
              then err (errorf "config must define at least one of: build, test, deploy" [])
              else validated c o)
            ≡ ok cfg
          → (◌≡◌ {A = Result ShipinatorConfig} (ok c) (ok cfg))
            × (is_empty cfg ≡ false)
            × (validate cfg ≡ none)
      split c true o e f h = cc
      split c false o e f h =
          let (p, q) = validated_ok c o h in
          (ap ok p, ap is_empty (sym p) ∙ e, ap validate (sym p) ∙ (f ∙ q))

      there :
          (x : Result ShipinatorConfig)
          → decoded x ≡ ok cfg
          → (x ≡ ok cfg) × (is_empty cfg ≡ false) × (validate cfg ≡ none)
      there (err e) h = cc
      there (ok c) h = split c (is_empty c) (validate c) refl refl h

  -- `LoadFromFile` returns a configuration exactly where the file was opened, its text was decoded
  -- to it, it has a build, a test or a deploy stage, and it was accepted by the validator.
  pub load_from_file_iff :
      (open_file : String → Result Reader) (path : String) (cfg : ShipinatorConfig)
      → load_from_file open_file path ≡ ok cfg ↔ (
          (r : Reader) × (open_file path ≡ ok r)
          × (decode r ≡ ok cfg)
          × HasStage cfg
          × (validate cfg ≡ none))
  unfolding load_from_file
  load_from_file_iff open_file path cfg = (
    there (open_file path),
    λ (r, o, d, n, v). rw o ((load_iff r cfg).1 (d, HasStage-is_empty cfg n, v)),
  )
    where
      there :
          (x : Result Reader)
          → elim x [ err e ↦ err (wrap "opening config file: %w" [] e) | ok r ↦ load r ] ≡ ok cfg
          → (r : Reader) × (x ≡ ok r) × (decode r ≡ ok cfg) × HasStage cfg × (validate cfg ≡ none)
      there (err e) h = cc
      there (ok r) h =
          let (d, n, v) = (load_iff r cfg).0 h in (r, refl, d, is_empty-HasStage cfg n, v)
