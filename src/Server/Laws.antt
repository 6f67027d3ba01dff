-- ===== src/Server/Laws.antt =====
-- What a configuration that `Load` returned satisfies.
use mathlib.Core.Option.{none-ne-some, some-injective}
use shipinator.Common.{
  ◌≡◌, ◌≢◌, refl, sym, ap, ◌∙◌, String, Bool, true, false, Option, none, some, List, [], ◌∷◌, ◌==◌,
  string_eq, if◌then◌else◌, ne_of_test,
}
use shipinator.Errors.{Error, errorf, wrap, Result, ok, err}
use shipinator.Server.{
  Config, Viper, checked, bind_all, bound, bound_keys, with_env, after_read, load, located,
  set_defaults, defaults,
}

abbrev returned : Result Config → Config → Config
returned (ok cfg) other = cfg
returned (err e) other = other

module _ (v : Viper) {cfg : Config} where
  checked-named : (x : Result Config) → checked v x ≡ ok cfg → cfg.db.name ≢ ""
  unfolding checked
  checked-named (err e) h = cc
  checked-named (ok c) h = go (c.db.name == "") refl h
    where
      go :
          (b : Bool)
          → (c.db.name == "") ≡ b
          → (if b then err (errorf "db.name is required" []) else ok c) ≡ ok cfg
          → cfg.db.name ≢ ""
      go true e h = cc
      go false e h =
          let same : c ≡ cfg = ap (λ x. returned x c) h in
          ne_of_test cfg.db.name "" (ap (λ x. x.db.name == "") (sym same) ∙ e)

  bind_all-named :
      (keys : List String) (s : v.State) → bind_all v keys s ≡ ok cfg → cfg.db.name ≢ ""
  unfolding bind_all
  bind_all-named [] s h = checked-named (v.unmarshal s) h
  bind_all-named (key ∷ keys) s h = go (v.bind_env key s) (λ s. bind_all-named keys s) h
    where
      go :
          (x : v.State × Option Error)
          → ((s : v.State) → bind_all v keys s ≡ ok cfg → cfg.db.name ≢ "")
          → bound v key x (λ s. bind_all v keys s) ≡ ok cfg
          → cfg.db.name ≢ ""
      go (s, none) again h = again s h
      go (s, some e) again h = cc

  with_env-named : (s : v.State) → with_env v s ≡ ok cfg → cfg.db.name ≢ ""
  unfolding with_env
  with_env-named s h = bind_all-named (bound_keys v) _ h

  -- A configuration that `Load` returns names a database, and the only error that reading the
  -- file can have had is that there was none.
  pub load_lem :
      (config_path : String)
      → load v config_path ≡ ok cfg
      → (cfg.db.name ≢ "")
        × ((e : Error)
            → (v.read_in_config (
                located v config_path
                  (v.set_config_type "yaml" (set_defaults v (defaults v) v.new)))).1
              ≡ some e
            → v.is_not_found e ≡ true)
  unfolding load after_read
  load_lem config_path h =
      go
        (v.read_in_config
          (located v config_path (v.set_config_type "yaml" (set_defaults v (defaults v) v.new))))
        h
    where
      go :
          (x : v.State × Option Error)
          → after_read v x ≡ ok cfg
          → (cfg.db.name ≢ "") × ((e : Error) → x.1 ≡ some e → v.is_not_found e ≡ true)
      go (s, none) h = (with_env-named s h, λ e q. absurd (none-ne-some e q))
      go (s, some x) h = split (v.is_not_found x) refl h
        where
          split :
              (b : Bool)
              → v.is_not_found x ≡ b
              → (if b then with_env v s else err (wrap "reading config: %w" [] x)) ≡ ok cfg
              → (cfg.db.name ≢ "") × ((e : Error) → some x ≡ some e → v.is_not_found e ≡ true)
          split true e h =
              (with_env-named s h, λ y q. ap v.is_not_found (sym (some-injective _ _ q)) ∙ e)
          split false e h = cc
