-- ===== src/Server.antt =====
-- internal/server/config/config.go. viper is a parameter.
pub mod Laws
pub mod Start
use shipinator.Common.{
  ◌≡◌, ◌≢◌, refl, ap, String, Bool, true, false, Option, none, some, List, [], ◌∷◌, ◌==◌, string_eq,
  if◌then◌else◌,
}
use shipinator.Errors.{Error, errorf, wrap, Result, ok, err}

pub record DbConfig : Type 0 where
  pub host : String
  pub port : String
  pub user : String
  pub password : String
  pub name : String
  pub ssl_mode : String

pub record Config : Type 0 where
  pub listen_addr : String
  pub db : DbConfig
  pub artifact_path : String
  pub kube_config : String
  pub log_level : String

-- `postgres.Config` of golibs, as far as it is set.
pub record PostgresConfig : Type 0 where
  pub host : String
  pub port : String
  pub user : String
  pub password : String
  pub db_name : String
  pub ssl_mode : String

unfoldable pub postgres_config : DbConfig → PostgresConfig
postgres_config db = record {
  host = db.host;
  port = db.port;
  user = db.user;
  password = db.password;
  db_name = db.name;
  ssl_mode = db.ssl_mode;
}

-- The calls of a *viper.Viper, on its state. `is_not_found` is `errors.As` for a
-- viper.ConfigFileNotFoundError, and the key replacer is given by its pairs.
pub record Viper : Type 1 where
  pub State : Type 0
  pub new : State
  pub set_default : String → String → State → State
  pub set_config_type : String → State → State
  pub set_config_file : String → State → State
  pub set_config_name : String → State → State
  pub add_config_path : String → State → State
  pub read_in_config : State → State × Option Error
  pub is_not_found : Error → Bool
  pub set_env_prefix : String → State → State
  pub set_env_key_replacer : List (String × String) → State → State
  pub automatic_env : State → State
  pub bind_env : String → State → State × Option Error
  pub unmarshal : State → Result Config

module _ (v : Viper) where
  open v use {
    State, new, set_default, set_config_type, set_config_file, set_config_name, add_config_path,
    read_in_config, is_not_found, set_env_prefix, set_env_key_replacer, automatic_env, bind_env,
    unmarshal,
  }

  abbrev pub set_defaults : List (String × String) → State → State
  set_defaults [] s = s
  set_defaults ((k, x) ∷ more) s = set_defaults more (set_default k x s)

  abbrev pub defaults : List (String × String)
  defaults =
      ("listen_addr", ":8080")
      ∷ ("artifact_path", "/var/lib/shipinator/artifacts")
      ∷ ("log_level", "info")
      ∷ ("db.host", "localhost")
      ∷ ("db.port", "5432")
      ∷ ("db.user", "postgres")
      ∷ ("db.password", "postgres")
      ∷ ("db.ssl_mode", "disable")
      ∷ []

  -- Where the file is looked for.
  unfoldable pub located : String → State → State
  located config_path s =
      if config_path == ""
      then add_config_path "/etc/shipinator" (add_config_path "." (set_config_name "config" s))
      else set_config_file config_path s

  abbrev pub bound_keys : List String
  bound_keys =
      "db.host" ∷ "db.port" ∷ "db.user" ∷ "db.password" ∷ "db.name" ∷ "db.ssl_mode" ∷ "kubeconfig"
      ∷ []

  -- The end of `Load`.
  unfoldable pub checked : Result Config → Result Config
  checked (err e) = err (wrap "unmarshalling config: %w" [] e)
  checked (ok cfg) = if cfg.db.name == "" then err (errorf "db.name is required" []) else ok cfg

  abbrev pub bound : String → State × Option Error → (State → Result Config) → Result Config
  bound key (s, none) next = next s
  bound key (s, some e) next = err (wrap "binding env for %s: %w" (key ∷ []) e)

  -- The loop that binds the keys, and the end.
  unfoldable pub bind_all : List String → State → Result Config
  unfolding checked
  bind_all [] s = checked (unmarshal s)
  bind_all (key ∷ keys) s = bound key (bind_env key s) (λ s. bind_all keys s)

  unfoldable pub with_env : State → Result Config
  unfolding bind_all
  with_env s = bind_all bound_keys (
      automatic_env
        (set_env_key_replacer ((".", "_") ∷ ("-", "_") ∷ []) (set_env_prefix "SHIPINATOR" s)))

  -- `Load` from the answer of `ReadInConfig` on.
  unfoldable pub after_read : State × Option Error → Result Config
  unfolding with_env
  after_read (s, none) = with_env s
  after_read (s, some e) =
      if is_not_found e then with_env s else err (wrap "reading config: %w" [] e)

  unfoldable pub load : String → Result Config
  unfolding located after_read
  load config_path =
      after_read
        (read_in_config (located config_path (set_config_type "yaml" (set_defaults defaults new))))
