-- ===== src/Tests/Settings.antt =====
-- The theorems about the two configurations and the server's start, at small data.
use shipinator.Common.{
  ℕ, List, [], ◌∷◌, ◌≡◌, ◌≢◌, ◌↔◌, refl, String, Option, none, some, true, false, string_eq,
}
use shipinator.Errors.{Error, Result, ok, external}
use shipinator.Config.{ShipinatorConfig}
use shipinator.Config.Loading
use shipinator.Config.Loading.{load_from_file_iff, HasStage, decoded, validated}
use shipinator.Server
use shipinator.Server.{
  Viper, Config, located, set_defaults, defaults, after_read, with_env, bind_all, checked,
}
use shipinator.Server.Laws.{load_lem}
use shipinator.Server.Start.{
  Libraries, Process, Move, running, exited, begin, started, signal, stopped, main, after_load,
  after_level, after_migrate, after_pool, after_start, after_shutdown, advance, advance_all,
}
use shipinator.Server.Start.Laws.{IsOrderly, advance_all-main}

abbrev deploy_only : ShipinatorConfig
deploy_only = record {
  build = none;
  test = none;
  deploy = some (record { artifact = "helm_chart"; target = "app"; namespace = "prod" });
}

abbrev decode : String → Result ShipinatorConfig
decode text = ok deploy_only

abbrev accept : ShipinatorConfig → Option Error
accept cfg = none

abbrev open_file : String → Result String
open_file path = ok "deploy"

load_from_file_iff_example :
    Loading.load_from_file decode accept open_file "ship.yaml" ≡ ok deploy_only ↔ (
      (r : String) × (open_file "ship.yaml" ≡ ok r)
      × (decode r ≡ ok deploy_only)
      × HasStage decode accept deploy_only
      × (accept deploy_only ≡ none))
load_from_file_iff_example = load_from_file_iff decode accept open_file "ship.yaml" deploy_only

abbrev settings : Config
settings = record {
  listen_addr = ":8080";
  db = record {
    host = "localhost";
    port = "5432";
    user = "postgres";
    password = "postgres";
    name = "shipinator";
    ssl_mode = "disable";
  };
  artifact_path = "/var/lib/shipinator/artifacts";
  kube_config = "";
  log_level = "info";
}

-- A viper with no file, whose environment names the database.
abbrev environment : Viper
environment = record {
  State = Unit;
  new = tt;
  set_default = λ k x s. s;
  set_config_type = λ t s. s;
  set_config_file = λ f s. s;
  set_config_name = λ n s. s;
  add_config_path = λ p s. s;
  read_in_config = λ s. (s, some (external "no config file"));
  is_not_found = λ e. true;
  set_env_prefix = λ p s. s;
  set_env_key_replacer = λ r s. s;
  automatic_env = λ s. s;
  bind_env = λ k s. (s, none);
  unmarshal = λ s. ok settings;
}

load_lem_example :
    (settings.db.name ≢ "")
    × ((e : Error) → some (external "no config file") ≡ some e → true ≡ true)
unfolding Server.load after_read with_env bind_all checked string_eq
load_lem_example = load_lem environment {cfg = settings} "" refl

-- A database that is always there, whose pool is a number.
abbrev installed : Libraries
installed = record {
  Pool = ℕ;
  unmarshal_level = λ s. none;
  migrate = λ c dir. none;
  new_pool = λ c. ok 1;
  is_server_closed = λ e. false;
}

-- A signal, and a server that closes as it should.
abbrev one_day : List Move
one_day = begin ∷ signal ∷ started none ∷ stopped none ∷ []

advance_all-main_example :
    IsOrderly environment installed ""
      (advance_all environment installed one_day (main environment installed ""))
advance_all-main_example = advance_all-main environment installed "" one_day

exit_code : Process ℕ → Option ℕ
exit_code (running at thread cfg pool log) = none
exit_code (exited n log) = some n

-- The process ends with code 0.
one_day_exit :
    exit_code (advance_all environment installed one_day (main environment installed "")) ≡ some 0
unfolding exit_code Server.load after_read with_env bind_all checked string_eq main after_load
    after_level after_migrate after_pool after_start after_shutdown advance advance_all
one_day_exit = refl
