-- ===== src/Server/Start.antt =====
-- cmd/server/main.go. The calls of slog, golibs and echo are parameters, with the answers of the
-- waiting ones in the moves; the attributes of the log messages are left out.
pub mod Laws
use shipinator.Common.{ℕ, String, Bool, Option, none, some, List, [], ◌∷◌, ◌++◌, if◌then◌else◌}
use shipinator.Errors.{Error, Result, ok, err}
use shipinator.Server.{Config, PostgresConfig, postgres_config, Viper, load}

-- `level.UnmarshalText`, `Migrate` with its directory, `postgres.NewPool`, and `errors.Is` for
-- http.ErrServerClosed.
pub record Libraries : Type 1 where
  pub Pool : Type 0
  pub unmarshal_level : String → Option Error
  pub migrate : PostgresConfig → String → Option Error
  pub new_pool : PostgresConfig → Result Pool
  pub is_server_closed : Error → Bool

-- What the process does, in order. A route is one of GET, with the status and the text of its
-- answer.
pub data Event {ℓ} (Pool : Type ℓ) : Type ℓ where
  info : String → Event Pool
  failure : String → Event Pool
  notify_context : Event Pool
  migrated : PostgresConfig → String → Event Pool
  pool_opened : PostgresConfig → Event Pool
  route : String → ℕ → String → Event Pool
  listen : String → Event Pool
  shutdown : Event Pool
  pool_closed : Pool → Event Pool
  context_stopped : Event Pool

-- Where `main` is once it has set everything up, and its goroutine.
pub data Place : Type 0 where
  awaiting_signal : Place
  in_shutdown : Place

pub data Listener : Type 0 where
  ready : Listener
  serving : Listener
  ended : Listener

pub data Process {ℓ} (Pool : Type ℓ) : Type ℓ where
  running : Place → Listener → Config → Pool → List (Event Pool) → Process Pool
  exited : ℕ → List (Event Pool) → Process Pool

-- The goroutine starts to listen, `e.Start` returns, a signal arrives, `e.Shutdown` returns.
pub data Move : Type 0 where
  begin : Move
  started : Option Error → Move
  signal : Move
  stopped : Option Error → Move

module _ (v : Viper) (l : Libraries) where
  open l use {Pool, unmarshal_level, migrate, new_pool, is_server_closed}

  -- What `main` has done when the migrations have been tried, and when they are applied.
  abbrev pub tried : Config → List (Event Pool)
  tried cfg =
      info "config loaded"
      ∷ notify_context
      ∷ info "running database migrations"
      ∷ migrated (postgres_config cfg.db) "migrations"
      ∷ []

  abbrev pub connected : Config → List (Event Pool)
  connected cfg =
      tried cfg ++ (info "database migrations complete" ∷ pool_opened (postgres_config cfg.db) ∷ [])

  -- `main` from the pool on, up to the wait for a signal. The stores that it makes are dropped.
  unfoldable pub after_pool : Config → Result Pool → Process Pool
  after_pool cfg (err e) =
      exited 1 (connected cfg ++ (failure "failed to create database pool" ∷ []))
  after_pool cfg (ok pool) =
      running awaiting_signal ready cfg pool (connected cfg ++ (route "/healthz" 200 "ok" ∷ []))

  unfoldable pub after_migrate : Config → Option Error → Process Pool
  unfolding after_pool
  after_migrate cfg (some e) = exited 1 (tried cfg ++ (failure "failed to run migrations" ∷ []))
  after_migrate cfg none = after_pool cfg (new_pool (postgres_config cfg.db))

  unfoldable pub after_level : Config → Option Error → Process Pool
  unfolding after_migrate
  after_level cfg (some e) = exited 1 (failure "invalid log level" ∷ [])
  after_level cfg none = after_migrate cfg (migrate (postgres_config cfg.db) "migrations")

  unfoldable pub after_load : Result Config → Process Pool
  unfolding after_level
  after_load (err e) = exited 1 (failure "failed to load config" ∷ [])
  after_load (ok cfg) = after_level cfg (unmarshal_level cfg.log_level)

  -- `main` with the path of its flag, up to the wait for a signal.
  unfoldable pub main : String → Process Pool
  unfolding after_load
  main config_path = after_load (load v config_path)

  -- The goroutine after `e.Start`.
  unfoldable pub after_start :
      Place → Config → Pool → List (Event Pool) → Option Error → Process Pool
  after_start at cfg pool log none = running at ended cfg pool log
  after_start at cfg pool log (some e) =
      if is_server_closed e
      then running at ended cfg pool log
      else exited 1 (log ++ (failure "server error" ∷ []))

  -- `main` after `e.Shutdown`: a return runs the deferred calls, the last first, and os.Exit none.
  unfoldable pub after_shutdown : Pool → List (Event Pool) → Option Error → Process Pool
  after_shutdown pool log (some e) = exited 1 (log ++ (failure "shutdown error" ∷ []))
  after_shutdown pool log none =
      exited 0 (log ++ (info "server stopped" ∷ pool_closed pool ∷ context_stopped ∷ []))

  -- One move; a process that is not at it stays.
  unfoldable pub advance : Move → Process Pool → Process Pool
  unfolding after_start after_shutdown
  advance begin (running at ready cfg pool log) =
      running at serving cfg pool (log ++ (info "server starting" ∷ listen cfg.listen_addr ∷ []))
  advance (started r) (running at serving cfg pool log) = after_start at cfg pool log r
  advance signal (running awaiting_signal thread cfg pool log) =
      running in_shutdown thread cfg pool (log ++ (info "shutting down server" ∷ shutdown ∷ []))
  advance (stopped r) (running in_shutdown thread cfg pool log) = after_shutdown pool log r
  advance _ q = q

  unfoldable pub advance_all : List Move → Process Pool → Process Pool
  unfolding advance
  advance_all [] q = q
  advance_all (m ∷ ms) q = advance_all ms (advance m q)
