-- ===== src/Server/Start/Laws.antt =====
-- What holds of the server's process after any moves.
use mathlib.Core.List.{append_assoc}
use shipinator.Common.{
  zero, suc, ◌≡◌, refl, sym, ap, ◌∙◌, ◌⊎◌, inl, inr, String, Bool, true, false, Option, none, some,
  List, [], ◌∷◌, ◌++◌, if◌then◌else◌, All, All-append,
}
use shipinator.Errors.{Error, Result, ok, err}
use shipinator.Server.{Config, postgres_config, Viper, load}
use shipinator.Server.Start.{
  Libraries, Event, info, failure, listen, migrated, pool_opened, shutdown, pool_closed,
  context_stopped, Place, awaiting_signal, in_shutdown, ready, serving, ended, Process, running,
  exited, Move, begin, started, signal, stopped, after_load, after_level, after_migrate, after_pool,
  main, after_start, after_shutdown, advance, advance_all,
}

module _ {ℓ} {Pool : Type ℓ} where
  -- What a process does for a configuration: one database, one address, and
  -- neither of the deferred calls.
  abbrev pub Fits : Config → Event Pool → Type 0
  Fits cfg (listen addr) = addr ≡ cfg.listen_addr
  Fits cfg (migrated c dir) = (c ≡ postgres_config cfg.db) × (dir ≡ "migrations")
  Fits cfg (pool_opened c) = c ≡ postgres_config cfg.db
  Fits cfg (pool_closed pool) = ⊥
  Fits cfg context_stopped = ⊥
  Fits cfg _ = Unit

  -- No listening and no deferred call.
  abbrev pub Idle : Event Pool → Type 0
  Idle (listen addr) = ⊥
  Idle (pool_closed pool) = ⊥
  Idle context_stopped = ⊥
  Idle _ = Unit

  -- `e.Shutdown` has been called.
  abbrev pub Asked : List (Event Pool) → Type ℓ
  Asked log = (before after : List (Event Pool)) × (log ≡ before ++ (shutdown ∷ after))

  abbrev pub AskedAt : Place → List (Event Pool) → Type ℓ
  AskedAt awaiting_signal log = Unit
  AskedAt in_shutdown log = Asked log

  Asked-append : (log more : List (Event Pool)) → Asked log → Asked (log ++ more)
  Asked-append log more (before, after, e) =
      (before, after ++ more, ap (λ x. x ++ more) e ∙ append_assoc before (shutdown ∷ after) more)

  AskedAt-append :
      (at : Place) (log more : List (Event Pool)) → AskedAt at log → AskedAt at (log ++ more)
  AskedAt-append awaiting_signal log more h = tt
  AskedAt-append in_shutdown log more h = Asked-append log more h

module _ (v : Viper) (l : Libraries) (config_path : String) where
  -- The configuration and the database are those that `main` goes on with.
  abbrev pub IsReady : Config → l.Pool → Type 0
  IsReady cfg pool =
      (load v config_path ≡ ok cfg)
      × (l.unmarshal_level cfg.log_level ≡ none)
      × (l.migrate (postgres_config cfg.db) "migrations" ≡ none)
      × (l.new_pool (postgres_config cfg.db) ≡ ok pool)

  -- A running process has what it needs. Code 0 follows a shutdown and runs the deferred calls
  -- last; every other exit has code 1 and runs none of them.
  abbrev pub IsOrderly : Process l.Pool → Type 0
  IsOrderly (running at thread cfg pool log) =
      IsReady cfg pool × All (Fits cfg) log × AskedAt at log
  IsOrderly (exited zero log) =
      (cfg : Config) × (pool : l.Pool) × (before : List (Event l.Pool)) × IsReady cfg pool
      × All (Fits cfg) before
      × Asked before
      × (log ≡ before ++ (info "server stopped" ∷ pool_closed pool ∷ context_stopped ∷ []))
  IsOrderly (exited (suc n) log) =
      (n ≡ 0)
      × (All Idle log ⊎ ((cfg : Config) × (pool : l.Pool) × IsReady cfg pool × All (Fits cfg) log))

  main-IsOrderly : IsOrderly (main v l config_path)
  unfolding main after_load after_level after_migrate after_pool
  main-IsOrderly = at_load (load v config_path) refl
    where
      at_pool :
          (cfg : Config) (x : Result l.Pool)
          → load v config_path ≡ ok cfg
          → l.unmarshal_level cfg.log_level ≡ none
          → l.migrate (postgres_config cfg.db) "migrations" ≡ none
          → l.new_pool (postgres_config cfg.db) ≡ x
          → IsOrderly (after_pool v l cfg x)
      at_pool cfg (err e) h k m n = (refl, inl (tt, (tt, (tt, (tt, (tt, (tt, (tt, tt))))))))
      at_pool cfg (ok pool) h k m n =
          ((h, k, m, n), (tt, (tt, (tt, ((refl, refl), (tt, (refl, (tt, tt))))))), tt)

      at_migrate :
          (cfg : Config) (x : Option Error)
          → load v config_path ≡ ok cfg
          → l.unmarshal_level cfg.log_level ≡ none
          → l.migrate (postgres_config cfg.db) "migrations" ≡ x
          → IsOrderly (after_migrate v l cfg x)
      at_migrate cfg (some e) h k m = (refl, inl (tt, (tt, (tt, (tt, (tt, tt))))))
      at_migrate cfg none h k m = at_pool cfg _ h k m refl

      at_level :
          (cfg : Config) (x : Option Error)
          → load v config_path ≡ ok cfg
          → l.unmarshal_level cfg.log_level ≡ x
          → IsOrderly (after_level v l cfg x)
      at_level cfg (some e) h k = (refl, inl (tt, tt))
      at_level cfg none h k = at_migrate cfg _ h k refl

      at_load : (x : Result Config) → load v config_path ≡ x → IsOrderly (after_load v l x)
      at_load (err e) h = (refl, inl (tt, tt))
      at_load (ok cfg) h = at_level cfg _ h refl

  after_start-IsOrderly :
      (at : Place) (cfg : Config) (pool : l.Pool) (log : List (Event l.Pool)) (r : Option Error)
      → IsOrderly (running at serving cfg pool log)
      → IsOrderly (after_start v l at cfg pool log r)
  unfolding after_start
  after_start-IsOrderly at cfg pool log none h = h
  after_start-IsOrderly at cfg pool log (some e) (g, fits, asked) = go (l.is_server_closed e)
    where
      go :
          (b : Bool)
          → IsOrderly (
              if b
              then running at ended cfg pool log
              else exited 1 (log ++ (failure "server error" ∷ [])))
      go true = (g, fits, asked)
      go false = (refl, inr (cfg, pool, g, All-append (Fits cfg) log _ fits (tt, tt)))

  after_shutdown-IsOrderly :
      (cfg : Config) (pool : l.Pool) (log : List (Event l.Pool)) (r : Option Error)
      → IsReady cfg pool
      → All (Fits cfg) log
      → Asked log
      → IsOrderly (after_shutdown v l pool log r)
  unfolding after_shutdown
  after_shutdown-IsOrderly cfg pool log none g fits asked = (cfg, pool, log, g, fits, asked, refl)
  after_shutdown-IsOrderly cfg pool log (some e) g fits asked =
      (refl, inr (cfg, pool, g, All-append (Fits cfg) log _ fits (tt, tt)))

  advance-IsOrderly : (m : Move) (q : Process l.Pool) → IsOrderly q → IsOrderly (advance v l m q)
  unfolding advance
  advance-IsOrderly begin (running at ready cfg pool log) (g, fits, asked) =
      (g, All-append (Fits cfg) log _ fits (tt, (refl, tt)), AskedAt-append at log _ asked)
  advance-IsOrderly begin (running at serving cfg pool log) h = h
  advance-IsOrderly begin (running at ended cfg pool log) h = h
  advance-IsOrderly (started r) (running at ready cfg pool log) h = h
  advance-IsOrderly (started r) (running at serving cfg pool log) h =
      after_start-IsOrderly at cfg pool log r h
  advance-IsOrderly (started r) (running at ended cfg pool log) h = h
  advance-IsOrderly signal (running awaiting_signal thread cfg pool log) (g, fits, asked) = (
    g,
    All-append (Fits cfg) log _ fits (tt, (tt, tt)),
    (
      log ++ (info "shutting down server" ∷ []),
      [],
      sym (append_assoc log (info "shutting down server" ∷ []) (shutdown ∷ [])),
    ),
  )
  advance-IsOrderly signal (running in_shutdown thread cfg pool log) h = h
  advance-IsOrderly (stopped r) (running awaiting_signal thread cfg pool log) h = h
  advance-IsOrderly (stopped r) (running in_shutdown thread cfg pool log) (g, fits, asked) =
      after_shutdown-IsOrderly cfg pool log r g fits asked
  advance-IsOrderly begin (exited n log) h = h
  advance-IsOrderly (started r) (exited n log) h = h
  advance-IsOrderly signal (exited n log) h = h
  advance-IsOrderly (stopped r) (exited n log) h = h

  advance_all-IsOrderly :
      (ms : List Move) (q : Process l.Pool) → IsOrderly q → IsOrderly (advance_all v l ms q)
  unfolding advance_all
  advance_all-IsOrderly [] q h = h
  advance_all-IsOrderly (m ∷ ms) q h =
      advance_all-IsOrderly ms (advance v l m q) (advance-IsOrderly m q h)

  -- After any moves of its goroutine, of the signals and of the libraries, the process is orderly:
  -- while it runs, the configuration was loaded, its level is one, the migrations of its database
  -- succeeded and the pool is of the same database, and it listens only at its address. It exits
  -- with 0 only after `e.Shutdown` was called, and then closes the pool and stops the context last;
  -- any other exit has code 1 and no deferred call runs.
  pub advance_all-main : (ms : List Move) → IsOrderly (advance_all v l ms (main v l config_path))
  advance_all-main ms = advance_all-IsOrderly ms _ main-IsOrderly
