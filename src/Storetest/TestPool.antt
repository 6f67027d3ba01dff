-- ===== src/Storetest/TestPool.antt =====
-- `NewTestPool` of internal/store/storetest/helpers.go, over the calls of os, pgx and golibs.
-- `t.Fatalf` ends the helper with an error.
use mathlib.Core.Path.{subst}
use shipinator.Common.{
  ◌↔◌, ◌⊎◌, ◌≢◌, inl, inr, ◌≡◌, refl, String, ◌<>◌, Option, none, some, ◌==◌, string_eq,
  if◌then◌else◌,
}
use shipinator.Errors.{Error, Result, ok, err}
use shipinator.Server.{PostgresConfig}

-- `os.Getenv`, `uuid.New().String()` without its dashes, `pgx.Identifier.Sanitize` of one name,
-- `postgres.NewPool`, `postgres.ClosePool`, `Exec` of a pool and `Migrate`, on what they act on.
pub record Services : Type 1 where
  pub World : Type 0
  pub Pool : Type 0
  pub getenv : String → String
  pub sanitize : String → String
  pub new_pool : PostgresConfig → World → World × Result Pool
  pub close_pool : Pool → World → World
  pub exec : Pool → String → World → World × Option Error
  pub migrate : PostgresConfig → String → World → World × Option Error

module _ (s : Services) where
  open s use {World, Pool, getenv, sanitize, new_pool, close_pool, exec, migrate}

  unfoldable pub env_or_default : String → String → String
  env_or_default key fallback = let v = getenv key in if v == "" then fallback else v

  -- The server of the tests, with a database on it.
  unfoldable pub test_config : String → PostgresConfig
  unfolding env_or_default
  test_config db_name = record {
    host = env_or_default "SHIPINATOR_TEST_DB_HOST" "localhost";
    port = env_or_default "SHIPINATOR_TEST_DB_PORT" "5432";
    user = env_or_default "SHIPINATOR_TEST_DB_USER" "postgres";
    password = env_or_default "SHIPINATOR_TEST_DB_PASSWORD" "postgres";
    db_name = db_name;
    ssl_mode = env_or_default "SHIPINATOR_TEST_DB_SSLMODE" "disable";
  }

  -- The steps of the helper, each with the answer of the call before it.
  unfoldable pub after_migrations : String → World × Option Error → World × Result Pool
  unfolding test_config
  after_migrations db_name (w, some e) = (w, err e)
  after_migrations db_name (w, none) = new_pool (test_config db_name) w

  unfoldable pub after_creation :
      String → String → Pool → World × Option Error → World × Result Pool
  unfolding after_migrations
  after_creation db_name migrations admin (w, some e) = (close_pool admin w, err e)
  after_creation db_name migrations admin (w, none) =
      after_migrations db_name (migrate (test_config db_name) migrations (close_pool admin w))

  unfoldable pub after_connection : String → String → World × Result Pool → World × Result Pool
  unfolding after_creation
  after_connection db_name migrations (w, err e) = (w, err e)
  after_connection db_name migrations (w, ok admin) =
      after_creation db_name migrations admin
        (exec admin ("CREATE DATABASE " <> sanitize db_name) w)

  -- `unique` is the UUID in the name, and `migrations` the path that `migrationsDir` makes.
  unfoldable pub new_test_pool : String → String → World → World × Result Pool
  unfolding after_connection
  new_test_pool unique migrations w =
      after_connection ("shipinator_test_" <> unique) migrations
        (new_pool (test_config "postgres") w)

  -- What `t.Cleanup` is given; its errors are logged only.
  unfoldable pub dropped : String → World × Result Pool → World
  dropped db_name (w, err e) = w
  dropped db_name (w, ok admin) =
      close_pool admin (exec admin ("DROP DATABASE IF EXISTS " <> sanitize db_name) w).0

  unfoldable pub cleanup : String → Pool → World → World
  unfolding dropped
  cleanup unique pool w =
      dropped ("shipinator_test_" <> unique) (new_pool (test_config "postgres") (close_pool pool w))

  -- The end of a test that asked for the pool: `t.Cleanup` runs if the pool was returned, after
  -- `body`, whatever the test does.
  unfoldable pub end_of_test : String → (Pool → World → World) → World × Result Pool → World
  unfolding cleanup
  end_of_test unique body (w, ok pool) = cleanup unique pool (body pool w)
  end_of_test unique body (w, err e) = w

  -- What is relied on of the pools: which are open. A pool that is made is a new one; `ClosePool`
  -- closes its pool, and has no effect if it is closed already.
  pub record Tracked : Type 1 where
    pub IsOpen : World → Pool → Type 0
    pub fresh :
        (c : PostgresConfig) (w w' : World) (pool : Pool)
        → new_pool c w ≡ (w', ok pool)
        → ¬ IsOpen w pool
    pub opens :
        (c : PostgresConfig) (w w' : World) (pool : Pool)
        → new_pool c w ≡ (w', ok pool)
        → (q : Pool) → IsOpen w' q ↔ (IsOpen w q ⊎ (q ≡ pool))
    pub fails :
        (c : PostgresConfig) (w w' : World) (e : Error)
        → new_pool c w ≡ (w', err e)
        → (q : Pool) → IsOpen w' q ↔ IsOpen w q
    pub closes :
        (pool : Pool) (w : World) (q : Pool)
        → IsOpen (close_pool pool w) q ↔ (IsOpen w q × (q ≢ pool))
    pub execs :
        (pool : Pool) (s : String) (w : World) (q : Pool) → IsOpen (exec pool s w).0 q ↔ IsOpen w q
    pub migrates :
        (c : PostgresConfig) (dir : String) (w : World) (q : Pool)
        → IsOpen (migrate c dir w).0 q ↔ IsOpen w q

  module _ (tracked : Tracked) where
    open tracked use {IsOpen, fresh, opens, fails, closes, execs, migrates}

    -- The same pools are open.
    abbrev pub Same : World → World → Type 0
    Same w w' = (q : Pool) → IsOpen w' q ↔ IsOpen w q

    Same-trans : (u v w : World) → Same u v → Same v w → Same u w
    Same-trans u v w f g q = ((λ h. (f q).0 ((g q).0 h)), λ h. (g q).1 ((f q).1 h))

    -- A new pool is open beside those before, or it could not be made and the same are open.
    abbrev pub IsBalanced : World → World × Result Pool → Type 0
    IsBalanced w (w', ok pool) =
        (¬ IsOpen w pool) × ((q : Pool) → IsOpen w' q ↔ (IsOpen w q ⊎ (q ≡ pool)))
    IsBalanced w (w', err e) = Same w w'

    new_pool-IsBalanced : (c : PostgresConfig) (w : World) → IsBalanced w (new_pool c w)
    new_pool-IsBalanced c w = go (new_pool c w) refl
      where
        go : (x : World × Result Pool) → new_pool c w ≡ x → IsBalanced w x
        go (w', ok pool) e = (fresh c w w' pool e, opens c w w' pool e)
        go (w', err y) e = fails c w w' y e

    Same-IsBalanced :
        (u v : World) (x : World × Result Pool) → Same u v → IsBalanced v x → IsBalanced u x
    Same-IsBalanced u v (w, ok pool) f (n, g) = (
      (λ h. n ((f pool).1 h)),
      λ q. (
        (λ h. elim ((g q).0 h) [ inl i ↦ inl ((f q).0 i) | inr e ↦ inr e ]),
        elim [ inl i ↦ (g q).1 (inl ((f q).1 i)) | inr e ↦ (g q).1 (inr e) ],
      ),
    )
    Same-IsBalanced u v (w, err e) f g = Same-trans u v w f g

    -- A pool that was made and is closed, with nothing opened or closed between.
    closed_again :
        (u v w : World) (pool : Pool)
        → IsBalanced u (v, ok pool)
        → Same v w
        → Same u (close_pool pool w)
    closed_again u v w pool (n, g) f q = (
      (λ h.
          let (i, differs) = (closes pool w q).0 h in
          elim ((g q).0 ((f q).0 i)) [ inl j ↦ j | inr e ↦ absurd (differs e) ]),
      (λ i. (closes pool w q).1 ((f q).1 ((g q).1 (inl i)), λ e. n (subst (IsOpen u) e i))),
    )

    after_migrations-IsBalanced :
        (db_name : String) (x : World × Option Error) → IsBalanced x.0 (after_migrations db_name x)
    unfolding after_migrations
    after_migrations-IsBalanced db_name (w, some e) = λ q. ((λ h. h), λ h. h)
    after_migrations-IsBalanced db_name (w, none) = new_pool-IsBalanced (test_config db_name) w

    after_creation-IsBalanced :
        (db_name migrations : String) (admin : Pool) (u v : World) (x : World × Option Error)
        → IsBalanced u (v, ok admin)
        → Same v x.0
        → IsBalanced u (after_creation db_name migrations admin x)
    unfolding after_creation
    after_creation-IsBalanced db_name migrations admin u v (w, some e) h f =
        closed_again u v w admin h f
    after_creation-IsBalanced db_name migrations admin u v (w, none) h f =
        let closed = close_pool admin w in
        let migrated = migrate (test_config db_name) migrations closed in
        Same-IsBalanced u migrated.0 (after_migrations db_name migrated)
          (Same-trans u closed migrated.0 (closed_again u v w admin h f)
            (migrates (test_config db_name) migrations closed))
          (after_migrations-IsBalanced db_name migrated)

    -- Whichever call fails, `NewTestPool` leaves the pool that it returns open beside those that
    -- were, and none if it ends the test.
    new_test_pool-IsBalanced :
        (unique migrations : String) (w : World) → IsBalanced w (new_test_pool unique migrations w)
    unfolding new_test_pool after_connection
    new_test_pool-IsBalanced unique migrations w =
        go (new_pool (test_config "postgres") w) (new_pool-IsBalanced (test_config "postgres") w)
      where
        go :
            (x : World × Result Pool)
            → IsBalanced w x
            → IsBalanced w (after_connection ("shipinator_test_" <> unique) migrations x)
        go (w', err e) h = h
        go (w', ok admin) h =
            after_creation-IsBalanced ("shipinator_test_" <> unique) migrations admin w w'
              (exec admin ("CREATE DATABASE " <> sanitize ("shipinator_test_" <> unique)) w') h
              (execs admin ("CREATE DATABASE " <> sanitize ("shipinator_test_" <> unique)) w')

    -- The cleanup closes the pool of the test, and leaves open what else was.
    dropped-Same :
        (db_name : String) (w : World) (x : World × Result Pool)
        → IsBalanced w x
        → Same w (dropped db_name x)
    unfolding dropped
    dropped-Same db_name w (w', err e) h = h
    dropped-Same db_name w (w', ok admin) h =
        closed_again w w' (exec admin ("DROP DATABASE IF EXISTS " <> sanitize db_name) w').0 admin h
          (execs admin ("DROP DATABASE IF EXISTS " <> sanitize db_name) w')

    -- Whatever fails on the way: a test whose own code leaves the same pools open as it finds, the
    -- pool of `NewTestPool` included, leaves exactly those open that were before `NewTestPool`.
    pub end_of_test-new_test_pool :
        (unique migrations : String) (body : Pool → World → World) (w : World)
        → ((pool : Pool) (v : World) → Same v (body pool v))
        → Same w (end_of_test unique body (new_test_pool unique migrations w))
    unfolding end_of_test cleanup
    end_of_test-new_test_pool unique migrations body w f =
        go (new_test_pool unique migrations w) (new_test_pool-IsBalanced unique migrations w)
      where
        go : (x : World × Result Pool) → IsBalanced w x → Same w (end_of_test unique body x)
        go (v, ok pool) h =
            let closed = close_pool pool (body pool v) in
            Same-trans w closed _ (closed_again w v (body pool v) pool h (f pool v)) (
              dropped-Same ("shipinator_test_" <> unique) closed
                (new_pool (test_config "postgres") closed)
                (new_pool-IsBalanced (test_config "postgres") closed))
        go (v, err e) h = h
