-- ===== src/Tests/Pools.antt =====
-- The theorem about the test database, over a server on which the fourth connection fails.
use mathlib.Core.Bool.{Bool, true, false}
use mathlib.Core.Path.{subst}
use shipinator.Common.{
  ℕ, suc, ◌<◌, ltb, not, ◌&&◌, ◌||◌, ◌==◌, nat_eq, ◌≡◌, ◌≢◌, ◌↔◌, ◌⊎◌, none, arith,
}
use shipinator.Errors.{external, Result, ok, err}
use shipinator.Storetest.TestPool.{
  Services, Tracked, Same, new_test_pool, end_of_test, end_of_test-new_test_pool,
}

-- The pools are numbered; `made` counts them and `is_open` says which are not closed.
record Server : Type 0 where
  made : ℕ
  is_open : ℕ → Bool

abbrev IsOpen : Server → ℕ → Type 0
IsOpen s q = (q < s.made) × (s.is_open q ≡ true)

abbrev connect : Bool → Server → Server × Result ℕ
connect true s =
    (record { made = suc s.made; is_open = λ q. q == s.made || s.is_open q }, ok s.made)
connect false s = (s, err (external "too many clients"))

abbrev close : ℕ → Server → Server
close pool s = record { made = s.made; is_open = λ q. not (q == pool) && s.is_open q }

abbrev services : Services
services = record {
  World = Server;
  Pool = ℕ;
  getenv = λ key. "";
  sanitize = λ name. name;
  new_pool = λ c s. connect (ltb s.made 3) s;
  close_pool = close;
  exec = λ pool q s. (s, none);
  migrate = λ c dir s. (s, none);
}

close-IsOpen :
    (pool q n : ℕ) (b : Bool)
    → ((q < n) × ((not (q == pool) && b) ≡ true)) ↔ (((q < n) × (b ≡ true)) × (q ≢ pool))
close-IsOpen pool q n b = ground arith

connect-IsOpen :
    (q n : ℕ) (b : Bool)
    → ((q < suc n) × ((q == n || b) ≡ true)) ↔ (((q < n) × (b ≡ true)) ⊎ (q ≡ n))
connect-IsOpen q n b = ground arith

-- What a connection does, by its answer.
abbrev Connects : Server → Server × Result ℕ → Type 0
Connects s (s', ok pool) = (¬ IsOpen s pool) × ((q : ℕ) → IsOpen s' q ↔ (IsOpen s q ⊎ (q ≡ pool)))
Connects s (s', err e) = (q : ℕ) → IsOpen s' q ↔ IsOpen s q

connect-Connects : (b : Bool) (s : Server) → Connects s (connect b s)
connect-Connects true s = ((λ h. omega (arith, h.0)), λ q. connect-IsOpen q s.made (s.is_open q))
connect-Connects false s = λ q. ((λ h. h), λ h. h)

abbrev tracked : Tracked services
tracked = record {
  IsOpen = IsOpen;
  fresh = λ c s s' pool e. (subst (Connects s) e (connect-Connects (ltb s.made 3) s)).0;
  opens = λ c s s' pool e. (subst (Connects s) e (connect-Connects (ltb s.made 3) s)).1;
  fails = λ c s s' y e. subst (Connects s) e (connect-Connects (ltb s.made 3) s);
  closes = λ pool s q. close-IsOpen pool q s.made (s.is_open q);
  execs = λ pool x s q. ((λ h. h), λ h. h);
  migrates = λ c dir s q. ((λ h. h), λ h. h);
}

abbrev idle : Server
idle = record { made = 0; is_open = λ q. false }

end_of_test-new_test_pool_example :
    Same services tracked idle
      (end_of_test services "1a2b" (λ pool s. s) (new_test_pool services "1a2b" "migrations" idle))
end_of_test-new_test_pool_example =
    end_of_test-new_test_pool services tracked "1a2b" "migrations" (λ pool s. s) idle
      (λ pool s q. ((λ h. h), λ h. h))
