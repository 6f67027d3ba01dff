-- ===== src/Effects/Lasts.antt =====
-- Programs that hang only after some ticks of a poll.
use shipinator.Common.{ℕ, ◌+◌, ◌-◌, ◌≤◌, ◌≡◌, ◌∷◌, arith}
use shipinator.Effects.{Call, Reply, tick, Prog, ret, call, hang, ◌>>=◌}
use shipinator.Effects.Logic.{Trace, event, Stalls, Stalls_mono}
use shipinator.Effects.Logs.{ticks}
use shipinator.Effects.Judgements.{Judgement}

abbrev pub spent : (c : Call) → Reply c → ℕ
spent Call.select tick = 1
spent _ _ = 0

-- The program hangs only after `k` ticks at least.
abbrev pub Lasts : {A : Type 0} → ℕ → Prog A → Type 0
Lasts k (ret a) = Unit
Lasts k (call c f) = (r : Reply c) → Lasts (k - spent c r) (f r)
Lasts k hang = k ≡ 0

pub Lasts-le : {A : Type 0} (p : Prog A) (j k : ℕ) → j ≤ k → Lasts k p → Lasts j p
Lasts-le (ret a) j k h l = tt
Lasts-le (call c f) j k h l =
    λ r. Lasts-le (f r) (j - spent c r) (k - spent c r) (omega (arith, h)) (l r)
Lasts-le hang j k h l = omega (arith, h, l)

pub Lasts-bind :
    {A B : Type 0} (p : Prog A) (k : ℕ) (f : A → Prog B)
    → Lasts k p
    → ((a : A) → Lasts k (f a))
    → Lasts k (p >>= f)
Lasts-bind (ret a) k f h g = g a
Lasts-bind (call c next) k f h g = λ r.
    Lasts-bind (next r) (k - spent c r) f (h r)
      (λ a. Lasts-le (f a) (k - spent c r) k (omega arith) (g a))
Lasts-bind hang k f h g = h

abbrev pub lasting : ℕ → Judgement (λ _. Unit)
lasting k = record {
  J = λ p. Lasts k p;
  returns = λ a. tt;
  calls = λ _ h r. Lasts-le _ (k - spent _ r) k (omega arith) (h r);
  binds = λ p f h g. Lasts-bind p k f h g;
}

ticks-cons : (c : Call) (r : Reply c) (t : Trace) → ticks (event c r ∷ t) ≡ spent c r + ticks t
ticks-cons Call.select tick t = omega arith
ticks-cons _ _ t = omega arith

pub Lasts-Stalls : {A : Type 0} (p : Prog A) (k : ℕ) → Lasts k p → Stalls p (λ t. k ≤ ticks t)
Lasts-Stalls (ret a) k h = tt
Lasts-Stalls (call c f) k h = λ r.
    Stalls_mono (f r) (λ t l. omega (arith, l, ticks-cons c r t))
      (Lasts-Stalls (f r) (k - spent c r) (h r))
Lasts-Stalls hang k h = omega (arith, h)
