-- ===== src/Effects/Judgements.antt =====
-- What holds of a program because it holds of its calls.
use shipinator.Common.{Bool, true, false, Option, none, some, if◌then◌else◌}
use shipinator.Errors.{Error, Result, ok, err}
use shipinator.Effects.{Call, Reply, Prog, ret, call, ◌>>=◌, check, given}
use shipinator.Effects.Only.{Only, Only-bind}

-- A predicate of programs that is kept by `ret`, by the calls of a kind and by `>>=`.
pub record Judgement (K : Call → Type 0) : Type 1 where
  pub J : {A : Type 0} → Prog A → Type 0
  pub returns : {A : Type 0} (a : A) → J (ret a)
  pub calls :
      {A : Type 0} {c : Call} {k : Reply c → Prog A}
      → K c
      → ((r : Reply c) → J (k r))
      → J (call c k)
  pub binds : {A B : Type 0} (p : Prog A) (f : A → Prog B) → J p → ((a : A) → J (f a)) → J (p >>= f)

module _ {K : Call → Type 0} (j : Judgement K) where
  open j use {J, returns}

  pub checks :
      {A : Type 0} (o : Option Error) (out : Error → A) (rest : Prog A)
      → J rest
      → J (check o out rest)
  checks none out rest h = h
  checks (some e) out rest h = returns (out e)

  pub gives :
      {A B : Type 0} (r : Result A) (out : Error → B) (rest : A → Prog B)
      → ((a : A) → J (rest a))
      → J (given r out rest)
  gives (ok a) out rest h = h a
  gives (err e) out rest h = returns (out e)

  pub branches : {A : Type 0} (b : Bool) (p q : Prog A) → J p → J q → J (if b then p else q)
  branches true p q h k = h
  branches false p q h k = k

abbrev pub only_judgement : (K : Call → Type 0) → Judgement K
only_judgement K = record {
  J = λ p. Only K p;
  returns = λ a. tt;
  calls = λ h k. (h, k);
  binds = λ p f h k. Only-bind K p f h k;
}
