-- ===== src/Effects/Logic.antt =====
-- What every execution of a program satisfies.
use mathlib.Core.Path.{subst}
use mathlib.Core.Option.{some-injective, none-ne-some, some-ne-none}
use shipinator.Common.{Option, none, some, List, [], ◌∷◌, ◌++◌, ◌≡◌}
use shipinator.Effects.{Call, Reply, Prog, ret, call, hang, ◌>>=◌}

pub data Event : Type 0 where
  event : (c : Call) → Reply c → Event

abbrev pub Trace : Type 0
Trace = List Event

-- The executions of a program: the calls with their answers, and the result if there is one.
pub data Executes {A : Type 0} : Prog A → Trace → Option A → Type 0 where
  returns : (a : A) → Executes (ret a) [] (some a)
  hangs : Executes hang [] none
  answers :
      (c : Call) {k : Reply c → Prog A} (r : Reply c) {t : Trace} {o : Option A}
      → Executes (k r) t o
      → Executes (call c k) (event c r ∷ t) o

-- `Q` holds of the trace and the result of every execution that returns.
abbrev pub Ensures : {A : Type 0} → Prog A → (Trace → A → Type 0) → Type 0
Ensures (ret a) Q = Q [] a
Ensures (call c k) Q = (r : Reply c) → Ensures (k r) (λ t a. Q (event c r ∷ t) a)
Ensures hang Q = Unit

pub Ensures-Executes :
    {A : Type 0} {p : Prog A} {t : Trace} {o : Option A}
    → Executes p t o
    → (Q : Trace → A → Type 0) → Ensures p Q
    → {a : A} → o ≡ some a
    → Q t a
Ensures-Executes (Executes.returns b) Q h e = subst (Q []) (some-injective _ _ e) h
Ensures-Executes Executes.hangs Q h e = absurd (none-ne-some _ e)
Ensures-Executes (Executes.answers c r x) Q h e =
    Ensures-Executes x (λ t a. Q (event c r ∷ t) a) (h r) e

pub Ensures_mono :
    {A : Type 0} (p : Prog A) {P Q : Trace → A → Type 0}
    → ((t : Trace) (a : A) → P t a → Q t a)
    → Ensures p P
    → Ensures p Q
Ensures_mono (ret a) f h = f [] a h
Ensures_mono (call c k) f h = λ r. Ensures_mono (k r) (λ t a. f (event c r ∷ t) a) (h r)
Ensures_mono hang f h = tt

pub Ensures_bind :
    {A B : Type 0} (p : Prog A) (f : A → Prog B) (Q : Trace → B → Type 0)
    → Ensures p (λ t a. Ensures (f a) (λ u b. Q (t ++ u) b))
    → Ensures (p >>= f) Q
Ensures_bind (ret a) f Q h = h
Ensures_bind (call c k) f Q h = λ r. Ensures_bind (k r) f (λ t b. Q (event c r ∷ t) b) (h r)
Ensures_bind hang f Q h = tt

-- A program that is followed by another.
pub Ensures_then :
    {A B : Type 0} (p : Prog A) (f : A → Prog B) (Q : Trace → B → Type 0) {P : Trace → A → Type 0}
    → Ensures p P
    → ((t : Trace) (a : A) → P t a → Ensures (f a) (λ u b. Q (t ++ u) b))
    → Ensures (p >>= f) Q
Ensures_then p f Q h k = Ensures_bind p f Q (Ensures_mono p k h)

-- `P` holds of the trace of every execution that hangs.
abbrev pub Stalls : {A : Type 0} → Prog A → (Trace → Type 0) → Type 0
Stalls (ret a) P = Unit
Stalls (call c k) P = (r : Reply c) → Stalls (k r) (λ t. P (event c r ∷ t))
Stalls hang P = P []

pub Stalls_mono :
    {A : Type 0} (p : Prog A) {P Q : Trace → Type 0}
    → ((t : Trace) → P t → Q t)
    → Stalls p P
    → Stalls p Q
Stalls_mono (ret a) f h = tt
Stalls_mono (call c k) f h = λ r. Stalls_mono (k r) (λ t. f (event c r ∷ t)) (h r)
Stalls_mono hang f h = f [] h

pub Stalls-Executes :
    {A : Type 0} {p : Prog A} {t : Trace} {o : Option A}
    → Executes p t o
    → (P : Trace → Type 0) → Stalls p P
    → o ≡ none
    → P t
Stalls-Executes (Executes.returns b) P h e = absurd (some-ne-none _ e)
Stalls-Executes Executes.hangs P h e = h
Stalls-Executes (Executes.answers c r x) P h e = Stalls-Executes x (λ t. P (event c r ∷ t)) (h r) e
