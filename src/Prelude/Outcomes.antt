-- ===== src/Prelude/Outcomes.antt =====
-- What a C++ member function does when it is called: it returns, throws, waits on a condition
-- variable whose predicate does not hold, or does something that C++ leaves undefined.
use mathlib.Core.Path.{◌≡◌, refl, sym, ◌∙◌, subst}
use mathlib.Core.Logic.{◌⊎◌, inl, inr}
use mathlib.Core.Bool.{Bool, true, false}
use mathlib.Core.Option.{Option, none, some}

-- The standard exceptions that the sources throw.
pub data Exception : Type 0 where
  invalid_argument logic_error runtime_error out_of_range length_error : Exception

pub data Outcome {ℓ} (A : Type ℓ) : Type ℓ where
  ok : A → Outcome A
  throws : Exception → Outcome A
  blocks : Outcome A
  undefined : Outcome A

infixl 5 ◌>>=◌ ◌>>◌
abbrev pub ◌>>=◌ {ℓ κ} : {A : Type ℓ} {B : Type κ} → Outcome A → (A → Outcome B) → Outcome B
ok a >>= f = f a
throws e >>= f = throws e
blocks >>= f = blocks
undefined >>= f = undefined

abbrev pub ◌>>◌ {ℓ} : {B : Type ℓ} → Outcome (Unit {0}) → Outcome B → Outcome B
m >> k = m >>= λ _. k

-- `condition.wait(lock, predicate)`: the call returns only once the predicate holds.
abbrev pub wait : Bool → Outcome (Unit {0})
wait true = ok tt
wait false = blocks

-- `condition.wait_until(lock, deadline, predicate)`: it returns the predicate's value, and returns
-- false only once the deadline has passed.
abbrev pub wait_until : (timed_out predicate : Bool) → Outcome Bool
wait_until timed_out true = ok true
wait_until true false = ok false
wait_until false false = blocks

-- `if (condition) throw e;`
abbrev pub throw_if : Bool → Exception → Outcome (Unit {0})
throw_if true e = throws e
throw_if false e = ok tt

-- What C++ leaves undefined unless the test holds, such as `v[i]` with `i` out of range.
abbrev pub require : Bool → Outcome (Unit {0})
require true = ok tt
require false = undefined

-- `*o`, undefined on an empty optional.
abbrev pub deref {ℓ} : {A : Type ℓ} → Option A → Outcome A
deref none = undefined
deref (some a) = ok a

abbrev pub returned {ℓ} : {A : Type ℓ} → Outcome A → Option A
returned (ok a) = some a
returned _ = none

pub ok-injective {ℓ} : {A : Type ℓ} {a b : A} → Outcome.ok a ≡ ok b → a ≡ b
ok-injective e = cc

-- The call returns, with a result that satisfies `P`.
abbrev pub Returns {ℓ κ} : {A : Type ℓ} → Outcome A → (A → Type κ) → Type (ℓ ⊔ κ)
Returns {A} o P = (a : A) × (o ≡ ok a) × P a

-- Two calls agree if they end alike, with results that are related.
abbrev pub Agrees : {A B : Type 0} → (A → B → Type 0) → Outcome A → Outcome B → Type 0
Agrees R (ok a) (ok b) = R a b
Agrees R (throws e) (throws e') = e ≡ e'
Agrees R blocks blocks = Unit
Agrees R undefined undefined = Unit
Agrees R _ _ = ⊥

-- A `do` block whose first call returns goes on with a result that satisfies `P`.
pub Returns-bind {ℓ κ μ ν} :
    {A : Type ℓ} {B : Type κ} {P : A → Type μ} (Q : B → Type ν) {o : Outcome A} (f : A → Outcome B)
    → Returns o P
    → ((a : A) → P a → Returns (f a) Q)
    → Returns (o >>= f) Q
Returns-bind Q f (a, e, p) k = rw e (k a p)

pub Returns-map {ℓ κ μ} :
    {A : Type ℓ} {P : A → Type κ} (Q : A → Type μ) {o : Outcome A}
    → Returns o P
    → ((a : A) → P a → Q a)
    → Returns o Q
Returns-map Q (a, e, p) k = (a, e, k a p)

-- What a call returns is one value, so two facts about it can be joined.
pub Returns-both {ℓ κ μ} :
    {A : Type ℓ} {P : A → Type κ} {Q : A → Type μ} {o : Outcome A}
    → Returns o P
    → Returns o Q
    → Returns o (λ a. P a × Q a)
Returns-both {Q} (a, e, p) (b, f, q) = (a, e, (p, subst Q (ok-injective (sym f ∙ e)) q))

pub Agrees-bind {ℓ} :
    {A : Type ℓ} {B C : Type 0} {P : A → Type 0} (R : B → C → Type 0) {o : Outcome A}
    (f : A → Outcome B) (c : Outcome C)
    → Returns o P
    → ((a : A) → P a → Agrees R (f a) c)
    → Agrees R (o >>= f) c
Agrees-bind R f c (a, e, p) k = rw e (k a p)

-- The call returns with a result that satisfies `P`, or waits if `W` holds, and nothing else.
abbrev pub Settled : {A : Type 0} → Type 0 → (A → Type 0) → Outcome A → Type 0
Settled W P (ok a) = P a
Settled W P blocks = W
Settled W P _ = ⊥

-- A call that agrees with a settled one is settled too.
pub Agrees-Settled :
    {A B : Type 0} (R : A → B → Type 0) (W : Type 0) (P : B → Type 0) (o : Outcome A)
    (o' : Outcome B)
    → Agrees R o o'
    → Settled W P o'
    → ((a : A) × (b : B) × (o ≡ ok a) × R a b × P b) ⊎ ((o ≡ blocks) × W)
Agrees-Settled R W P (ok a) (ok b) r p = inl (a, b, refl, r, p)
Agrees-Settled R W P blocks blocks r p = inr (refl, p)
Agrees-Settled R W P o (throws e) r p = absurd p
Agrees-Settled R W P o undefined r p = absurd p
Agrees-Settled R W P (throws e) (ok b) r p = absurd r
Agrees-Settled R W P blocks (ok b) r p = absurd r
Agrees-Settled R W P undefined (ok b) r p = absurd r
Agrees-Settled R W P (ok a) blocks r p = absurd r
Agrees-Settled R W P (throws e) blocks r p = absurd r
Agrees-Settled R W P undefined blocks r p = absurd r
