-- ===== src/Base/Panics.antt =====
-- The outcome of Rust code that may panic (a failed `assert!`, `unreachable!`, an index out of
-- range), and its sequencing.
use mathlib.Core.Path.{◌≡◌}
use miri.Base.Tests.{if◌then◌else◌}
use mathlib.Core.Bool.{Bool, true, false}
use mathlib.Core.Option.{Option, none, some}

pub data Outcome {ℓ} (A : Type ℓ) : Type ℓ where
  panic : Outcome A
  ret : A → Outcome A

infixl 5 ◌>>=◌ ◌>>◌
abbrev pub ◌>>=◌ {ℓ κ} : {A : Type ℓ} {B : Type κ} → Outcome A → (A → Outcome B) → Outcome B
panic >>= f = panic
ret a >>= f = f a

abbrev pub ◌>>◌ {ℓ} : {B : Type ℓ} → Outcome (Unit {0}) → Outcome B → Outcome B
m >> k = m >>= λ _. k

-- `assert!`
abbrev pub assert : Bool → Outcome (Unit {0})
assert true = ret tt
assert false = panic

-- `unwrap`, `expect` and the check of an index
abbrev pub unwrap {ℓ} : {A : Type ℓ} → Option A → Outcome A
unwrap none = panic
unwrap (some a) = ret a

abbrev pub map_outcome {ℓ κ} : {A : Type ℓ} {B : Type κ} → (A → B) → Outcome A → Outcome B
map_outcome f m = m >>= λ a. ret (f a)

-- the code returns, and what it returns satisfies `P`
abbrev pub Returns {ℓ} : {A : Type ℓ} → Outcome A → (A → Type 0) → Type 0
Returns panic P = ⊥
Returns (ret a) P = P a

pub ret-injective {ℓ} : {A : Type ℓ} {a b : A} → ret a ≡ ret b → a ≡ b
ret-injective p = cc

pub weaken_Returns {ℓ} :
    {A : Type ℓ} (P Q : A → Type 0) (m : Outcome A)
    → Returns m P
    → ((a : A) → P a → Q a)
    → Returns m Q
weaken_Returns P Q panic p w = absurd p
weaken_Returns P Q (ret a) p w = w a p

pub if_Returns {ℓ} :
    {A : Type ℓ} (P : A → Type 0) (b : Bool) (m n : Outcome A)
    → Returns m P
    → Returns n P
    → Returns (if b then m else n) P
if_Returns P true m n p q = p
if_Returns P false m n p q = q

pub map_Returns :
    {A B : Type 0} (P : A → Type 0) (Q : B → Type 0) (f : A → B) (m : Outcome A)
    → Returns m P
    → ((a : A) → P a → Q (f a))
    → Returns (m >>= λ a. ret (f a)) Q
map_Returns P Q f panic p q = absurd p
map_Returns P Q f (ret a) p q = q a p

pub bind_Returns {ℓ κ} :
    {A : Type ℓ} {B : Type κ} (P : A → Type 0) (Q : B → Type 0) (m : Outcome A) (k : A → Outcome B)
    → Returns m P
    → ((a : A) → P a → Returns (k a) Q)
    → Returns (m >>= k) Q
bind_Returns P Q panic k p q = absurd p
bind_Returns P Q (ret a) k p q = q a p
