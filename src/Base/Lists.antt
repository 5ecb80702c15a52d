-- ===== src/Base/Lists.antt =====
-- Lists measured and indexed by the native numbers.
use Prim.Native.Nat.{ℕ, zero, suc, ◌≤◌, ◌<◌}
use native.Mathlib.Omega.{arith}
use miri.Base.Tests.{◌==◌, if◌then◌else◌}
use mathlib.Core.List.{List, [], ◌∷◌}
use mathlib.Core.Option.{Option, none, some, some-injective}
use mathlib.Core.Path.{◌≡◌, refl, ap, subst}

-- every entry satisfies `P`
abbrev pub All {ℓ κ} : {A : Type ℓ} → (A → Type κ) → List A → Type κ
All P [] = Unit
All P (x ∷ xs) = P x × All P xs

module _ {ℓ} {A : Type ℓ} where
  abbrev pub length : List A → ℕ
  length [] = 0
  length (_ ∷ r) = suc (length r)

  abbrev pub get_elem? : List A → ℕ → Option A
  get_elem? [] _ = none
  get_elem? (a ∷ _) zero = some a
  get_elem? (_ ∷ r) (suc i) = get_elem? r i

  abbrev pub take : ℕ → List A → List A
  take zero _ = []
  take (suc n) [] = []
  take (suc n) (a ∷ r) = a ∷ take n r

  abbrev pub drop : ℕ → List A → List A
  drop zero l = l
  drop (suc n) [] = []
  drop (suc n) (_ ∷ r) = drop n r

module _ {ℓ} {A : Type ℓ} where
  -- `l[i] = a`, where the index is in range
  abbrev pub set_elem : List A → ℕ → A → List A
  set_elem [] _ _ = []
  set_elem (_ ∷ r) zero a = a ∷ r
  set_elem (b ∷ r) (suc i) a = b ∷ set_elem r i a

  pub get-set_elem :
      (l : List A) (i j : ℕ) (a b : A)
      → get_elem? l i ≡ some b
      → get_elem? (set_elem l i a) j ≡ (if i == j then some a else get_elem? l j)
  get-set_elem [] i j a b e = cc
  get-set_elem (_ ∷ r) zero zero a b e = refl
  get-set_elem (_ ∷ r) zero (suc j) a b e = ground arith
  get-set_elem (_ ∷ r) (suc i) zero a b e = ground arith
  get-set_elem (_ ∷ r) (suc i) (suc j) a b e = ground (arith, get-set_elem r i j a b e)

  pub get-set_same :
      (l : List A) (i : ℕ) (a b : A)
      → get_elem? l i ≡ some b
      → get_elem? (set_elem l i a) i ≡ some a
  get-set_same [] i a b e = cc
  get-set_same (_ ∷ r) zero a b e = refl
  get-set_same (_ ∷ r) (suc i) a b e = get-set_same r i a b e

  pub set-set_elem : (l : List A) (i : ℕ) (a b : A) → set_elem (set_elem l i a) i b ≡ set_elem l i b
  set-set_elem [] i a b = refl
  set-set_elem (_ ∷ r) zero a b = refl
  set-set_elem (x ∷ r) (suc i) a b = ap (λ q. x ∷ q) (set-set_elem r i a b)

pub get-in_range {ℓ} :
    {A : Type ℓ} (l : List A) (i : ℕ) → i < length l → (x : A) × (get_elem? l i ≡ some x)
get-in_range [] i h = absurd (omega arith)
get-in_range (x ∷ l) zero h = (x, refl)
get-in_range (x ∷ l) (suc i) h = get-in_range l i (omega arith)

pub get-in_bounds {ℓ} :
    {A : Type ℓ} (l : List A) (i : ℕ) {x : A} → get_elem? l i ≡ some x → i < length l
get-in_bounds [] i g = cc
get-in_bounds (x ∷ l) zero g = omega arith
get-in_bounds (x ∷ l) (suc i) g = omega (arith, get-in_bounds l i g)

pub All-get {ℓ} :
    {A : Type ℓ} (P : A → Type 0) (l : List A) (i : ℕ) {a : A}
    → All P l
    → get_elem? l i ≡ some a
    → P a
All-get P [] i h e = cc
All-get P (a ∷ r) zero h e = subst P (some-injective _ _ e) h.0
All-get P (a ∷ r) (suc i) h e = All-get P r i h.1 e

pub get-take {ℓ} :
    {A : Type ℓ} (n : ℕ) (l : List A) (i : ℕ) (a : A)
    → get_elem? (take n l) i ≡ some a
    → get_elem? l i ≡ some a
get-take zero l i a e = cc
get-take (suc n) [] i a e = cc
get-take (suc n) (b ∷ l) zero a e = e
get-take (suc n) (b ∷ l) (suc i) a e = get-take n l i a e

pub length-take {ℓ} : {A : Type ℓ} (n : ℕ) (l : List A) → length (take n l) ≤ n
length-take zero l = omega arith
length-take (suc n) [] = omega arith
length-take (suc n) (b ∷ l) = omega (arith, length-take n l)
