-- ===== src/WeakMemory/Choose.antt =====
-- weak_memory.rs: the random choice among the candidates.
use miri.Base.{
  ℕ, zero, suc, ◌%◌, ◌<◌, ◌≡◌, sym, ap, ◌∙◌, ◌⊎◌, inl, inr, some, List, [], ◌∷◌, length, get_elem?,
  get-in_range, arith,
}
use mathlib.Core.Option.{some-injective}
use native.Mathlib.Nat.{mod-lt, mod-eq_of_lt}
use miri.WeakMemory.{choose}

abbrev pub Member : ℕ → List ℕ → Type 0
Member k [] = ⊥
Member k (x ∷ l) = (k ≡ x) ⊎ Member k l

Member-get : (l : List ℕ) (i k : ℕ) → get_elem? l i ≡ some k → Member k l
Member-get [] i k h = cc
Member-get (x ∷ l) zero k h = inl (sym (some-injective _ _ h))
Member-get (x ∷ l) (suc i) k h = inr (Member-get l i k h)

get-Member : (l : List ℕ) (k : ℕ) → Member k l → (i : ℕ) × (i < length l) × (get_elem? l i ≡ some k)
get-Member [] k m = absurd m
get-Member (x ∷ l) k (inl e) = (0, omega arith, ap some (sym e))
get-Member (x ∷ l) k (inr m) = let r = get-Member l k m in (suc r.0, omega (arith, r.1), r.2)

-- a choice is one of the members, and any member may be chosen
pub choose-Member :
    (r : ℕ) (l : List ℕ) (x : ℕ) → Member x l → (k : ℕ) × (choose r l ≡ some k) × Member k l
choose-Member r [] x m = absurd m
choose-Member r (y ∷ l) x m =
    let g = get-in_range (y ∷ l) (r % length (y ∷ l)) (mod-lt r (omega arith)) in
    (g.0, g.1, Member-get (y ∷ l) (r % length (y ∷ l)) (g.0) (g.1))

pub Member-choose : (l : List ℕ) (k : ℕ) → Member k l → (r : ℕ) × (choose r l ≡ some k)
Member-choose [] k m = absurd m
Member-choose (x ∷ l) k m =
    let g = get-Member (x ∷ l) k m in
    (g.0, ap (λ i. get_elem? (x ∷ l) i) (mod-eq_of_lt (g.1)) ∙ g.2)
