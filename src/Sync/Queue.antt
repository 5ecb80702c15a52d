-- ===== src/Sync/Queue.antt =====
-- Queues of waiting threads: who is in one, and that nobody is in it twice.
use miri.Base.{ℕ, ◌≡◌, refl, Bool, false, ◌||◌, ◌==◌, List, [], ◌∷◌, ◌++◌, arith}

abbrev pub contains : List ℕ → ℕ → Bool
contains [] t = false
contains (a ∷ r) t = a == t || contains r t

abbrev pub IsDistinct : List ℕ → Type 0
IsDistinct [] = Unit
IsDistinct (a ∷ r) = (contains r a ≡ false) × IsDistinct r

pub contains-snoc : (q : List ℕ) (t u : ℕ) → contains (q ++ t ∷ []) u ≡ (contains q u || t == u)
contains-snoc [] t u = ground arith
contains-snoc (a ∷ r) t u = ground (arith, contains-snoc r t u)

pub IsDistinct-snoc :
    (q : List ℕ) (t : ℕ) → IsDistinct q → contains q t ≡ false → IsDistinct (q ++ t ∷ [])
IsDistinct-snoc [] t d c = (refl, tt)
IsDistinct-snoc (a ∷ r) t d c =
    (ground (arith, contains-snoc r t a), IsDistinct-snoc r t d.1 (ground arith))
