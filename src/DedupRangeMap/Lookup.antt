-- ===== src/DedupRangeMap/Lookup.antt =====
-- dedup_range_map.rs: the data at an offset, and the ranges of a map as neighbours without a gap.
use miri.Base.{
  ℕ, Bool, suc, ◌+◌, ◌<◌, ◌≤◌, ◌≡◌, refl, sym, ap, ◌∙◌, inl, inr, Bool-cases, ◌&&◌, ltb, leb,
  if◌then◌else◌, List, [], ◌∷◌, ◌++◌, length, take, drop, get_elem?, set_elem, Option, none, some,
  arith,
}
use miri.DedupRangeMap.{Elem}

module _ {T : Type 0} where
  -- whether the element covers the offset
  abbrev pub covers : Elem T → ℕ → Bool
  covers e o = leb e.range.start o && ltb o e.range.end

  -- the ranges are not empty and follow each other without a gap, from `first` to `last`
  abbrev pub IsContiguous : ℕ → List (Elem T) → ℕ → Type 0
  IsContiguous first [] last = first ≡ last
  IsContiguous first (e ∷ v) last =
      (e.range.start ≡ first) × (e.range.start < e.range.end) × IsContiguous e.range.end v last

  pub IsContiguous-le : (a : ℕ) (v : List (Elem T)) (b : ℕ) → IsContiguous a v b → a ≤ b
  IsContiguous-le a [] b c = omega arith
  IsContiguous-le a (e ∷ v) b c = omega (arith, IsContiguous-le e.range.end v b (c.2))

  pub IsContiguous-append :
      (a : ℕ) (v : List (Elem T)) (b : ℕ) (w : List (Elem T)) (c : ℕ)
      → IsContiguous a v b
      → IsContiguous b w c
      → IsContiguous a (v ++ w) c
  IsContiguous-append a [] b w c p q = rw (p) q
  IsContiguous-append a (e ∷ v) b w c p q =
      (p.0, p.1, IsContiguous-append e.range.end v b w c (p.2) q)

module _ {T K : Type 0} (view : T → K) where
  -- what `view` shows of the data of the element that covers the offset
  abbrev pub lookup : List (Elem T) → ℕ → Option K
  lookup [] o = none
  lookup (e ∷ v) o = if covers e o then some (view e.value) else lookup v o

  pub lookup-append :
      (v w x : List (Elem T)) (o : ℕ)
      → lookup w o ≡ lookup x o
      → lookup (v ++ w) o ≡ lookup (v ++ x) o
  lookup-append [] w x o p = p
  lookup-append (e ∷ v) w x o p = ground (arith, lookup-append v w x o p)

  or_else : Option K → Option K → Option K
  or_else none y = y
  or_else (some t) y = some t

  lookup-or_else :
      (v w : List (Elem T)) (o : ℕ) → lookup (v ++ w) o ≡ or_else (lookup v o) (lookup w o)
  unfolding or_else
  lookup-or_else [] w o = refl
  lookup-or_else (e ∷ v) w o = elim (Bool-cases (covers e o)) [
    | inl y ↦ rw (y) refl
    | inr d ↦ rw (d) (lookup-or_else v w o)
  ]

  pub lookup-append-left :
      (v w r : List (Elem T)) (o : ℕ)
      → lookup v o ≡ lookup w o
      → lookup (v ++ r) o ≡ lookup (w ++ r) o
  lookup-append-left v w r o h =
      lookup-or_else v r o ∙ ap (λ x. or_else x (lookup r o)) h ∙ sym (lookup-or_else w r o)

  -- nothing is found beyond the last range
  pub lookup-above :
      (a : ℕ) (v : List (Elem T)) (b : ℕ) (w : List (Elem T)) (o : ℕ)
      → IsContiguous a v b
      → b ≤ o
      → lookup (v ++ w) o ≡ lookup w o
  lookup-above a [] b w o c h = refl
  lookup-above a (e ∷ v) b w o c h =
      ground
        (arith, IsContiguous-le e.range.end v b (c.2), lookup-above e.range.end v b w o (c.2) h)

  pub lookup-below :
      (a : ℕ) (v : List (Elem T)) (b o : ℕ) → IsContiguous a v b → o < a → lookup v o ≡ none
  lookup-below a [] b o c h = refl
  lookup-below a (e ∷ v) b o c h =
      ground (arith, lookup-below e.range.end v b o (c.2) (omega arith))

  pub lookup-beyond :
      (a : ℕ) (v : List (Elem T)) (b o : ℕ) → IsContiguous a v b → b ≤ o → lookup v o ≡ none
  lookup-beyond a [] b o c h = refl
  lookup-beyond a (e ∷ v) b o c h =
      ground (arith, IsContiguous-le e.range.end v b (c.2), lookup-beyond e.range.end v b o (c.2) h)

  -- within the ranges of the first part, the second does not count
  pub lookup-within :
      (a : ℕ) (v : List (Elem T)) (b : ℕ) (w : List (Elem T)) (c o : ℕ)
      → IsContiguous a v b
      → IsContiguous b w c
      → o < b
      → lookup (v ++ w) o ≡ lookup v o
  lookup-within a [] b w c o p q h = lookup-below b w c o q h
  lookup-within a (e ∷ v) b w c o p q h =
      ground (arith, lookup-within e.range.end v b w c o (p.2) q h)

-- lists at and after a prefix
module _ {ℓ} {A : Type ℓ} where
  -- the position `j` places after the prefix
  abbrev pub after_prefix : List A → ℕ → ℕ
  after_prefix [] j = j
  after_prefix (_ ∷ p) j = suc (after_prefix p j)

  pub after_prefix-eq : (p : List A) (j : ℕ) → after_prefix p j ≡ length p + j
  after_prefix-eq [] j = omega arith
  after_prefix-eq (x ∷ p) j = omega (arith, after_prefix-eq p j)

  pub after_prefix-suc : (p : List A) (j : ℕ) → suc (after_prefix p j) ≡ after_prefix p (suc j)
  after_prefix-suc [] j = refl
  after_prefix-suc (x ∷ p) j = ap suc (after_prefix-suc p j)

  pub get-append : (p q : List A) (j : ℕ) → get_elem? (p ++ q) (after_prefix p j) ≡ get_elem? q j
  get-append [] q j = refl
  get-append (x ∷ p) q j = get-append p q j

  pub set-append :
      (p q : List A) (j : ℕ) (a : A) → set_elem (p ++ q) (after_prefix p j) a ≡ p ++ set_elem q j a
  set-append [] q j a = refl
  set-append (x ∷ p) q j a = rw (set-append p q j a) refl

  pub take-append : (p q : List A) (j : ℕ) → take (after_prefix p j) (p ++ q) ≡ p ++ take j q
  take-append [] q j = refl
  take-append (x ∷ p) q j = rw (take-append p q j) refl

  pub drop-append : (p q : List A) (j : ℕ) → drop (after_prefix p j) (p ++ q) ≡ drop j q
  drop-append [] q j = refl
  drop-append (x ∷ p) q j = drop-append p q j

  pub length-append : (p q : List A) → length (p ++ q) ≡ length p + length q
  length-append [] q = omega arith
  length-append (x ∷ p) q = omega (arith, length-append p q)

  pub append_assoc : (p q r : List A) → (p ++ q) ++ r ≡ p ++ (q ++ r)
  append_assoc [] q r = refl
  append_assoc (x ∷ p) q r = rw (append_assoc p q r) refl

  pub append_nil : (p : List A) → p ++ [] ≡ p
  append_nil [] = refl
  append_nil (x ∷ p) = rw (append_nil p) refl
