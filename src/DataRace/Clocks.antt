-- ===== src/DataRace/Clocks.antt =====
-- vector_clock.rs as the detector uses it: its operations at all indices at once.
use miri.Base.{
  zero, suc, ◌∷◌, refl, map_Returns, if_Returns, ℕ, ◌^◌, ◌≤◌, ◌<◌, ◌≡◌, sym, ◌∙◌, ◌↔◌, true, ◌==◌,
  if◌then◌else◌, Outcome, panic, ret, Returns, [], arith,
}
use miri.VectorClock.Timestamp.{Spans, NaReadType, VTimestamp, time, set_read_type, encode-eq}
use miri.VectorClock.{VClock, at, index_mut, set_at_index, le}
use miri.VectorClock.Canonical.{IsCanonical, pointwise_le_iff}
use miri.VectorClock.Compare.{le_lem}
use miri.VectorClock.Update.{set_at_index_lem}
use miri.DataRace.Orderings.{Checked, ◌>>=◌, lift}
use miri.DataRace.Checks.{with_span}
use miri.DataRace.History.{tm, Below}

-- what follows an operation that returns
pub lift-Returns :
    {A B : Type 0} (P : A → Type 0) (V : Checked B → Type 0) (o : Outcome A) (k : A → Checked B)
    → Returns o P
    → ((a : A) → P a → V (k a))
    → V (lift o >>= k)
lift-Returns P V panic k p f = absurd p
lift-Returns P V (ret a) k p f = f a p

module _ {Span : Type 0} ⦃s : Spans Span⦄ where
  -- `d` is `a` with the time of `c` at the index
  abbrev pub IsUpdated : VClock Span → VClock Span → ℕ → VClock Span → Type 0
  IsUpdated a c idx d = (i : ℕ) → tm d i ≡ (if idx == i then tm c i else tm a i)

  everywhere :
      (m : Outcome (VClock Span)) (P : VClock Span → Type 0) (Q : VClock Span → ℕ → Type 0)
      → ((i : ℕ) → Returns m λ d. P d × Q d i)
      → Returns m λ d. P d × ((i : ℕ) → Q d i)
  everywhere panic P Q h = h 0
  everywhere (ret d) P Q h = ((h 0).0, λ i. (h i).1)

  pub set_at_index-IsUpdated :
      (a c : VClock Span) (idx : ℕ)
      → IsCanonical a
      → tm a idx ≤ tm c idx
      → Returns (set_at_index a c idx) λ d. IsCanonical d × IsUpdated a c idx d
  set_at_index-IsUpdated a c idx h b =
      everywhere (set_at_index a c idx) IsCanonical
        (λ d i. tm d i ≡ (if idx == i then tm c i else tm a i))
        (λ i. set_at_index_lem a c idx i h b)

  pub le-Below : (a c : VClock Span) → IsCanonical a → (le a c ≡ true) ↔ Below a c
  le-Below a c h = (
    λ e. (pointwise_le_iff a c).0 (sym (le_lem a c h) ∙ e),
    λ b. le_lem a c h ∙ (pointwise_le_iff a c).1 b,
  )

  -- a clock with one more time is below another exactly when both parts are
  pub IsUpdated-Below :
      (a c d x : VClock Span) (idx : ℕ)
      → IsUpdated a c idx d
      → tm a idx ≤ tm c idx
      → (Below d x → Below a x)
        × (Below a x → tm c idx ≤ tm x idx → Below d x)
        × (Below d x → tm c idx ≤ tm x idx)
  IsUpdated-Below a c d x idx e b = (
    λ f i. ground (arith, e i, f i),
    λ f g i. ground (arith, e i, f i),
    λ f. ground (arith, e idx, f idx),
  )

  pub set_read_type-Returns :
      (v : VTimestamp Span) (r : NaReadType)
      → time v < 2 ^ 31
      → Returns (set_read_type v r) λ w. time w ≡ time v
  unfolding set_read_type
  set_read_type-Returns v r h = ground (arith, encode-eq (time v) r h)

  -- an operation on the element at the index that keeps its time, where there is one
  pub index_mut-Returns :
      (f : VTimestamp Span → Outcome (VTimestamp Span)) (c : VClock Span) (i : ℕ)
      → 0 < tm c i
      → Returns (f (at c i)) (λ v. time v ≡ tm c i)
      → Returns (index_mut c i f) (λ d. (j : ℕ) → tm d j ≡ tm c j)
  unfolding at index_mut
  index_mut-Returns f [] i h p = absurd (omega arith)
  index_mut-Returns f (t ∷ ts) zero h p =
      map_Returns (λ v. time v ≡ time t) (λ d. (j : ℕ) → tm d j ≡ tm (t ∷ ts) j) (λ u. u ∷ ts) (f t)
        p changed
    where
      changed : (u : VTimestamp Span) → time u ≡ time t → (j : ℕ) → tm (u ∷ ts) j ≡ tm (t ∷ ts) j
      changed u e zero = e
      changed u e (suc j) = refl
  index_mut-Returns f (t ∷ ts) (suc i) h p =
      map_Returns (λ d. (j : ℕ) → tm d j ≡ tm ts j) (λ d. (j : ℕ) → tm d j ≡ tm (t ∷ ts) j)
        (λ us. t ∷ us) (index_mut ts i f) (index_mut-Returns f ts i h p) kept
    where
      kept :
          (us : VClock Span)
          → ((j : ℕ) → tm us j ≡ tm ts j)
          → (j : ℕ) → tm (t ∷ us) j ≡ tm (t ∷ ts) j
      kept us e zero = refl
      kept us e (suc j) = e j

  -- marking the own entry with a span keeps its time
  pub with_span-Returns :
      (c : VClock Span) (idx : ℕ) (span : Span)
      → 0 < tm c idx
      → Returns (with_span c idx span) (λ d. (j : ℕ) → tm d j ≡ tm c j)
  unfolding with_span
  with_span-Returns c idx span h =
      if_Returns (λ d. (j : ℕ) → tm d j ≡ tm c j) (s.is_dummy span) (ret c)
        (index_mut c idx (λ t. ret (record t { span = span }))) (λ j. refl)
        (index_mut-Returns (λ t. ret (record t { span = span })) c idx h refl)

  -- what follows the marking of a read, of a clock with the same times
  pub marked_read-Returns :
      {B : Type 0} (V : Checked B → Type 0) (c : VClock Span) (index : ℕ) (read_type : NaReadType)
      (span : Span) (k : VClock Span → Checked B)
      → 0 < tm c index
      → tm c index < 2 ^ 31
      → ((clock : VClock Span) → ((j : ℕ) → tm clock j ≡ tm c j) → V (k clock))
      → V (
          lift (with_span c index span) >>= λ spanned.
          lift (index_mut spanned index (λ t. set_read_type t read_type)) >>= k)
  marked_read-Returns V c index read_type span k p b f =
      lift-Returns (λ d. (j : ℕ) → tm d j ≡ tm c j) V (with_span c index span)
        (λ spanned. lift (index_mut spanned index (λ t. set_read_type t read_type)) >>= k)
        (with_span-Returns c index span p)
        (λ d e.
          lift-Returns (λ x. (j : ℕ) → tm x j ≡ tm d j) V
            (index_mut d index (λ t. set_read_type t read_type)) k
            (index_mut-Returns (λ t. set_read_type t read_type) d index (omega (arith, e index, p))
              (set_read_type-Returns (at d index) read_type (omega (arith, e index, b))))
            (λ x g. f x (λ j. g j ∙ e j)))

  pub nil-Below : (c : VClock Span) → Below [] c
  unfolding at
  nil-Below c i = omega arith
