-- ===== src/DataRace/Parts.antt =====
-- data_race.rs: the parts of a cell that an atomic access adds to, where all of them have one size.
use miri.Base.{
  true-ne-false, ℕ, ◌≤◌, ◌≡◌, refl, sym, subst, ◌↔◌, Bool, true, Option, none, some, List, arith,
}
use miri.VectorClock.Timestamp.{Spans}
use miri.VectorClock.{VClock}
use miri.VectorClock.Canonical.{IsCanonical}
use miri.DataRace.Orderings.{ok}
use miri.DataRace.Cell.{MemoryCellClocks, AtomicMemoryCellClocks, atomic_new, same_size}
use miri.DataRace.Checks.{atomic_access}
use miri.DataRace.History.{
  Kind, tm, Below, Event, atomic_reads, atomic_writes, PartBefore, Clear, HasSize, Tracks, Records,
}
use miri.DataRace.Clocks.{IsUpdated, IsUpdated-Below}

same_size_refl : (o : Option ℕ) (size : ℕ) → o ≡ some size → same_size o size ≡ true
same_size_refl none size e = cc
same_size_refl (some n) size e = ground (arith, e)

module _ {Span : Type 0} ⦃s : Spans Span⦄ where
  abbrev pub atomic_event : Kind → ℕ → VClock Span → Event Span
  atomic_event kind index c = record { kind = kind; index = index; clock = c }

  -- the atomic part of a cell, made where it is missing
  abbrev pub known : ℕ → Option (AtomicMemoryCellClocks Span) → AtomicMemoryCellClocks Span
  known size none = atomic_new size
  known size (some atomic) = atomic

  abbrev pub sync_of : ℕ → Option (AtomicMemoryCellClocks Span) → VClock Span
  sync_of size o = let atomic = known size o in atomic.sync_vector

  abbrev pub with_atomic :
      MemoryCellClocks Span → AtomicMemoryCellClocks Span → MemoryCellClocks Span
  with_atomic m atomic = record m { atomic_ops = some atomic }

  pub atomic_access_lem :
      (size : ℕ) (o : Option (AtomicMemoryCellClocks Span)) (clock : VClock Span) (write : Bool)
      → HasSize size o
      → atomic_access o clock size write ≡ ok (known size o)
  unfolding atomic_access
  atomic_access_lem size none clock write h = refl
  atomic_access_lem size (some atomic) clock write h = rw (same_size_refl atomic.size size h) refl

  same_parts :
      (m : MemoryCellClocks Span) (o o' : Option (AtomicMemoryCellClocks Span)) (c : VClock Span)
      → atomic_reads o ≡ atomic_reads o'
      → atomic_writes o ≡ atomic_writes o'
      → (old : Kind)
      → PartBefore (record m { atomic_ops = o }) old c
        ↔ PartBefore (record m { atomic_ops = o' }) old c
  same_parts m o o' c r w Kind.na_read = (λ p. p, λ p. p)
  same_parts m o o' c r w Kind.na_write = (λ p. p, λ p. p)
  same_parts m o o' c r w Kind.atomic_read =
      (subst (λ v. Below v c) r, subst (λ v. Below v c) (sym r))
  same_parts m o o' c r w Kind.atomic_write =
      (subst (λ v. Below v c) w, subst (λ v. Below v c) (sym w))

  -- what is tracked does not depend on the clock that accesses synchronize with
  pub same_vectors-Tracks :
      (size : ℕ) (m : MemoryCellClocks Span) (h : List (Event Span))
      (o o' : Option (AtomicMemoryCellClocks Span))
      → atomic_reads o ≡ atomic_reads o'
      → atomic_writes o ≡ atomic_writes o'
      → HasSize size o'
      → Tracks size (record m { atomic_ops = o }) h
      → Tracks size (record m { atomic_ops = o' }) h
  same_vectors-Tracks size m h o o' r w b t = record {
    ordered = λ kind c closed. (
      λ k. (t.ordered kind c closed).0 (λ old q. (same_parts m o o' c r w old).1 (k old q)),
      λ q old conf. (same_parts m o o' c r w old).0 ((t.ordered kind c closed).1 q old conf),
    );
    reads_up_to = t.reads_up_to;
    atomic_reads_up_to = λ i n u. subst (λ v. tm v i ≤ n) r (t.atomic_reads_up_to i n u);
    atomic_writes_up_to = λ i n u. subst (λ v. tm v i ≤ n) w (t.atomic_writes_up_to i n u);
    reads_canonical = t.reads_canonical;
    atomic_reads_canonical = subst IsCanonical r t.atomic_reads_canonical;
    atomic_writes_canonical = subst IsCanonical w t.atomic_writes_canonical;
    one_size = b;
  }

  pub known-Tracks :
      (size : ℕ) (m : MemoryCellClocks Span) (h : List (Event Span))
      (o : Option (AtomicMemoryCellClocks Span))
      → Tracks size (record m { atomic_ops = o }) h
      → Tracks size (with_atomic m (known size o)) h
  known-Tracks size m h (some atomic) t = t
  known-Tracks size m h none t =
      same_vectors-Tracks size m h none (some (atomic_new size)) refl refl refl t

  pub Records-atomic_read :
      (m : MemoryCellClocks Span) (atomic : AtomicMemoryCellClocks Span) (index : ℕ)
      (c d : VClock Span)
      → IsUpdated atomic.read_vector c index d
      → tm atomic.read_vector index ≤ tm c index
      → Records
          (with_atomic m atomic)
          (with_atomic m (record atomic { read_vector = d }))
          (atomic_event Kind.atomic_read index c)
  Records-atomic_read m atomic index c d e b Kind.atomic_read x =
      let p = IsUpdated-Below atomic.read_vector c d x index e b in
      (p.0, λ f g. p.1 f (g refl), λ same. p.2)
  Records-atomic_read m atomic index c d e b Kind.na_write x = (λ f. f, λ f g. f, λ same. cc)
  Records-atomic_read m atomic index c d e b Kind.na_read x = (λ f. f, λ f g. f, λ same. cc)
  Records-atomic_read m atomic index c d e b Kind.atomic_write x = (λ f. f, λ f g. f, λ same. cc)

  pub Records-atomic_write :
      (m : MemoryCellClocks Span) (atomic : AtomicMemoryCellClocks Span) (index : ℕ)
      (c d : VClock Span)
      → IsUpdated atomic.write_vector c index d
      → tm atomic.write_vector index ≤ tm c index
      → Records
          (with_atomic m atomic)
          (with_atomic m (record atomic { write_vector = d }))
          (atomic_event Kind.atomic_write index c)
  Records-atomic_write m atomic index c d e b Kind.atomic_write x =
      let p = IsUpdated-Below atomic.write_vector c d x index e b in
      (p.0, λ f g. p.1 f (g refl), λ same. p.2)
  Records-atomic_write m atomic index c d e b Kind.na_write x = (λ f. f, λ f g. f, λ same. cc)
  Records-atomic_write m atomic index c d e b Kind.na_read x = (λ f. f, λ f g. f, λ same. cc)
  Records-atomic_write m atomic index c d e b Kind.atomic_read x = (λ f. f, λ f g. f, λ same. cc)

  pub Clear-atomic_read :
      (m : MemoryCellClocks Span) (c : VClock Span)
      → PartBefore m Kind.na_write c
      → Clear Kind.atomic_read m c
  Clear-atomic_read m c w Kind.na_write q = w
  Clear-atomic_read m c w Kind.na_read q = absurd (true-ne-false (sym q))
  Clear-atomic_read m c w Kind.atomic_read q = absurd (true-ne-false (sym q))
  Clear-atomic_read m c w Kind.atomic_write q = absurd (true-ne-false (sym q))

  pub Clear-atomic_write :
      (m : MemoryCellClocks Span) (c : VClock Span)
      → PartBefore m Kind.na_write c
      → Below m.read c
      → Clear Kind.atomic_write m c
  Clear-atomic_write m c w r Kind.na_write q = w
  Clear-atomic_write m c w r Kind.na_read q = r
  Clear-atomic_write m c w r Kind.atomic_read q = absurd (true-ne-false (sym q))
  Clear-atomic_write m c w r Kind.atomic_write q = absurd (true-ne-false (sym q))
