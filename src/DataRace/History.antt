-- ===== src/DataRace/History.antt =====
-- data_race.rs: the accesses of a memory cell, which of them conflict, which are ordered by the
-- clocks, and what a cell's clocks keep of them.
use miri.Base.{
  ℕ, ◌≤◌, ◌≡◌, refl, ◌↔◌, Bool, true, false, Option, none, some, List, [], ◌∷◌, All, arith, subst,
  sym, ◌∙◌,
}
use miri.VectorClock.Timestamp.{Spans, time}
use miri.VectorClock.{VClock, at}
use miri.VectorClock.Canonical.{IsCanonical}
use miri.DataRace.Cell.{MemoryCellClocks, AtomicMemoryCellClocks}

pub data Kind : Type 0 where
  na_read na_write atomic_read atomic_write : Kind

-- Two non-atomic accesses conflict unless both read; an atomic access conflicts with a non-atomic
-- one unless both read; atomic accesses do not conflict.
abbrev pub conflicts : Kind → Kind → Bool
conflicts _ Kind.na_write = true
conflicts Kind.na_write _ = true
conflicts Kind.na_read Kind.atomic_write = true
conflicts Kind.atomic_write Kind.na_read = true
conflicts _ _ = false

na_write-conflicts : (old : Kind) → conflicts Kind.na_write old ≡ true
na_write-conflicts Kind.na_read = refl
na_write-conflicts Kind.na_write = refl
na_write-conflicts Kind.atomic_read = refl
na_write-conflicts Kind.atomic_write = refl

module _ {Span : Type 0} ⦃s : Spans Span⦄ where
  abbrev pub tm : VClock Span → ℕ → ℕ
  tm c i = time (at c i)

  abbrev pub Below : VClock Span → VClock Span → Type 0
  Below a b = (i : ℕ) → tm a i ≤ tm b i

-- An access, by a thread with a vector index and, at the time, this clock.
pub record Event (Span : Type 0) : Type 0 where
  pub kind : Kind
  pub index : ℕ
  pub clock : VClock Span

module _ {Span : Type 0} ⦃s : Spans Span⦄ where
  abbrev pub event_time : Event Span → ℕ
  event_time e = tm e.clock e.index

  -- the access happened before what a thread with the clock `c` does
  abbrev pub HappensBefore : Event Span → VClock Span → Type 0
  HappensBefore e c = event_time e ≤ tm c e.index

  abbrev pub Ordered : Kind → List (Event Span) → VClock Span → Type 0
  Ordered kind h c = All (λ e. conflicts kind e.kind ≡ true → HappensBefore e c) h

  -- A clock that has an access has all that the thread knew when it made it.
  abbrev pub Closed : List (Event Span) → VClock Span → Type 0
  Closed h c = All (λ e. HappensBefore e c → Below e.clock c) h

  -- accesses at the index were made at or before this time
  abbrev pub UpTo : List (Event Span) → ℕ → ℕ → Type 0
  UpTo h i n = All (λ e. e.index ≡ i → event_time e ≤ n) h

  abbrev pub atomic_reads : Option (AtomicMemoryCellClocks Span) → VClock Span
  atomic_reads none = []
  atomic_reads (some atomic) = atomic.read_vector

  abbrev pub atomic_writes : Option (AtomicMemoryCellClocks Span) → VClock Span
  atomic_writes none = []
  atomic_writes (some atomic) = atomic.write_vector

  -- the accesses of a kind that the cell still has are before the clock
  abbrev pub PartBefore : MemoryCellClocks Span → Kind → VClock Span → Type 0
  PartBefore m Kind.na_write c = time m.write_time ≤ tm c m.write_index
  PartBefore m Kind.na_read c = Below m.read c
  PartBefore m Kind.atomic_read c = Below (atomic_reads m.atomic_ops) c
  PartBefore m Kind.atomic_write c = Below (atomic_writes m.atomic_ops) c

  abbrev pub Clear : Kind → MemoryCellClocks Span → VClock Span → Type 0
  Clear kind m c = (old : Kind) → conflicts kind old ≡ true → PartBefore m old c

  -- all atomic accesses of the cell had this size
  abbrev pub HasSize : ℕ → Option (AtomicMemoryCellClocks Span) → Type 0
  HasSize size none = Unit
  HasSize size (some atomic) = atomic.size ≡ some size

  -- What the cell of a history keeps: enough to tell which later accesses are ordered.
  pub record Tracks (size : ℕ) (m : MemoryCellClocks Span) (h : List (Event Span)) : Type 0 where
    pub ordered : (kind : Kind) (c : VClock Span) → Closed h c → Clear kind m c ↔ Ordered kind h c
    pub reads_up_to : (i n : ℕ) → UpTo h i n → tm m.read i ≤ n
    pub atomic_reads_up_to : (i n : ℕ) → UpTo h i n → tm (atomic_reads m.atomic_ops) i ≤ n
    pub atomic_writes_up_to : (i n : ℕ) → UpTo h i n → tm (atomic_writes m.atomic_ops) i ≤ n
    pub reads_canonical : IsCanonical m.read
    pub atomic_reads_canonical : IsCanonical (atomic_reads m.atomic_ops)
    pub atomic_writes_canonical : IsCanonical (atomic_writes m.atomic_ops)
    pub one_size : HasSize size m.atomic_ops

  -- `m'` is `m` with one more access
  abbrev pub Records : MemoryCellClocks Span → MemoryCellClocks Span → Event Span → Type 0
  Records m m' e =
      (old : Kind) (c : VClock Span)
      → (PartBefore m' old c → PartBefore m old c)
        × (PartBefore m old c → (old ≡ e.kind → HappensBefore e c) → PartBefore m' old c)
        × (old ≡ e.kind → PartBefore m' old c → HappensBefore e c)

  pub Records-Ordered :
      (m m' : MemoryCellClocks Span) (e : Event Span) (h : List (Event Span)) (kind : Kind)
      (c : VClock Span)
      → Records m m' e
      → Clear kind m c ↔ Ordered kind h c
      → Clear kind m' c ↔ Ordered kind (e ∷ h) c
  Records-Ordered m m' e h kind c r t = (
    λ k. (λ conf. (r e.kind c).2 refl (k e.kind conf), t.0 (λ old conf. (r old c).0 (k old conf))),
    λ o old conf.
        (r old c).1 (t.1 (o.1) old conf)
          (λ same. o.0 (subst (λ x. conflicts kind x ≡ true) same conf)),
  )

  -- a write that is ordered after all accesses stands for them
  pub overwrite-Ordered :
      (m' : MemoryCellClocks Span) (e : Event Span) (h : List (Event Span)) (kind : Kind)
      (c : VClock Span)
      → ((old : Kind) → PartBefore m' old c ↔ (old ≡ Kind.na_write → HappensBefore e c))
      → e.kind ≡ Kind.na_write
      → Ordered Kind.na_write h e.clock
      → Closed (e ∷ h) c
      → Clear kind m' c ↔ Ordered kind (e ∷ h) c
  overwrite-Ordered m' e h kind c p w o d = (
    λ k.
        let hb : HappensBefore e c = (p Kind.na_write).0 (k Kind.na_write refl) refl in
        (λ conf. hb, all_before h o (d.0 hb)),
    λ q old conf.
        (p old).1 (λ same. q.0 (subst (λ x. conflicts kind x ≡ true) (same ∙ sym w) conf)),
  )
    where
      all_before :
          (h : List (Event Span))
          → Ordered Kind.na_write h e.clock
          → Below e.clock c
          → Ordered kind h c
      all_before [] o b = tt
      all_before (x ∷ h) o b = (
        λ conf. (omega (arith, o.0 (na_write-conflicts x.kind), b x.index)),
        all_before h (o.1) b,
      )
