-- ===== src/DataRace/Seen.antt =====
-- data_race.rs: equal cells, and accesses at clocks of the same times, have the same histories.
use miri.Base.{ℕ, ◌≡◌, refl, sym, ap, ◌∙◌, subst, ◌↔◌, Option, none, some, List, [], ◌∷◌, arith}
use miri.VectorClock.Timestamp.{Spans, time}
use miri.VectorClock.{VClock}
use miri.DataRace.Cell.{AtomicMemoryCellClocks, MemoryCellClocks}
use miri.DataRace.CellEq.{times, seen, seen_atomic, SeenAtomic, Seen, same-tm, same-IsCanonical}
use miri.DataRace.History.{
  Kind, tm, Event, Ordered, Closed, UpTo, atomic_reads, atomic_writes, PartBefore, HasSize, Tracks,
}
use miri.DataRace.Detect.{SameTimes, Causal}

some_reads : Option SeenAtomic → List ℕ
some_reads none = []
some_reads (some a) = a.reads

some_writes : Option SeenAtomic → List ℕ
some_writes none = []
some_writes (some a) = a.writes

SizeSeen : ℕ → Option SeenAtomic → Type 0
SizeSeen n none = Unit
SizeSeen n (some a) = a.size ≡ some n

module _ {Span : Type 0} ⦃s : Spans Span⦄ where
  reads-times :
      (o : Option (AtomicMemoryCellClocks Span))
      → times (atomic_reads o) ≡ some_reads (seen_atomic o)
  unfolding some_reads
  reads-times none = refl
  reads-times (some a) = refl

  writes-times :
      (o : Option (AtomicMemoryCellClocks Span))
      → times (atomic_writes o) ≡ some_writes (seen_atomic o)
  unfolding some_writes
  writes-times none = refl
  writes-times (some a) = refl

  HasSize-seen :
      (n : ℕ) (o : Option (AtomicMemoryCellClocks Span)) → HasSize n o ↔ SizeSeen n (seen_atomic o)
  unfolding SizeSeen
  HasSize-seen n none = (λ h. h, λ h. h)
  HasSize-seen n (some a) = (λ h. h, λ h. h)

  same_reads :
      (m m' : MemoryCellClocks Span)
      → seen m ≡ seen m'
      → times (atomic_reads m.atomic_ops) ≡ times (atomic_reads m'.atomic_ops)
  same_reads m m' h =
      reads-times m.atomic_ops
      ∙ ap (λ (v : Seen). some_reads v.atomic) h
      ∙ sym (reads-times m'.atomic_ops)

  same_writes :
      (m m' : MemoryCellClocks Span)
      → seen m ≡ seen m'
      → times (atomic_writes m.atomic_ops) ≡ times (atomic_writes m'.atomic_ops)
  same_writes m m' h =
      writes-times m.atomic_ops
      ∙ ap (λ (v : Seen). some_writes v.atomic) h
      ∙ sym (writes-times m'.atomic_ops)

  same-PartBefore :
      (m m' : MemoryCellClocks Span) (old : Kind) (c : VClock Span)
      → seen m ≡ seen m'
      → PartBefore m old c
      → PartBefore m' old c
  same-PartBefore m m' Kind.na_write c h p =
      let w : time m.write_time ≡ time m'.write_time = ap (λ (v : Seen). v.written) h in
      let i : tm c m.write_index ≡ tm c m'.write_index = ap (λ (v : Seen). tm c v.index) h in
      omega (arith, p, w, i)
  same-PartBefore m m' Kind.na_read c h p =
      λ i. omega (arith, p i, same-tm m.read m'.read i (ap (λ (v : Seen). v.reads) h))
  same-PartBefore m m' Kind.atomic_read c h p = λ i. omega (
    arith,
    p i,
    same-tm (atomic_reads m.atomic_ops) (atomic_reads m'.atomic_ops) i (same_reads m m' h),
  )
  same-PartBefore m m' Kind.atomic_write c h p = λ i. omega (
    arith,
    p i,
    same-tm (atomic_writes m.atomic_ops) (atomic_writes m'.atomic_ops) i (same_writes m m' h),
  )

  -- A cell that equals one that keeps a history keeps it.
  pub seen-Tracks :
      (size : ℕ) (m m' : MemoryCellClocks Span) (h : List (Event Span))
      → seen m ≡ seen m'
      → Tracks size m h
      → Tracks size m' h
  seen-Tracks size m m' h e t = record {
    ordered = λ kind c closed. (
      λ k. (t.ordered kind c closed).0 (λ old f. same-PartBefore m' m old c (sym e) (k old f)),
      λ o old f. same-PartBefore m m' old c e ((t.ordered kind c closed).1 o old f),
    );
    reads_up_to = λ i n u.
        omega (arith, t.reads_up_to i n u, same-tm m.read m'.read i (ap (λ (v : Seen). v.reads) e));
    atomic_reads_up_to = λ i n u. omega (
      arith,
      t.atomic_reads_up_to i n u,
      same-tm (atomic_reads m.atomic_ops) (atomic_reads m'.atomic_ops) i (same_reads m m' e),
    );
    atomic_writes_up_to = λ i n u. omega (
      arith,
      t.atomic_writes_up_to i n u,
      same-tm (atomic_writes m.atomic_ops) (atomic_writes m'.atomic_ops) i (same_writes m m' e),
    );
    reads_canonical =
        same-IsCanonical m.read m'.read (ap (λ (v : Seen). v.reads) e) t.reads_canonical;
    atomic_reads_canonical =
        same-IsCanonical (atomic_reads m.atomic_ops) (atomic_reads m'.atomic_ops)
          (same_reads m m' e) t.atomic_reads_canonical;
    atomic_writes_canonical =
        same-IsCanonical (atomic_writes m.atomic_ops) (atomic_writes m'.atomic_ops)
          (same_writes m m' e) t.atomic_writes_canonical;
    one_size = (HasSize-seen size m'.atomic_ops).1 (
        subst (λ (v : Seen). SizeSeen size v.atomic) e
          ((HasSize-seen size m.atomic_ops).0 t.one_size));
  }

  -- clocks of the same times order the same accesses
  pub same-Ordered :
      (kind : Kind) (h : List (Event Span)) (c d : VClock Span)
      → SameTimes c d
      → Ordered kind h c
      → Ordered kind h d
  same-Ordered kind [] c d e o = tt
  same-Ordered kind (x ∷ h) c d e o =
      (λ f. omega (arith, o.0 f, e x.index), same-Ordered kind h c d e (o.1))

  same-Closed :
      (h : List (Event Span)) (c d : VClock Span) → SameTimes c d → Closed h c → Closed h d
  same-Closed [] c d e k = tt
  same-Closed (x ∷ h) c d e k =
      (λ b i. omega (arith, k.0 (omega (arith, b, e x.index)) i, e i), same-Closed h c d e (k.1))

  pub same-Causal :
      (h : List (Event Span)) (index : ℕ) (c d : VClock Span)
      → SameTimes c d
      → Causal h index c
      → Causal h index d
  same-Causal h index c d e k = record {
    own = subst (λ n. UpTo h index n) (e index) k.own;
    closed = same-Closed h c d e k.closed;
  }

  abbrev pub event_at : Kind → ℕ → VClock Span → Event Span
  event_at kind index c = record { kind = kind; index = index; clock = c }

  -- an access recorded with a clock of the same times
  pub same-Tracks :
      (size : ℕ) (m : MemoryCellClocks Span) (kind : Kind) (index : ℕ) (c d : VClock Span)
      (h : List (Event Span))
      → SameTimes c d
      → Tracks size m (event_at kind index c ∷ h)
      → Tracks size m (event_at kind index d ∷ h)
  same-Tracks size m kind index c d h e t = record {
    ordered = λ k x closed.
        let old : Closed (event_at kind index c ∷ h) x =
          (λ b i. omega (arith, closed.0 (omega (arith, b, e index)) i, e i), closed.1) in
        (
          λ q. let o = (t.ordered k x old).0 q in (λ f. omega (arith, o.0 f, e index), o.1),
          λ q. (t.ordered k x old).1 (λ f. omega (arith, q.0 f, e index), q.1),
        );
    reads_up_to = λ i n u. t.reads_up_to i n (λ f. omega (arith, u.0 f, e index), u.1);
    atomic_reads_up_to =
        λ i n u. t.atomic_reads_up_to i n (λ f. omega (arith, u.0 f, e index), u.1);
    atomic_writes_up_to =
        λ i n u. t.atomic_writes_up_to i n (λ f. omega (arith, u.0 f, e index), u.1);
    reads_canonical = t.reads_canonical;
    atomic_reads_canonical = t.atomic_reads_canonical;
    atomic_writes_canonical = t.atomic_writes_canonical;
    one_size = t.one_size;
  }
