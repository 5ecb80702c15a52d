-- ===== src/DataRace/CellEq.antt =====
-- data_race.rs: the derived equality of `MemoryCellClocks`. That of a timestamp compares the times
-- only, so equal cells may differ in spans and read types; they keep the same history.
use miri.Base.{
  ℕ, zero, suc, ◌<◌, ◌≡◌, refl, sym, ap, ◌∙◌, subst, ◌↔◌, Bool, true, false, ◌&&◌, ◌==◌, Option,
  none, some, List, [], ◌∷◌, arith,
}
use miri.VectorClock.Timestamp.{Spans, time}
use miri.VectorClock.{VClock, at}
use miri.VectorClock.Canonical.{IsCanonical}
use miri.DataRace.Orderings.{NaWriteType}
use miri.DataRace.Cell.{AtomicMemoryCellClocks, MemoryCellClocks}
use miri.DataRace.History.{tm}

abbrev pub write_type_eq : NaWriteType → NaWriteType → Bool
write_type_eq NaWriteType.allocate NaWriteType.allocate = true
write_type_eq NaWriteType.write NaWriteType.write = true
write_type_eq NaWriteType.retag NaWriteType.retag = true
write_type_eq NaWriteType.deallocate NaWriteType.deallocate = true
write_type_eq _ _ = false

write_type_eq-≡ : (a b : NaWriteType) → write_type_eq a b ≡ true → a ≡ b
write_type_eq-≡ NaWriteType.allocate NaWriteType.allocate h = refl
write_type_eq-≡ NaWriteType.allocate NaWriteType.write h = cc
write_type_eq-≡ NaWriteType.allocate NaWriteType.retag h = cc
write_type_eq-≡ NaWriteType.allocate NaWriteType.deallocate h = cc
write_type_eq-≡ NaWriteType.write NaWriteType.allocate h = cc
write_type_eq-≡ NaWriteType.write NaWriteType.write h = refl
write_type_eq-≡ NaWriteType.write NaWriteType.retag h = cc
write_type_eq-≡ NaWriteType.write NaWriteType.deallocate h = cc
write_type_eq-≡ NaWriteType.retag NaWriteType.allocate h = cc
write_type_eq-≡ NaWriteType.retag NaWriteType.write h = cc
write_type_eq-≡ NaWriteType.retag NaWriteType.retag h = refl
write_type_eq-≡ NaWriteType.retag NaWriteType.deallocate h = cc
write_type_eq-≡ NaWriteType.deallocate NaWriteType.allocate h = cc
write_type_eq-≡ NaWriteType.deallocate NaWriteType.write h = cc
write_type_eq-≡ NaWriteType.deallocate NaWriteType.retag h = cc
write_type_eq-≡ NaWriteType.deallocate NaWriteType.deallocate h = refl

abbrev pub size_eq : Option ℕ → Option ℕ → Bool
size_eq none none = true
size_eq (some m) (some n) = m == n
size_eq _ _ = false

size_eq-≡ : (a b : Option ℕ) → size_eq a b ≡ true → a ≡ b
size_eq-≡ none none h = refl
size_eq-≡ (some m) (some n) h = ap some (ground arith)
size_eq-≡ none (some n) h = cc
size_eq-≡ (some m) none h = cc

-- what the equality sees of the atomic clocks, and of a cell
pub record SeenAtomic : Type 0 where
  pub reads : List ℕ
  pub writes : List ℕ
  pub syncs : List ℕ
  pub size : Option ℕ

pub record Seen : Type 0 where
  pub index : ℕ
  pub written : ℕ
  pub kind : NaWriteType
  pub reads : List ℕ
  pub atomic : Option SeenAtomic

module _ {Span : Type 0} where
  -- `VTimestamp::eq` along two clocks
  unfoldable pub clock_eq : VClock Span → VClock Span → Bool
  clock_eq [] [] = true
  clock_eq (t ∷ a) (u ∷ b) = (time t == time u) && clock_eq a b
  clock_eq _ _ = false

  unfoldable pub atomic_eq :
      Option (AtomicMemoryCellClocks Span) → Option (AtomicMemoryCellClocks Span) → Bool
  unfolding clock_eq
  atomic_eq none none = true
  atomic_eq (some a) (some b) =
      clock_eq a.read_vector b.read_vector
      && clock_eq a.write_vector b.write_vector
      && clock_eq a.sync_vector b.sync_vector
      && size_eq a.size b.size
  atomic_eq _ _ = false

  unfoldable pub cell_eq : MemoryCellClocks Span → MemoryCellClocks Span → Bool
  unfolding clock_eq atomic_eq
  cell_eq a b =
      (a.write_index == b.write_index)
      && (time a.write_time == time b.write_time)
      && write_type_eq a.write_type b.write_type
      && clock_eq a.read b.read
      && atomic_eq a.atomic_ops b.atomic_ops

  abbrev pub times : VClock Span → List ℕ
  times [] = []
  times (t ∷ a) = time t ∷ times a

  abbrev pub seen_atomic : Option (AtomicMemoryCellClocks Span) → Option SeenAtomic
  seen_atomic none = none
  seen_atomic (some a) = some (record {
    reads = times a.read_vector;
    writes = times a.write_vector;
    syncs = times a.sync_vector;
    size = a.size;
  })

  abbrev pub seen : MemoryCellClocks Span → Seen
  seen m = record {
    index = m.write_index;
    written = time m.write_time;
    kind = m.write_type;
    reads = times m.read;
    atomic = seen_atomic m.atomic_ops;
  }

  clock_eq-times : (a b : VClock Span) → clock_eq a b ≡ true → times a ≡ times b
  unfolding clock_eq
  clock_eq-times [] [] h = refl
  clock_eq-times [] (u ∷ b) h = cc
  clock_eq-times (t ∷ a) [] h = cc
  clock_eq-times (t ∷ a) (u ∷ b) h =
      let p : time t ≡ time u = ground arith in
      let q : clock_eq a b ≡ true = ground arith in rw (p, clock_eq-times a b q) refl

  atomic_eq-seen :
      (a b : Option (AtomicMemoryCellClocks Span))
      → atomic_eq a b ≡ true
      → seen_atomic a ≡ seen_atomic b
  unfolding atomic_eq
  atomic_eq-seen none none h = refl
  atomic_eq-seen none (some b) h = cc
  atomic_eq-seen (some a) none h = cc
  atomic_eq-seen (some a) (some b) h =
      let r : clock_eq a.read_vector b.read_vector ≡ true = ground arith in
      let w : clock_eq a.write_vector b.write_vector ≡ true = ground arith in
      let y : clock_eq a.sync_vector b.sync_vector ≡ true = ground arith in
      let z : size_eq a.size b.size ≡ true = ground arith in
      rw
        (
          clock_eq-times a.read_vector b.read_vector r,
          clock_eq-times a.write_vector b.write_vector w,
          clock_eq-times a.sync_vector b.sync_vector y,
          size_eq-≡ a.size b.size z,
        )
        refl

  -- equal cells look the same
  pub cell_eq-seen : (a b : MemoryCellClocks Span) → cell_eq a b ≡ true → seen a ≡ seen b
  unfolding cell_eq
  cell_eq-seen a b h =
      let i : a.write_index ≡ b.write_index = ground arith in
      let t : time a.write_time ≡ time b.write_time = ground arith in
      let k : write_type_eq a.write_type b.write_type ≡ true = ground arith in
      let r : clock_eq a.read b.read ≡ true = ground arith in
      let o : atomic_eq a.atomic_ops b.atomic_ops ≡ true = ground arith in
      rw
        (
          i,
          t,
          write_type_eq-≡ a.write_type b.write_type k,
          clock_eq-times a.read b.read r,
          atomic_eq-seen a.atomic_ops b.atomic_ops o,
        )
        refl

-- the time at an index, and canonicity, from what is seen of a clock
nth : List ℕ → ℕ → ℕ
nth [] i = 0
nth (n ∷ l) zero = n
nth (n ∷ l) (suc i) = nth l i

LastPositive : List ℕ → Type 0
LastPositive [] = Unit
LastPositive (n ∷ []) = 0 < n
LastPositive (n ∷ m ∷ l) = LastPositive (m ∷ l)

module _ {Span : Type 0} ⦃s : Spans Span⦄ where
  nth-times : (c : VClock Span) (i : ℕ) → tm c i ≡ nth (times c) i
  unfolding at nth
  nth-times [] i = omega arith
  nth-times (t ∷ c) zero = refl
  nth-times (t ∷ c) (suc i) = nth-times c i

  LastPositive-times : (c : VClock Span) → IsCanonical c ↔ LastPositive (times c)
  unfolding LastPositive
  LastPositive-times [] = (λ k. k, λ k. k)
  LastPositive-times (t ∷ []) = (λ k. k, λ k. k)
  LastPositive-times (t ∷ u ∷ c) = LastPositive-times (u ∷ c)

  pub same-tm : (a b : VClock Span) (i : ℕ) → times a ≡ times b → tm a i ≡ tm b i
  same-tm a b i h = nth-times a i ∙ ap (λ l. nth l i) h ∙ sym (nth-times b i)

  pub same-IsCanonical : (a b : VClock Span) → times a ≡ times b → IsCanonical a → IsCanonical b
  same-IsCanonical a b h k =
      (LastPositive-times b).1 (subst LastPositive h ((LastPositive-times a).0 k))
