-- ===== src/WeakMemory/Objects.antt =====
-- weak_memory.rs: the operations on the store buffers of an allocation.
use miri.Base.{
  ℕ, ◌<◌, ◌≡◌, refl, sym, ap, ◌∙◌, Bool, true, false, if◌then◌else◌, Option, none, some, get_elem?,
  Outcome, panic, ret, ◌>>=◌, Returns, arith,
}
use miri.VectorClock.Timestamp.{Spans}
use miri.RangeObjectMap.{
  AllocRange, end, u64_mod, Elem, AccessType, perfectly_overlapping, empty, imperfectly_overlapping,
  access_type, insert_at_pos,
}
use miri.RangeObjectMap.Search.{IsSorted}
use miri.RangeObjectMap.Access.{overlaps, AccessSpec, access_type_lem}
use miri.RangeObjectMap.Insert.{inserted, insert_at_pos-eq, insert_at_pos_lem}
use miri.RangeObjectMap.Remove.{
  kept, kept-IsSorted, kept-kept, kept-inserted, empty-kept, remove_pos_range-eq,
  remove_from_pos-eq, gap-AccessSpec,
}
use miri.WeakMemory.{StoreBuffer, new}
use miri.WeakMemory.Buffers.{
  StoreBufferAlloc, BufferMut, forget, non_atomic_write, get_store_buffer, or_create, index_mut,
  get_or_create_store_buffer_mut,
}

pub returned :
    {A : Type 0} (P : A → Type 0) (m : Outcome A) → Returns m P → (a : A) × (m ≡ ret a) × P a
returned P panic p = absurd p
returned P (ret a) p = (a, refl, p)

at_range :
    {T : Type 0} (e : Elem T) (range : AllocRange)
    → e.range.start ≡ range.start
    → e.range.size ≡ range.size
    → e ≡ record { range = range; object = e.object }
at_range e range p q = λ i. record { range = record { start = p i; size = q i }; object = e.object }

pub overlaps-own :
    {T : Type 0} (range : AllocRange) (x : T)
    → 0 < range.size
    → overlaps (record { range = range; object = x }) range ≡ true
overlaps-own range x p = ground arith

module _ {Span Scalar : Type 0} ⦃s : Spans Span⦄ where
  forget_lem :
      (range : AllocRange) (buffers : StoreBufferAlloc Span Scalar) (a : AccessType)
      → IsSorted buffers
      → AccessSpec buffers range a
      → forget buffers a ≡ ret (kept buffers range)
  forget_lem range buffers (perfectly_overlapping pos) h k =
      remove_from_pos-eq buffers range pos h k
  forget_lem range buffers (empty pos) h k = ap ret (sym (empty-kept buffers range pos k))
  forget_lem range buffers (imperfectly_overlapping first last) h k =
      remove_pos_range-eq buffers range first last k

  -- A non-atomic write of a range that is not empty and ends within 64 bits, on store buffers in
  -- order, does not panic. It leaves the buffers as they are where the action is taken to be free of
  -- data races, and otherwise removes exactly those of the objects that share a byte with the range.
  pub non_atomic_write_lem :
      (data_race_free : Bool) (range : AllocRange) (buffers : StoreBufferAlloc Span Scalar)
      → IsSorted buffers
      → 0 < range.size
      → end range < u64_mod
      → (non_atomic_write data_race_free range buffers
          ≡ ret (if data_race_free then buffers else kept buffers range))
        × IsSorted (if data_race_free then buffers else kept buffers range)
  unfolding non_atomic_write
  non_atomic_write_lem true range buffers h p b = (refl, h)
  non_atomic_write_lem false range buffers h p b =
      let r =
        returned (AccessSpec buffers range) (access_type buffers range)
          (access_type_lem buffers range h p b) in
      (rw (r.1) (forget_lem range buffers (r.0) h (r.2)), kept-IsSorted buffers range h)

  -- the object that is found, or else a new one
  abbrev pub or_new : Option Scalar → Option (StoreBuffer Span Scalar) → StoreBuffer Span Scalar
  or_new init none = new init
  or_new init (some buffer) = buffer

  abbrev pub BufferSpec :
      AllocRange → Option Scalar → StoreBufferAlloc Span Scalar → BufferMut Span Scalar → Type 0
  BufferSpec range init buffers r =
      IsSorted r.buffers
      × (get_elem? r.buffers r.position ≡ some (record { range = range; object = r.buffer }))
      × (kept r.buffers range ≡ kept buffers range)
      × ((o : Option (StoreBuffer Span Scalar)) × (get_store_buffer range buffers ≡ ret o)
          × (r.buffer ≡ or_new init o))

  index_lem :
      (P : BufferMut Span Scalar → Type 0) (pos : ℕ) (buffers : StoreBufferAlloc Span Scalar)
      (e : Elem (StoreBuffer Span Scalar))
      → get_elem? buffers pos ≡ some e
      → P (record { buffers = buffers; position = pos; buffer = e.object })
      → Returns (index_mut pos buffers) P
  index_lem P pos buffers e g p = rw (g) p

  create_lem :
      (range : AllocRange) (init : Option Scalar) (buffers rest : StoreBufferAlloc Span Scalar)
      (pos : ℕ)
      → IsSorted rest
      → 0 < range.size
      → AccessSpec rest range (empty pos)
      → kept rest range ≡ kept buffers range
      → get_store_buffer range buffers ≡ ret none
      → Returns
          (insert_at_pos rest pos range (new init) >>= index_mut pos)
          (BufferSpec range init buffers)
  create_lem range init buffers rest pos h p a k g =
      let c : StoreBuffer Span Scalar = new init in
      let e : Elem (StoreBuffer Span Scalar) = record { range = range; object = c } in
      let eq = insert_at_pos-eq rest pos range c p a in
      let q : IsSorted (inserted rest pos e) × (get_elem? (inserted rest pos e) pos ≡ some e) =
        rw eq at (insert_at_pos_lem rest pos range c h p a) in
      let same : kept (inserted rest pos e) range ≡ kept buffers range =
        kept-inserted rest pos e range (overlaps-own range c p) ∙ k in
      rw (eq) (
        index_lem (BufferSpec range init buffers) pos (inserted rest pos e) e (q.1)
          (q.0, q.1, same, (none, g, refl)))

  or_create_lem :
      (range : AllocRange) (init : Option Scalar) (buffers : StoreBufferAlloc Span Scalar)
      (a : AccessType)
      → IsSorted buffers
      → 0 < range.size
      → access_type buffers range ≡ ret a
      → AccessSpec buffers range a
      → Returns (or_create range init buffers a) (BufferSpec range init buffers)
  unfolding get_store_buffer
  or_create_lem range init buffers (perfectly_overlapping pos) h p e (x, g, q, r) =
      index_lem (BufferSpec range init buffers) pos buffers x g
        (h, g ∙ ap some (at_range x range q r), refl, (some x.object, rw (e, g) refl, refl))
  or_create_lem range init buffers (empty pos) h p e k =
      create_lem range init buffers buffers pos h p k refl (rw (e) refl)
  or_create_lem range init buffers (imperfectly_overlapping first last) h p e k =
      rw (remove_pos_range-eq buffers range first last k) (
        create_lem range init buffers (kept buffers range) first (kept-IsSorted buffers range h) p
          (gap-AccessSpec buffers range first last h k) (kept-kept buffers range) (rw (e) refl))

  -- On store buffers in order, `get_or_create_store_buffer_mut` of a range that is not empty and ends
  -- within 64 bits does not panic and leaves the buffers in order. It gives the buffer that
  -- `get_store_buffer` finds or else a new one, which is the object at the position it gives and
  -- has the range, and the buffers that share no byte with the range are as before.
  pub get_or_create_store_buffer_mut_lem :
      (range : AllocRange) (init : Option Scalar) (buffers : StoreBufferAlloc Span Scalar)
      → IsSorted buffers
      → 0 < range.size
      → end range < u64_mod
      → Returns (get_or_create_store_buffer_mut range init buffers) (BufferSpec range init buffers)
  unfolding get_or_create_store_buffer_mut
  get_or_create_store_buffer_mut_lem range init buffers h p b =
      let r =
        returned (AccessSpec buffers range) (access_type buffers range)
          (access_type_lem buffers range h p b) in
      rw (r.1) (or_create_lem range init buffers (r.0) h p (r.1) (r.2))
