-- ===== src/WeakMemory/Buffers.antt =====
-- weak_memory.rs: `StoreBufferAlloc`, the store buffers of the atomic objects of an allocation, as
-- operations on a range object map. Whether the action is taken to be free of data races is an
-- argument.
use miri.Base.{
  ℕ, Bool, if◌then◌else◌, Option, none, some, List, [], get_elem?, Outcome, ret, ◌>>=◌, unwrap,
}
use miri.VectorClock.Timestamp.{Spans}
use miri.RangeObjectMap.{
  AllocRange, Elem, AccessType, perfectly_overlapping, empty, imperfectly_overlapping, access_type,
  insert_at_pos, remove_pos_range, remove_from_pos,
}
use miri.WeakMemory.{StoreBuffer, new}

abbrev pub StoreBufferAlloc : Type 0 → Type 0 → Type 0
StoreBufferAlloc Span Scalar = List (Elem (StoreBuffer Span Scalar))

-- the buffers after the operation, and `&mut buffers[pos]`
pub record BufferMut (Span Scalar : Type 0) : Type 0 where
  pub buffers : StoreBufferAlloc Span Scalar
  pub position : ℕ
  pub buffer : StoreBuffer Span Scalar

module _ {Span Scalar : Type 0} where
  unfoldable pub new_allocation : StoreBufferAlloc Span Scalar
  new_allocation = []

  -- the objects that overlap are forgotten
  abbrev pub forget :
      StoreBufferAlloc Span Scalar → AccessType → Outcome (StoreBufferAlloc Span Scalar)
  forget buffers (perfectly_overlapping pos) = remove_from_pos buffers pos
  forget buffers (imperfectly_overlapping first last) = remove_pos_range buffers first last
  forget buffers (empty pos) = ret buffers

  unfoldable pub non_atomic_write :
      Bool → AllocRange → StoreBufferAlloc Span Scalar → Outcome (StoreBufferAlloc Span Scalar)
  non_atomic_write data_race_free range buffers =
      if data_race_free then ret buffers else (access_type buffers range >>= forget buffers)

  -- `&buffer[pos]` where the object is at the range
  abbrev pub buffer_of :
      StoreBufferAlloc Span Scalar → AccessType → Outcome (Option (StoreBuffer Span Scalar))
  buffer_of buffers (perfectly_overlapping pos) =
      unwrap (get_elem? buffers pos) >>= λ e. ret (some e.object)
  buffer_of buffers (empty pos) = ret none
  buffer_of buffers (imperfectly_overlapping first last) = ret none

  unfoldable pub get_store_buffer :
      AllocRange → StoreBufferAlloc Span Scalar → Outcome (Option (StoreBuffer Span Scalar))
  get_store_buffer range buffers = access_type buffers range >>= buffer_of buffers

  abbrev pub index_mut : ℕ → StoreBufferAlloc Span Scalar → Outcome (BufferMut Span Scalar)
  index_mut pos buffers = unwrap (get_elem? buffers pos) >>= λ e.
      ret (record { buffers = buffers; position = pos; buffer = e.object })

module _ {Span Scalar : Type 0} ⦃s : Spans Span⦄ where
  -- the object at the range, after the arm of the match
  abbrev pub or_create :
      AllocRange
      → Option Scalar
      → StoreBufferAlloc Span Scalar
      → AccessType
      → Outcome (BufferMut Span Scalar)
  or_create range init buffers (perfectly_overlapping pos) = index_mut pos buffers
  or_create range init buffers (empty pos) =
      insert_at_pos buffers pos range (new init) >>= index_mut pos
  or_create range init buffers (imperfectly_overlapping first last) =
      remove_pos_range buffers first last >>= λ rest.
      insert_at_pos rest first range (new init) >>= index_mut first

  unfoldable pub get_or_create_store_buffer_mut :
      AllocRange → Option Scalar → StoreBufferAlloc Span Scalar → Outcome (BufferMut Span Scalar)
  get_or_create_store_buffer_mut range init buffers =
      access_type buffers range >>= or_create range init buffers
