-- ===== src/WeakMemory.antt =====
-- src/concurrency/weak_memory.rs: the store buffer of an atomic object, from which a load may take a
-- value that is not the latest. A buffer is a list with the newest store first, where the source's
-- deque has it last. The values stored are the compiler's, a parameter; the random choice of a load
-- is an argument, and so is the data-race check that `buffered_read` is given.
mod Choose
pub mod Fetch
pub mod Coherence
pub mod Read
pub mod Later
pub mod Buffers
pub mod Objects
pub mod Atomics
pub mod Assign
pub mod Updating
mod Tests
use miri.Base.{
  ℕ, zero, suc, ◌+◌, ◌-◌, ◌%◌, ◌≡◌, Bool, true, false, not, ◌&&◌, ◌||◌, ◌==◌, leb, if◌then◌else◌,
  Option, none, some, List, [], ◌∷◌, length, take, get_elem?, set_elem, map, Outcome, panic, ret,
  unwrap,
}
use miri.VectorClock.Timestamp.{Spans, VTimestamp, time, timestamp_zero}
use miri.VectorClock.{VClock, at}
use miri.DataRace.Orderings.{Checked, ok, ◌>>=◌, lift}
use miri.DataRace.Cell.{ThreadClockSet}

abbrev pub store_buffer_limit : ℕ
store_buffer_limit = 128

pub data LoadRecency : Type 0 where
  latest outdated : LoadRecency

-- the hash map `timestamps` as a list of its entries
pub record LoadInfo (Span : Type 0) : Type 0 where
  pub timestamps : List (ℕ × VTimestamp Span)
  pub sc_loaded : Bool

pub record StoreElement (Span : Type 0) (Scalar : Type 0) : Type 0 where
  pub store_thread : ℕ
  pub store_timestamp : VTimestamp Span
  pub sync_clock : VClock Span
  pub is_seqcst : Bool
  pub val : Option Scalar
  pub load_info : LoadInfo Span

-- `StoreBuffer`
abbrev pub StoreBuffer : Type 0 → Type 0 → Type 0
StoreBuffer Span Scalar = List (StoreElement Span Scalar)

-- what a buffered load gives: the position and value of the store that is found, its recency, and
-- the buffer after the load
pub record Loaded (Span : Type 0) (Scalar : Type 0) : Type 0 where
  pub position : ℕ
  pub value : Option Scalar
  pub recency : LoadRecency
  pub buffer : StoreBuffer Span Scalar

module _ {Span : Type 0} where
  -- `try_insert`
  abbrev pub try_insert :
      List (ℕ × VTimestamp Span) → ℕ → VTimestamp Span → List (ℕ × VTimestamp Span)
  try_insert [] index t = (index, t) ∷ []
  try_insert ((i, u) ∷ l) index t =
      let rest = try_insert l index t in if i == index then (i, u) ∷ l else (i, u) ∷ rest

  abbrev pub no_loads : LoadInfo Span
  no_loads = record { timestamps = []; sc_loaded = false }

-- `choose`, for a random number
abbrev pub choose {ℓ} : {A : Type ℓ} → ℕ → List A → Option A
choose r [] = none
choose r (a ∷ l) = get_elem? (a ∷ l) (r % length (a ∷ l))

-- whether a position is that of the last store
abbrev pub recency_of : ℕ → LoadRecency
recency_of position = if position == 0 then LoadRecency.latest else LoadRecency.outdated

module _ {Span : Type 0} ⦃s : Spans Span⦄ where
  -- the timestamp is among those of the clock
  abbrev pub in_clock : VTimestamp Span → VClock Span → ℕ → Bool
  in_clock t clock index = leb (time t) (time (at clock index))

  -- `timestamps.iter().any(..)`
  abbrev pub any_load_in : List (ℕ × VTimestamp Span) → VClock Span → Bool
  any_load_in [] clock = false
  any_load_in ((i, t) ∷ l) clock = in_clock t clock i || any_load_in l clock

module _ {Span Scalar : Type 0} ⦃s : Spans Span⦄ where
  -- whether `fetch_store` searches no further than this store
  unfoldable pub stops : Bool → ThreadClockSet Span → StoreElement Span Scalar → Bool
  stops is_seqcst clocks e =
      in_clock e.store_timestamp clocks.clock e.store_thread
      || (any_load_in e.load_info.timestamps clocks.clock
          || ((in_clock e.store_timestamp clocks.write_seqcst e.store_thread && e.is_seqcst)
              || ((is_seqcst && in_clock e.store_timestamp clocks.read_seqcst e.store_thread)
                  || (is_seqcst && e.load_info.sc_loaded))))

  -- the stores from the newest one on that are searched, with their positions
  unfoldable pub searched :
      Bool → ThreadClockSet Span → ℕ → StoreBuffer Span Scalar → List (ℕ × StoreElement Span Scalar)
  unfolding stops
  searched is_seqcst clocks k [] = []
  searched is_seqcst clocks k (e ∷ b) =
      let rest = searched is_seqcst clocks (suc k) b in
      (k, e) ∷ (if stops is_seqcst clocks e then [] else rest)

  -- an SC load ignores all but the last store marked SC
  unfoldable pub last_sc : Bool → Bool → List (ℕ × StoreElement Span Scalar) → List ℕ
  last_sc is_seqcst found_sc [] = []
  last_sc is_seqcst found_sc ((k, e) ∷ l) =
      let rest = last_sc is_seqcst (found_sc || (is_seqcst && e.is_seqcst)) l in
      if is_seqcst && e.is_seqcst && found_sc then rest else k ∷ rest

  unfoldable pub candidates : Bool → ThreadClockSet Span → StoreBuffer Span Scalar → List ℕ
  unfolding searched last_sc
  candidates is_seqcst clocks b = last_sc is_seqcst false (searched is_seqcst clocks 0 b)

  -- the position of the store that is chosen
  unfoldable pub fetch_store : Bool → ThreadClockSet Span → ℕ → StoreBuffer Span Scalar → Outcome ℕ
  unfolding candidates
  fetch_store is_seqcst clocks r b = unwrap (choose r (candidates is_seqcst clocks b))

  -- the store after the load; its value is that of the store
  unfoldable pub load_impl :
      ℕ → ThreadClockSet Span → Bool → StoreElement Span Scalar → StoreElement Span Scalar
  load_impl index clocks is_seqcst e = record e {
    load_info = record {
      timestamps = try_insert e.load_info.timestamps index (at clocks.clock index);
      sc_loaded = e.load_info.sc_loaded || is_seqcst;
    };
  }

  -- `read_from_last_store`
  unfoldable pub read_from_last_store :
      ℕ → ThreadClockSet Span → Bool → StoreBuffer Span Scalar → StoreBuffer Span Scalar
  unfolding load_impl
  read_from_last_store index clocks is_seqcst [] = []
  read_from_last_store index clocks is_seqcst (e ∷ b) = load_impl index clocks is_seqcst e ∷ b

  -- `validate` is given the clock of the store, and gives the thread's clocks after the check
  unfoldable pub buffered_read :
      Bool
      → ℕ
      → ThreadClockSet Span
      → ℕ
      → (VClock Span → Checked (ThreadClockSet Span))
      → StoreBuffer Span Scalar
      → Checked (Loaded Span Scalar)
  unfolding fetch_store load_impl
  buffered_read is_seqcst index clocks r validate b = do
    position ← lift (fetch_store is_seqcst clocks r b)
    e ← lift (unwrap (get_elem? b position))
    after ← validate e.sync_clock
    ok (record {
      position = position;
      value = e.val;
      recency = recency_of position;
      buffer = set_elem b position (load_impl index after is_seqcst e);
    })

  -- the mark of the stores that come before an SC store
  abbrev pub mark_sc : VClock Span → StoreElement Span Scalar → StoreElement Span Scalar
  mark_sc thread_clock e =
      if in_clock e.store_timestamp thread_clock e.store_thread
      then record e { is_seqcst = true }
      else (if any_load_in e.load_info.timestamps thread_clock
          then record e { is_seqcst = true }
          else e)

  -- `pop_front` where the buffer is full
  abbrev pub make_room : StoreBuffer Span Scalar → StoreBuffer Span Scalar
  make_room b = if leb store_buffer_limit (length b) then take (length b - 1) b else b

  abbrev pub new_store : Scalar → ℕ → VClock Span → Bool → VClock Span → StoreElement Span Scalar
  new_store val index thread_clock is_seqcst sync_clock = record {
    store_thread = index;
    store_timestamp = at thread_clock index;
    sync_clock = sync_clock;
    is_seqcst = is_seqcst;
    val = some val;
    load_info = no_loads;
  }

  unfoldable pub store_impl :
      Scalar
      → ℕ
      → VClock Span
      → Bool
      → VClock Span
      → StoreBuffer Span Scalar
      → StoreBuffer Span Scalar
  store_impl val index thread_clock is_seqcst sync_clock b =
      let c : StoreBuffer Span Scalar =
        new_store val index thread_clock is_seqcst sync_clock ∷ make_room b in
      if is_seqcst then map (mark_sc thread_clock) c else c

  -- `buffered_write`
  unfoldable pub buffered_write :
      Scalar
      → ℕ
      → ThreadClockSet Span
      → Bool
      → VClock Span
      → StoreBuffer Span Scalar
      → StoreBuffer Span Scalar
  unfolding store_impl
  buffered_write val index clocks is_seqcst sync_clock b =
      store_impl val index clocks.clock is_seqcst sync_clock b

  -- `StoreBuffer::new`
  unfoldable pub new : Option Scalar → StoreBuffer Span Scalar
  new init =
      record {
        store_thread = 0;
        store_timestamp = timestamp_zero;
        sync_clock = [];
        is_seqcst = false;
        val = init;
        load_info = no_loads;
      }
      ∷ []
