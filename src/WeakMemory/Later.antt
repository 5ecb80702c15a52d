-- ===== src/WeakMemory/Later.antt =====
-- weak_memory.rs: what a load may read once other stores and loads of the buffer have come between.
use miri.Base.{
  ℕ, zero, suc, ◌+◌, ◌≤◌, ◌<◌, ◌≡◌, refl, sym, ap, ◌∙◌, subst, inl, inr, Bool, true, false, leb,
  some, [], ◌∷◌, length, get_elem?, get-in_range, set_elem, get-set_same, map, Returns,
  weaken_Returns, Bool-cases, arith,
}
use mathlib.Core.Option.{some-injective}
use miri.VectorClock.Timestamp.{Spans}
use miri.VectorClock.{VClock, at}
use miri.DataRace.Orderings.{Checked, ok}
use miri.DataRace.Cell.{ThreadClockSet}
use miri.DataRace.History.{tm}
use miri.WeakMemory.{
  StoreElement, StoreBuffer, Loaded, fetch_store, load_impl, read_from_last_store, buffered_read,
  store_impl, buffered_write, stops,
}
use miri.WeakMemory.Read.{Fetched, buffered_read-Fetched}
use miri.WeakMemory.Fetch.{Allowed, fetch_store_lem}
use miri.WeakMemory.Coherence.{
  LoadsUpTo, Has, HasAt, Has-stops, HasAt-store_impl, store_impl-HasAt, HasAt-set_elem,
  HasAt-latest, try_insert-HasLoad,
}

module _ {Span Scalar : Type 0} ⦃s : Spans Span⦄ where
  -- `c` comes of `b` by stores and loads, `n` of them stores
  pub data Later (b : StoreBuffer Span Scalar) : StoreBuffer Span Scalar → ℕ → Type 0 where
    none_between : {c : StoreBuffer Span Scalar} {n : ℕ} → c ≡ b → n ≡ 0 → Later b c n
    write :
        {c d : StoreBuffer Span Scalar} {n m : ℕ} (val : Scalar) (index : ℕ)
        (clocks : ThreadClockSet Span) (is_seqcst : Bool) (sync_clock : VClock Span)
        → Later b c n
        → d ≡ buffered_write val index clocks is_seqcst sync_clock c
        → m ≡ suc n
        → Later b d m
    read :
        {c d : StoreBuffer Span Scalar} {n : ℕ} (is_seqcst : Bool) (index : ℕ)
        (clocks : ThreadClockSet Span) (r : ℕ)
        (validate : VClock Span → Checked (ThreadClockSet Span)) (l : Loaded Span Scalar)
        → Later b c n
        → buffered_read is_seqcst index clocks r validate c ≡ ok l
        → d ≡ l.buffer
        → Later b d n
    read_latest :
        {c d : StoreBuffer Span Scalar} {n : ℕ} (index : ℕ) (clocks : ThreadClockSet Span)
        (is_seqcst : Bool)
        → Later b c n
        → d ≡ read_from_last_store index clocks is_seqcst c
        → Later b d n

  set_elem-length :
      (b : StoreBuffer Span Scalar) (i : ℕ) (e : StoreElement Span Scalar)
      → length (set_elem b i e) ≡ length b
  set_elem-length [] i e = refl
  set_elem-length (x ∷ b) zero e = refl
  set_elem-length (x ∷ b) (suc i) e = ap suc (set_elem-length b i e)

  map-length :
      (f : StoreElement Span Scalar → StoreElement Span Scalar) (b : StoreBuffer Span Scalar)
      → length (map f b) ≡ length b
  map-length f [] = refl
  map-length f (x ∷ b) = ap suc (map-length f b)

  buffered_write-length :
      (val : Scalar) (index : ℕ) (clocks : ThreadClockSet Span) (is_seqcst : Bool)
      (sync_clock : VClock Span) (b : StoreBuffer Span Scalar)
      → 0 < length (buffered_write val index clocks is_seqcst sync_clock b)
  unfolding buffered_write store_impl
  buffered_write-length val index clocks true sync_clock b = omega arith
  buffered_write-length val index clocks false sync_clock b = omega arith

  read_latest-length :
      (index : ℕ) (clocks : ThreadClockSet Span) (is_seqcst : Bool) (b : StoreBuffer Span Scalar)
      → length (read_from_last_store index clocks is_seqcst b) ≡ length b
  unfolding read_from_last_store
  read_latest-length index clocks is_seqcst [] = refl
  read_latest-length index clocks is_seqcst (x ∷ b) = refl

  Later-length : (b c : StoreBuffer Span Scalar) (n : ℕ) → 0 < length b → Later b c n → 0 < length c
  Later-length b c n h (none_between e q) = omega (arith, ap length e)
  Later-length b c n h (write {c = c'} val index clocks sc sync l e q) =
      omega (arith, ap length e, buffered_write-length val index clocks sc sync c')
  Later-length b c n h (read {c = c'} sc index clocks r validate l k e q) =
      let d = buffered_read-Fetched sc index clocks r validate c' l e in
      omega (
        arith,
        Later-length b c' n h k,
        ap length q,
        ap length d.buffer_eq,
        set_elem-length c' l.position (load_impl index d.after sc d.elem),
      )
  Later-length b c n h (read_latest {c = c'} index clocks sc k e) =
      omega (arith, Later-length b c' n h k, ap length e, read_latest-length index clocks sc c')

  Later-HasAt :
      (i t p : ℕ) (b c : StoreBuffer Span Scalar) (n : ℕ)
      → HasAt i t p b
      → Later b c n
      → HasAt i t (p + n) c
  unfolding buffered_write
  Later-HasAt i t p b c n h (none_between e q) =
      let z : p ≡ p + n = omega (arith, q) in subst (λ m. HasAt i t m c) z (rw (e) h)
  Later-HasAt i t p b c n h (write {c = c'} {n = n'} val index clocks sc sync l e q) =
      let z : p + n ≡ suc (p + n') = omega (arith, q) in
      rw (z, e)
        (HasAt-store_impl i t (p + n') val index clocks.clock sc sync c'
          (Later-HasAt i t p b c' n' h l))
  Later-HasAt i t p b c n h (read {c = c'} sc index clocks r validate l k e q) =
      let d = buffered_read-Fetched sc index clocks r validate c' l e in
      rw (q, d.buffer_eq)
        (HasAt-set_elem i t (p + n) l.position index d.after sc d.elem c' d.elem_eq
          (Later-HasAt i t p b c' n h k))
  Later-HasAt i t p b c n h (read_latest {c = c'} index clocks sc k e) =
      rw (e) (HasAt-latest i t (p + n) index clocks sc c' (Later-HasAt i t p b c' n h k))

  -- nothing older than a store that the thread's clock knows of is read
  Allowed-known :
      (i t p : ℕ) (is_seqcst : Bool) (clocks : ThreadClockSet Span) (b : StoreBuffer Span Scalar)
      → HasAt i t p b
      → t ≤ tm clocks.clock i
      → (k : ℕ) → Allowed is_seqcst clocks b k
      → k ≤ p
  Allowed-known i t p is_seqcst clocks b h l k a = elim (Bool-cases (leb k p)) [
    | inl y ↦ ground arith
    | inr d ↦
        let lt : p < k = ground arith in
        let g = get-in_range b p (omega (arith, lt, a.in_range)) in
        let no : stops is_seqcst clocks g.0 ≡ false = a.searched_to p g.0 lt g.1 in
        let yes : stops is_seqcst clocks g.0 ≡ true =
          Has-stops i t is_seqcst clocks g.0 (h g.0 g.1) l in
        cc
  ]

  fetch-known :
      (i t p : ℕ) (is_seqcst : Bool) (clocks : ThreadClockSet Span) (r : ℕ)
      (b : StoreBuffer Span Scalar)
      → 0 < length b
      → HasAt i t p b
      → t ≤ tm clocks.clock i
      → Returns (fetch_store is_seqcst clocks r b) (λ k. k ≤ p)
  fetch-known i t p is_seqcst clocks r b n h l =
      weaken_Returns (Allowed is_seqcst clocks b) (λ k. k ≤ p) (fetch_store is_seqcst clocks r b)
        ((fetch_store_lem is_seqcst clocks b n).0 r) (Allowed-known i t p is_seqcst clocks b h l)

  -- Write-read coherence. After a store, and any stores and loads of the object after it, a load of
  -- a thread whose clock has the time of the store finds that store or one of the later ones.
  pub write_read_coherence :
      (val : Scalar) (index : ℕ) (writer : ThreadClockSet Span) (write_sc : Bool)
      (sync_clock : VClock Span) (b c : StoreBuffer Span Scalar) (n : ℕ)
      → Later (buffered_write val index writer write_sc sync_clock b) c n
      → (is_seqcst : Bool) (reader : ThreadClockSet Span) (r : ℕ)
      → tm writer.clock index ≤ tm reader.clock index
      → Returns (fetch_store is_seqcst reader r c) (λ k. k ≤ n)
  unfolding buffered_write
  write_read_coherence val index writer write_sc sync_clock b c n l is_seqcst reader r h =
      let z : 0 + n ≡ n = omega arith in
      let d : StoreBuffer Span Scalar = buffered_write val index writer write_sc sync_clock b in
      let has = store_impl-HasAt val index writer.clock write_sc sync_clock b in
      fetch-known index (tm writer.clock index) n is_seqcst reader r c
        (Later-length d c n (buffered_write-length val index writer write_sc sync_clock b) l)
        (subst (λ m. HasAt index (tm writer.clock index) m c) z
          (Later-HasAt index (tm writer.clock index) 0 d c n has l))
        h

  buffered_read-HasAt :
      (is_seqcst : Bool) (index : ℕ) (clocks : ThreadClockSet Span) (r : ℕ)
      (validate : VClock Span → Checked (ThreadClockSet Span)) (b : StoreBuffer Span Scalar)
      (l : Loaded Span Scalar) (t : ℕ) (d : Fetched is_seqcst index clocks r validate b l)
      → LoadsUpTo index t d.elem.load_info.timestamps
      → tm d.after.clock index ≤ t
      → HasAt index t l.position l.buffer
  unfolding load_impl
  buffered_read-HasAt is_seqcst index clocks r validate b l t d u m e g =
      let x = load_impl index d.after is_seqcst d.elem in
      let same : x ≡ e = some-injective _ _ (
        sym (get-set_same b l.position x d.elem d.elem_eq)
        ∙ sym (ap (λ z. get_elem? z l.position) d.buffer_eq)
        ∙ g) in
      subst (Has index t) same
        (inr (try_insert-HasLoad index t d.elem.load_info.timestamps (at d.after.clock index) u m))

  -- Read-read coherence. After a load at a time of its thread, and any stores and loads of the
  -- object after it, a load of a thread whose clock has that time finds the store that the first
  -- load found or a newer one. The times of the thread's loads already recorded at that store are
  -- not later than this one.
  pub read_read_coherence :
      (first_sc : Bool) (index : ℕ) (clocks : ThreadClockSet Span) (q : ℕ)
      (validate : VClock Span → Checked (ThreadClockSet Span)) (b : StoreBuffer Span Scalar)
      (l : Loaded Span Scalar) (t : ℕ) (c : StoreBuffer Span Scalar) (n : ℕ)
      → 0 < length b
      → (read : buffered_read first_sc index clocks q validate b ≡ ok l)
      → ((e : StoreElement Span Scalar)
          → get_elem? b l.position ≡ some e
          → LoadsUpTo index t e.load_info.timestamps)
      → ((sync_clock : VClock Span) (after : ThreadClockSet Span)
          → validate sync_clock ≡ ok after
          → tm after.clock index ≤ t)
      → Later l.buffer c n
      → (is_seqcst : Bool) (reader : ThreadClockSet Span) (r : ℕ) → t ≤ tm reader.clock index
      → Returns (fetch_store is_seqcst reader r c) (λ k. k ≤ l.position + n)
  read_read_coherence first_sc index clocks q validate b l t c n z k u v later is_seqcst reader r
        h =
      let d = buffered_read-Fetched first_sc index clocks q validate b l k in
      let has =
        buffered_read-HasAt first_sc index clocks q validate b l t d (u d.elem d.elem_eq)
          (v d.elem.sync_clock d.after d.validated) in
      let x : StoreElement Span Scalar = load_impl index d.after first_sc d.elem in
      let nonempty : 0 < length l.buffer =
        omega (arith, z, ap length d.buffer_eq, set_elem-length b l.position x) in
      fetch-known index t (l.position + n) is_seqcst reader r c
        (Later-length l.buffer c n nonempty later)
        (Later-HasAt index t l.position l.buffer c n has later) h
