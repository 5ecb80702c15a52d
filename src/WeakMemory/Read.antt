-- ===== src/WeakMemory/Read.antt =====
-- weak_memory.rs: what a buffered load that returns has done.
use miri.Base.{
  ℕ, ◌≡◌, refl, sym, ap, ◌∙◌, Bool, Option, none, some, get_elem?, set_elem, Outcome, ret, panic,
  unwrap,
}
use miri.VectorClock.Timestamp.{Spans}
use miri.VectorClock.{VClock}
use miri.DataRace.Orderings.{Checked, panicked, data_race, ok, ◌>>=◌, lift}
use miri.DataRace.Cell.{ThreadClockSet}
use miri.WeakMemory.{
  recency_of, StoreElement, StoreBuffer, Loaded, fetch_store, load_impl, buffered_read,
}

pub ok-injective : {A : Type 0} {a b : A} → ok a ≡ ok b → a ≡ b
ok-injective p = cc

module _ {Span Scalar : Type 0} ⦃s : Spans Span⦄ where
  -- what a buffered load that returns has done
  pub record Fetched (is_seqcst : Bool) (index : ℕ) (clocks : ThreadClockSet Span) (r : ℕ)
      (validate : VClock Span → Checked (ThreadClockSet Span)) (b : StoreBuffer Span Scalar)
      (l : Loaded Span Scalar) : Type 0 where
    pub elem : StoreElement Span Scalar
    pub after : ThreadClockSet Span
    pub fetched : fetch_store is_seqcst clocks r b ≡ ret l.position
    pub elem_eq : get_elem? b l.position ≡ some elem
    pub validated : validate elem.sync_clock ≡ ok after
    pub buffer_eq : l.buffer ≡ set_elem b l.position (load_impl index after is_seqcst elem)

  pub buffered_read-Fetched :
      (is_seqcst : Bool) (index : ℕ) (clocks : ThreadClockSet Span) (r : ℕ)
      (validate : VClock Span → Checked (ThreadClockSet Span)) (b : StoreBuffer Span Scalar)
      (l : Loaded Span Scalar)
      → buffered_read is_seqcst index clocks r validate b ≡ ok l
      → Fetched is_seqcst index clocks r validate b l
  unfolding buffered_read
  buffered_read-Fetched is_seqcst index clocks r validate b l h =
      by_fetch (fetch_store is_seqcst clocks r b) refl h
    where
      tail : ℕ → StoreElement Span Scalar → ThreadClockSet Span → Loaded Span Scalar
      tail position e after = record {
        position = position;
        value = e.val;
        recency = recency_of position;
        buffer = set_elem b position (load_impl index after is_seqcst e);
      }

      by_validate :
          (position : ℕ) (e : StoreElement Span Scalar) (v : Checked (ThreadClockSet Span))
          → fetch_store is_seqcst clocks r b ≡ ret position
          → get_elem? b position ≡ some e
          → validate e.sync_clock ≡ v
          → (v >>= λ after. ok (tail position e after)) ≡ ok l
          → Fetched is_seqcst index clocks r validate b l
      by_validate position e panicked f g v k = cc
      by_validate position e data_race f g v k = cc
      by_validate position e (ok after) f g v k =
          let p : tail position e after ≡ l = ok-injective k in
          let q : position ≡ l.position = ap (λ x. x.position) p in
          record {
            elem = e;
            after = after;
            fetched = f ∙ ap ret q;
            elem_eq = ap (get_elem? b) (sym q) ∙ g;
            validated = v;
            buffer_eq =
                sym (ap (λ x. x.buffer) p)
                ∙ ap (λ i. set_elem b i (load_impl index after is_seqcst e)) q;
          }

      by_elem :
          (position : ℕ) (o : Option (StoreElement Span Scalar))
          → fetch_store is_seqcst clocks r b ≡ ret position
          → get_elem? b position ≡ o
          → (lift (unwrap o) >>= λ e. validate e.sync_clock >>= λ after. ok (tail position e after))
            ≡ ok l
          → Fetched is_seqcst index clocks r validate b l
      by_elem position none f g k = cc
      by_elem position (some e) f g k = by_validate position e (validate e.sync_clock) f g refl k

      by_fetch :
          (o : Outcome ℕ)
          → fetch_store is_seqcst clocks r b ≡ o
          → (lift o >>= λ position. lift (unwrap (get_elem? b position)) >>= λ e.
              validate e.sync_clock >>= λ after. ok (tail position e after))
            ≡ ok l
          → Fetched is_seqcst index clocks r validate b l
      by_fetch panic f k = cc
      by_fetch (ret position) f k = by_elem position (get_elem? b position) f refl k
