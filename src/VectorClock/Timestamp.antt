-- ===== src/VectorClock/Timestamp.antt =====
-- src/concurrency/vector_clock.rs: `VTimestamp`, a 31-bit time and a read type in one `u32`, and the
-- compiler's spans. `NaReadType` is that of data_race.rs.
use Prim.Native.Nat.{bit_or, bit_or-bitwise}
use miri.Base.{
  Bool, ◌≡◌, Returns, Outcome, panic, ret, ◌>>=◌, if◌then◌else◌, ℕ, ◌+◌, ◌*◌, ◌/◌, ◌%◌, ◌^◌, ◌<◌,
  ◌≤◌, ltb, ◌==◌, arith,
}

-- The operations of `rustc_span::Span` that the clocks use.
pub record Spans (Span : Type 0) : Type 0 where
  pub dummy : Span
  pub is_dummy : Span → Bool
  pub substitute_dummy : Span → Span → Span

pub data NaReadType : Type 0 where
  read retag : NaReadType

pub record VTimestamp (Span : Type 0) : Type 0 where
  pub time_and_read_type : ℕ
  pub span : Span

abbrev pub u32_mod : ℕ
u32_mod = 2 ^ 32

-- a checked `u32` operation and its `expect`
abbrev pub checked_u32 : ℕ → Outcome ℕ
checked_u32 n = if ltb n u32_mod then ret n else panic

abbrev pub read_type_bit : NaReadType → ℕ
read_type_bit read = 0
read_type_bit retag = 1

unfoldable pub encode_time_and_read_type : ℕ → NaReadType → Outcome ℕ
encode_time_and_read_type t r = do
  doubled ← checked_u32 (t * 2)
  ret (bit_or (read_type_bit r) doubled)

module _ {Span : Type 0} where
  unfoldable pub new : ℕ → NaReadType → Span → Outcome (VTimestamp Span)
  unfolding encode_time_and_read_type
  new t r span = do
    code ← encode_time_and_read_type t r
    ret (record { time_and_read_type = code; span = span })

  -- `shr(1)`
  abbrev pub time : VTimestamp Span → ℕ
  time t = t.time_and_read_type / 2

  -- `& 1`
  unfoldable pub read_type : VTimestamp Span → NaReadType
  read_type t = if t.time_and_read_type % 2 == 0 then read else retag

  unfoldable pub set_time : VTimestamp Span → ℕ → Outcome (VTimestamp Span)
  unfolding encode_time_and_read_type read_type
  set_time t n = do
    code ← encode_time_and_read_type n (read_type t)
    ret (record t { time_and_read_type = code })

  unfoldable pub set_read_type : VTimestamp Span → NaReadType → Outcome (VTimestamp Span)
  unfolding encode_time_and_read_type
  set_read_type t r = do
    code ← encode_time_and_read_type (time t) r
    ret (record t { time_and_read_type = code })

-- `ZERO`
abbrev pub timestamp_zero : {Span : Type 0} ⦃s : Spans Span⦄ → VTimestamp Span
timestamp_zero ⦃s⦄ = record { time_and_read_type = 0; span = s.dummy }

zero-bit_or : (n : ℕ) → bit_or 0 n ≡ n
zero-bit_or n = bit_or-bitwise 0 n

one-bit_or : (n : ℕ) → bit_or 1 (n * 2) ≡ n * 2 + 1
one-bit_or n = omega (arith, bit_or-bitwise 1 (n * 2))

pub encode-eq :
    (t : ℕ) (r : NaReadType)
    → t < 2 ^ 31
    → encode_time_and_read_type t r ≡ ret (t * 2 + read_type_bit r)
unfolding encode_time_and_read_type
encode-eq t read h = ground (arith, zero-bit_or (t * 2))
encode-eq t retag h = ground (arith, one-bit_or t)

pub encode_overflow : (t : ℕ) (r : NaReadType) → 2 ^ 31 ≤ t → encode_time_and_read_type t r ≡ panic
unfolding encode_time_and_read_type
encode_overflow t r h = ground arith

-- A timestamp made of a time below 2 ^ 31 and a read type reads back both, and its code is a `u32`.
pub new_round_trip :
    {Span : Type 0} (t : ℕ) (r : NaReadType) (span : Span)
    → t < 2 ^ 31
    → Returns
        (new t r span)
        λ v. (time v ≡ t) × (read_type v ≡ r) × (v.span ≡ span) × (v.time_and_read_type < u32_mod)
unfolding new read_type
new_round_trip t read span h = ground (arith, encode-eq t read h)
new_round_trip t retag span h = ground (arith, encode-eq t retag h)

-- The setters change the part that they are named for and keep the other part and the span.
pub setters_lem :
    {Span : Type 0} (v : VTimestamp Span) (t : ℕ) (r : NaReadType)
    → t < 2 ^ 31
    → v.time_and_read_type < u32_mod
    → Returns (set_time v t) (λ w. (time w ≡ t) × (read_type w ≡ read_type v) × (w.span ≡ v.span))
      × Returns (set_read_type v r) (λ w. (time w ≡ time v) × (read_type w ≡ r) × (w.span ≡ v.span))
unfolding set_time set_read_type read_type
setters_lem v t r h k =
    (ground (arith, encode-eq t (read_type v)), ground (arith, encode-eq (time v) r))

-- the timestamp that `set_time` makes of a time that fits
abbrev pub with_time : {Span : Type 0} → VTimestamp Span → ℕ → VTimestamp Span
with_time v n = record v { time_and_read_type = n * 2 + read_type_bit (read_type v) }

pub set_time-eq :
    {Span : Type 0} (v : VTimestamp Span) (n : ℕ) → n < 2 ^ 31 → set_time v n ≡ ret (with_time v n)
unfolding set_time
set_time-eq v n h = rw (encode-eq n (read_type v) h)

pub time-with_time : {Span : Type 0} (v : VTimestamp Span) (n : ℕ) → time (with_time v n) ≡ n
unfolding read_type
time-with_time v n = ground arith
