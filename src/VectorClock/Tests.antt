-- ===== src/VectorClock/Tests.antt =====
-- Runs of the clocks at concrete inputs, with spans that are numbers (0 the dummy).
use miri.Base.{ℕ, ◌+◌, ◌<◌, ◌≡◌, ◌==◌, if◌then◌else◌, [], ◌∷◌, Returns, arith}
use miri.VectorClock.Timestamp.{
  Spans, NaReadType, VTimestamp, new, time, read_type, u32_mod, new_round_trip,
}
use miri.VectorClock.{VClock, partial_cmp}
use miri.VectorClock.Canonical.{IsCanonical, pointwise_le}
use miri.VectorClock.Compare.{ordering, partial_cmp_lem}

instance abbrev number_spans : Spans ℕ
number_spans = record {
  dummy = 0;
  is_dummy = λ s. s == 0;
  substitute_dummy = λ s t. if s == 0 then t else s;
}

-- the times 1, 0 and 2
abbrev stamp : ℕ → VTimestamp ℕ
stamp t = record { time_and_read_type = t + t; span = 7 }

abbrev a : VClock ℕ
a = stamp 1 ∷ stamp 0 ∷ stamp 2 ∷ []

abbrev b : VClock ℕ
b = stamp 0 ∷ stamp 3 ∷ []

a-IsCanonical : IsCanonical a
a-IsCanonical = omega arith

b-IsCanonical : IsCanonical b
b-IsCanonical = omega arith

new_round_trip_example : Returns (new {Span = ℕ} 5 NaReadType.retag 7) λ v.
    (time v ≡ 5)
    × (read_type v ≡ NaReadType.retag)
    × (v.span ≡ 7)
    × (v.time_and_read_type < u32_mod)
new_round_trip_example = new_round_trip {Span = ℕ} 5 NaReadType.retag 7 (omega arith)

partial_cmp_example : partial_cmp a b ≡ ordering (pointwise_le a b) (pointwise_le b a)
partial_cmp_example = partial_cmp_lem a b a-IsCanonical b-IsCanonical
