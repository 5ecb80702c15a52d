-- ===== src/DataRace/Orderings.antt =====
-- data_race.rs: orderings, kinds of accesses, and the outcome of a check.
use miri.Base.{Bool, true, false, Outcome, panic, ret}

pub data AtomicRwOrd : Type 0 where
  relaxed acquire release acq_rel seq_cst : AtomicRwOrd

pub data AtomicReadOrd : Type 0 where
  relaxed acquire seq_cst : AtomicReadOrd

pub data AtomicWriteOrd : Type 0 where
  relaxed release seq_cst : AtomicWriteOrd

pub data AtomicFenceOrd : Type 0 where
  acquire release acq_rel seq_cst : AtomicFenceOrd

pub data NaWriteType : Type 0 where
  allocate write retag deallocate : NaWriteType

-- the tests of an ordering against one constructor, and the `matches!` of `validate_atomic_rmw`
abbrev pub read_is_relaxed : AtomicReadOrd → Bool
read_is_relaxed AtomicReadOrd.relaxed = true
read_is_relaxed _ = false

abbrev pub write_is_relaxed : AtomicWriteOrd → Bool
write_is_relaxed AtomicWriteOrd.relaxed = true
write_is_relaxed _ = false

abbrev pub acquires : AtomicRwOrd → Bool
acquires AtomicRwOrd.acquire = true
acquires AtomicRwOrd.acq_rel = true
acquires AtomicRwOrd.seq_cst = true
acquires _ = false

abbrev pub releases : AtomicRwOrd → Bool
releases AtomicRwOrd.release = true
releases AtomicRwOrd.acq_rel = true
releases AtomicRwOrd.seq_cst = true
releases _ = false

-- the tests of a fence's ordering: not `Release`, not `Acquire`, and `SeqCst`
abbrev pub acquires_fence : AtomicFenceOrd → Bool
acquires_fence AtomicFenceOrd.release = false
acquires_fence _ = true

abbrev pub releases_fence : AtomicFenceOrd → Bool
releases_fence AtomicFenceOrd.acquire = false
releases_fence _ = true

abbrev pub is_seq_cst : AtomicFenceOrd → Bool
is_seq_cst AtomicFenceOrd.seq_cst = true
is_seq_cst _ = false

-- `Result<_, DataRace>` of code that may panic
pub data Checked {ℓ} (A : Type ℓ) : Type ℓ where
  panicked : Checked A
  data_race : Checked A
  ok : A → Checked A

infixl 5 ◌>>=◌
abbrev pub ◌>>=◌ {ℓ κ} : {A : Type ℓ} {B : Type κ} → Checked A → (A → Checked B) → Checked B
panicked >>= f = panicked
data_race >>= f = data_race
ok a >>= f = f a

abbrev pub lift {ℓ} : {A : Type ℓ} → Outcome A → Checked A
lift panic = panicked
lift (ret a) = ok a

-- `if test { Ok(a) } else { Err(DataRace) }`
abbrev pub ok_if {ℓ} : {A : Type ℓ} → Bool → A → Checked A
ok_if true a = ok a
ok_if false a = data_race
