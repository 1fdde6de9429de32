-- ===== src/Lock/Barrier.antt =====
-- src/utils/lock.h: the spin barrier, as the steps of the threads that it is for.
use optics.Base.{ℕ, zero, suc, ◌+◌, ◌<◌, ◌≡◌, ◌≢◌, ◌==◌, if◌then◌else◌}

-- where a thread stands: before its addition, before a load of the loop, or past the barrier
pub data Stand : Type 0 where
  before : Stand
  waiting : Stand
  past : Stand

-- `struct sbarrier`, and its threads by their numbers, which are below the target
pub record Barrier : Type 0 where
  pub target : ℕ
  pub value : ℕ
  pub stand : ℕ → Stand

-- `sbarrier_init`
abbrev pub init : ℕ → Barrier
init target = record { target = target; value = 0; stand = λ t. before }

abbrev pub move : Barrier → ℕ → ℕ → Stand → Barrier
move b value t s = record b { value = value; stand = λ u. if u == t then s else b.stand u }

-- One atomic step of one thread in `sbarrier_wait`.
pub data Step (b : Barrier) : Barrier → Type 0 where
  add_last :
      (t : ℕ)
      → t < b.target
      → b.stand t ≡ before
      → b.value + 1 ≡ b.target
      → Step b (move b (b.value + 1) t past)
  add_early :
      (t : ℕ)
      → t < b.target
      → b.stand t ≡ before
      → b.value + 1 ≢ b.target
      → Step b (move b (b.value + 1) t waiting)
  load_other : (t : ℕ) → t < b.target → b.stand t ≡ waiting → b.value ≢ b.target → Step b b
  load_target :
      (t : ℕ)
      → t < b.target
      → b.stand t ≡ waiting
      → b.value ≡ b.target
      → Step b (move b b.value t past)

pub data Reachable (target : ℕ) : Barrier → Type 0 where
  start : Reachable target (init target)
  step : {b b' : Barrier} → Reachable target b → Step b b' → Reachable target b'

abbrev pub has_added : Stand → ℕ
has_added before = 0
has_added waiting = 1
has_added past = 1

-- how many of the first threads have added
unfoldable pub added : ℕ → (ℕ → Stand) → ℕ
added zero f = 0
added (suc n) f = has_added (f n) + added n f

-- any number of steps from one state to another
pub data Leads (b : Barrier) : Barrier → Type 0 where
  stay : Leads b b
  then_step : {b' b'' : Barrier} → Leads b b' → Step b' b'' → Leads b b''
