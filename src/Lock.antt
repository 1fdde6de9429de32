-- ===== src/Lock.antt =====
-- src/utils/lock.h: the spin lock, as the steps of any number of threads.
pub mod Exclusion
pub mod Barrier
pub mod Meeting
pub mod Leaving
mod Tests
use optics.Base.{ℕ, ◌≡◌, ◌≢◌, ◌==◌, if◌then◌else◌}

-- where a thread stands: outside of `slock_lock`, before its load, before its exchange, or past it
pub data Place : Type 0 where
  outside : Place
  loading : Place
  exchanging : Place
  owning : Place

-- `struct slock`, and the threads by their numbers
pub record Lock : Type 0 where
  pub value : ℕ
  pub place : ℕ → Place

abbrev pub go : Lock → ℕ → ℕ → Place → Lock
go l value t p = record { value = value; place = λ u. if u == t then p else l.place u }

-- a lock that is zeroed, with every thread outside of it
abbrev pub fresh : Lock
fresh = record { value = 0; place = λ t. outside }

-- One atomic step of one thread. A weak exchange may also fail where the lock is free.
pub data Step (l : Lock) : Lock → Type 0 where
  call : (t : ℕ) → l.place t ≡ outside → Step l (go l l.value t loading)
  load_taken : (t : ℕ) → l.place t ≡ loading → l.value ≢ 0 → Step l (go l l.value t loading)
  load_free : (t : ℕ) → l.place t ≡ loading → l.value ≡ 0 → Step l (go l l.value t exchanging)
  exchange : (t : ℕ) → l.place t ≡ exchanging → l.value ≡ 0 → Step l (go l 1 t owning)
  exchange_fails : (t : ℕ) → l.place t ≡ exchanging → Step l (go l l.value t loading)
  try_lock : (t : ℕ) → l.place t ≡ outside → l.value ≡ 0 → Step l (go l 1 t owning)
  unlock : (t : ℕ) → l.place t ≡ owning → Step l (go l 0 t outside)

-- the states after any number of steps, in any order of the threads
pub data Reachable : Lock → Type 0 where
  start : Reachable fresh
  step : {l l' : Lock} → Reachable l → Step l l' → Reachable l'
