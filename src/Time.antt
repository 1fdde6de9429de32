-- ===== src/Time.antt =====
-- src/utils/time.c and the timer of src/optics.h.
pub mod Sleep
pub mod Timer
mod Tests
use optics.Base.{
  ℕ, ◌+◌, ◌-◌, ◌*◌, ◌/◌, ◌%◌, ◌^◌, Bool, true, false, ◌&&◌, List, [], ◌∷◌, Option, none, some, ltb,
  leb, ◌==◌, if◌then◌else◌, Run, ok, abort, ◌>>=◌,
}
use optics.Lens.Float.{Float}

-- `struct timespec`, whose words are the 64-bit patterns of signed numbers
pub record Timespec : Type 0 where
  pub sec : ℕ
  pub nsec : ℕ

abbrev pub second : ℕ
second = 1000000000

-- `clock_wall` by the answer of the operating system
unfoldable pub clock_wall : Option Timespec → ℕ
clock_wall none = 0
clock_wall (some ts) = ts.sec

-- `clock_monotonic`
unfoldable pub clock_monotonic : Option Timespec → Run Timespec
clock_monotonic none = abort
clock_monotonic (some ts) = ok ts

-- `EINTR`
abbrev pub eintr : ℕ
eintr = 4

-- the time that `nsleep` sleeps until
unfoldable pub deadline : Timespec → ℕ → Timespec
deadline now nanos =
    let nsec = (now.nsec + nanos) % 2 ^ 64 in
    if leb second nsec && ltb nsec (2 ^ 63)
    then record { sec = (now.sec + nsec / second) % 2 ^ 64; nsec = nsec % second }
    else record now { nsec = nsec }

-- The loop of `nsleep`: the times that it asked to sleep until, and what it returns, or `none` while
-- it sleeps. The numbers are what the calls of `clock_nanosleep` return, 0 or the error, which leave
-- `errno` as it was.
unfoldable pub sleep_until : ℕ → Timespec → List ℕ → List Timespec × Option Bool
sleep_until errno ts [] = ([], none)
sleep_until errno ts (ret ∷ rest) =
    let (asked, last) = sleep_until errno ts rest in
    if ret == 0
    then (ts ∷ [], some true)
    else if errno == eintr
    then (ts ∷ asked, last)
    else (ts ∷ [], some false)

-- `nsleep`
unfoldable pub nsleep : Option Timespec → ℕ → ℕ → List ℕ → Run (List Timespec × Option Bool)
unfolding clock_monotonic deadline sleep_until
nsleep clock errno nanos rets =
    clock_monotonic clock >>= λ now. ok (sleep_until errno (deadline now nanos) rets)

-- `optics_timer_start`
unfoldable pub timer_start : Option Timespec → Run Timespec
timer_start none = abort
timer_start (some t) = ok t

-- the sum of `optics_timer_elapsed`, which is unsigned
unfoldable pub elapsed_nanos : Timespec → Timespec → ℕ
elapsed_nanos t0 t1 =
    let secs = (t1.sec + 2 ^ 64 - t0.sec) % 2 ^ 64 in
    let nanos =
      if secs == 0
      then (t1.nsec + 2 ^ 64 - t0.nsec) % 2 ^ 64
      else ((second + 2 ^ 64 - t1.nsec) % 2 ^ 64 + t0.nsec) % 2 ^ 64 in
    (secs * second + nanos) % 2 ^ 64

module _ (F : Float) where
  open F use {D, mul, of_nat}

  -- `optics_timer_elapsed`
  unfoldable pub timer_elapsed : Timespec → Option Timespec → D → Run D
  unfolding elapsed_nanos
  timer_elapsed t0 none scale = abort
  timer_elapsed t0 (some t1) scale = ok (mul (of_nat (elapsed_nanos t0 t1)) scale)

-- the nanoseconds of a time
abbrev pub total : Timespec → ℕ
total t = t.sec * second + t.nsec
