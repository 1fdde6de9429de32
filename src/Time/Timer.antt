-- ===== src/Time/Timer.antt =====
-- The timer of src/optics.h, against the time between its two readings.
use optics.Base.{ℕ, ◌+◌, ◌*◌, ◌<◌, ◌≤◌, ◌^◌, ◌≡◌, refl, ◌==◌, some, if◌then◌else◌, ok, arith}
use optics.Lens.Float.{Float}
use optics.Time.{Timespec, second, elapsed_nanos, timer_elapsed, total}

-- how far the sum is above and below the time between two readings
abbrev pub above : Timespec → Timespec → ℕ
above t0 t1 = if t0.sec == t1.sec then 0 else second + 2 * t0.nsec

abbrev pub below : Timespec → Timespec → ℕ
below t0 t1 = if t0.sec == t1.sec then 0 else 2 * t1.nsec

elapsed_nanos_lem :
    (t0 t1 : Timespec)
    → total t0 ≤ total t1
    → t0.nsec < second
    → t1.nsec < second
    → t1.sec < 2 ^ 33
    → elapsed_nanos t0 t1 + total t0 + below t0 t1 ≡ total t1 + above t0 t1
unfolding elapsed_nanos
elapsed_nanos_lem t0 t1 later in0 in1 small = ground arith

module _ (F : Float) where
  open F use {D, mul, of_nat}

  -- For two readings in their order, with fewer than 10^9 nanoseconds each and seconds below 2^33,
  -- the timer scales the time between them where they are of the same second, and otherwise that
  -- time, and one second and twice the nanoseconds of the first more, less twice those of the last.
  pub timer_elapsed-total :
      (t0 t1 : Timespec) (scale : D)
      → total t0 ≤ total t1
      → t0.nsec < second
      → t1.nsec < second
      → t1.sec < 2 ^ 33
      → (nanos : ℕ) × (timer_elapsed F t0 (some t1) scale ≡ ok (mul (of_nat nanos) scale))
        × (nanos + total t0 + below t0 t1 ≡ total t1 + above t0 t1)
  unfolding timer_elapsed
  timer_elapsed-total t0 t1 scale later in0 in1 small =
      (elapsed_nanos t0 t1, refl, elapsed_nanos_lem t0 t1 later in0 in1 small)
