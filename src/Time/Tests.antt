-- ===== src/Time/Tests.antt =====
-- A sleep and a timer over the end of a second.
use optics.Base.{ℕ, ◌+◌, ◌*◌, ◌<◌, ◌≡◌, [], ◌∷◌, ◌++◌, some, arith, ok}
use optics.Lens.Float.{whole}
use optics.Time.{Timespec, second, total, eintr, nsleep, timer_elapsed}
use optics.Time.Sleep.{slept, nsleep-deadline}
use optics.Time.Timer.{above, below, timer_elapsed-total}

abbrev start : Timespec
start = record { sec = 7; nsec = 500000000 }

-- three quarters of a second later
abbrev later : Timespec
later = record { sec = 8; nsec = 250000000 }

-- a call is interrupted, which it returns, while `errno` is 0
nsleep-deadline_example :
    (ts : Timespec) × (total ts ≡ total start + 750000000)
    × (ts.nsec < second)
    × (nsleep (some start) 0 750000000 ((eintr ∷ []) ++ (0 ∷ [])) ≡ ok (slept 0 ts (eintr ∷ [])))
nsleep-deadline_example =
    nsleep-deadline start 0 750000000 (eintr ∷ []) [] (omega arith) (omega arith) (omega arith)
      (λ e. omega arith, tt)

timer_elapsed-total_example :
    (nanos : ℕ) × (timer_elapsed whole start (some later) 1 ≡ ok (nanos * 1))
    × (nanos + total start + below start later ≡ total later + above start later)
timer_elapsed-total_example =
    timer_elapsed-total whole start later 1 (omega arith) (omega arith) (omega arith) (omega arith)
