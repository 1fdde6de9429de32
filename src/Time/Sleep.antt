-- ===== src/Time/Sleep.antt =====
-- src/utils/time.c: until when a sleep lasts.
use optics.Base.{
  Option, [], inl, inr, Bool-cases, ◌==◌, if◌then◌else◌, length, ◌≢◌, ne→not-==, All, Bool, ℕ, suc,
  ◌+◌, ◌<◌, ◌^◌, ◌≡◌, ap, true, List, ◌∷◌, ◌++◌, some, replicate, ok, arith, false,
}
use optics.Time.{Timespec, second, total, eintr, deadline, sleep_until, nsleep}

deadline-total :
    (now : Timespec) (nanos : ℕ)
    → now.nsec < second
    → now.sec < 2 ^ 63
    → now.nsec + nanos < 2 ^ 63
    → (total (deadline now nanos) ≡ total now + nanos) × ((deadline now nanos).nsec < second)
unfolding deadline
deadline-total now nanos inside small short = ground arith

-- what becomes of a sleep after some calls that fail, and one that does not
abbrev pub slept : ℕ → Timespec → List ℕ → List Timespec × Option Bool
slept errno ts errors =
    if errno == eintr
    then (replicate (suc (length errors)) ts, some true)
    else (ts ∷ [], some (length errors == 0))

sleep_until-slept :
    (errno : ℕ) (ts : Timespec) (errors rest : List ℕ)
    → All (λ e. e ≢ 0) errors
    → sleep_until errno ts (errors ++ (0 ∷ rest)) ≡ slept errno ts errors
unfolding sleep_until
sleep_until-slept errno ts [] rest h = elim (Bool-cases (errno == eintr)) [
  | inl e ↦ rw e
  | inr e ↦ rw e
]
sleep_until-slept errno ts (x ∷ xs) rest h =
    let ih = sleep_until-slept errno ts xs rest h.1 in
    elim (Bool-cases (errno == eintr)) [
      | inl e ↦ rw (ne→not-== x 0 h.0, e, ih, e)
      | inr e ↦
          let long : (suc (length xs) == 0) ≡ false = ground arith in
          rw (ne→not-== x 0 h.0, e, long)
    ]

-- By a clock with fewer than 10^9 nanoseconds above its seconds, which are below 2^63, a sleep
-- whose nanoseconds and those of the clock are below 2^63 always asks to sleep until the moment
-- that is that many nanoseconds after the clock. If errno is EINTR, it asks again after every call
-- that returns an error, and returns true after one that returns 0; otherwise it asks once, and
-- returns whether that call returned 0.
pub nsleep-deadline :
    (now : Timespec) (errno nanos : ℕ) (errors rest : List ℕ)
    → now.nsec < second
    → now.sec < 2 ^ 63
    → now.nsec + nanos < 2 ^ 63
    → All (λ e. e ≢ 0) errors
    → (ts : Timespec) × (total ts ≡ total now + nanos)
      × (ts.nsec < second)
      × (nsleep (some now) errno nanos (errors ++ (0 ∷ rest)) ≡ ok (slept errno ts errors))
unfolding nsleep
nsleep-deadline now errno nanos errors rest inside small short failures =
    let (sum, below) = deadline-total now nanos inside small short in
    let ts = deadline now nanos in
    (ts, sum, below, ap ok (sleep_until-slept errno ts errors rest failures))
