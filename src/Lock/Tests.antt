-- ===== src/Lock/Tests.antt =====
-- Two threads that race for the lock, and two that meet at the barrier.
use optics.Base.{ℕ, ◌<◌, ◌≡◌, ◌≢◌, refl, arith}
use optics.Lock.{
  Lock, loading, exchanging, owning, go, fresh, call, load_free, exchange, exchange_fails,
  Reachable, start, step,
}
use optics.Lock.Exclusion.{Reachable-exclusive}
use optics.Lock.Barrier
use optics.Lock.Meeting.{Reachable-meets}
use optics.Lock.Leaving.{Reachable-leaves}

-- both load a free lock, thread 1 wins the exchange, and that of thread 2 fails
abbrev called : Lock
called = go (go fresh 0 1 loading) 0 2 loading

abbrev loaded : Lock
loaded = go (go called 0 1 exchanging) 0 2 exchanging

abbrev won : Lock
won = go (go loaded 1 1 owning) 1 2 loading

called-Reachable : Reachable called
called-Reachable = step (step start (call 1 refl)) (call 2 refl)

loaded-Reachable : Reachable loaded
loaded-Reachable = step (step called-Reachable (load_free 1 refl refl)) (load_free 2 refl refl)

won-Reachable : Reachable won
won-Reachable = step (step loaded-Reachable (exchange 1 refl refl)) (exchange_fails 2 refl)

abbrev winner : ℕ
winner = 1

Reachable-exclusive_example : (winner ≡ winner) × (won.value ≢ 0)
Reachable-exclusive_example = Reachable-exclusive winner winner won-Reachable refl refl

-- the barrier of two threads: thread 1 waits, and thread 0 is the last
abbrev early : Barrier.Barrier
early = Barrier.move (Barrier.init 2) 1 1 Barrier.waiting

abbrev full : Barrier.Barrier
full = Barrier.move early 2 0 Barrier.past

early-Reachable : Barrier.Reachable 2 early
early-Reachable =
    Barrier.step Barrier.start (Barrier.add_early 1 (omega arith) refl (λ e. omega arith))

full-Reachable : Barrier.Reachable 2 full
full-Reachable = Barrier.step early-Reachable (Barrier.add_last 0 (omega arith) refl refl)

Reachable-meets_example : full.stand 1 ≢ Barrier.before
Reachable-meets_example = Reachable-meets 0 1 full-Reachable refl (omega arith)

Reachable-leaves_example :
    (b : Barrier.Barrier) × Barrier.Leads early b × ((t : ℕ) → t < 2 → b.stand t ≡ Barrier.past)
Reachable-leaves_example = Reachable-leaves early-Reachable
