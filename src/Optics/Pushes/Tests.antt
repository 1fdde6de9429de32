-- ===== src/Optics/Pushes/Tests.antt =====
-- Two threads that push at the same time.
use optics.Base.{refl, arith, [], ◌∷◌}
use optics.Optics.{at}
use optics.Optics.Pushes.{
  outside, linking, exchanging, Pushes, load, link, exchange, exchange_fails, Reachable, start,
  step, Chain,
}
use optics.Optics.Pushes.Order.{Reachable-Chain}

-- thread 1 has linked node 10, and thread 2 node 20, each before an empty list
abbrev both : Pushes
both = record {
  head = 0;
  next = at (at (λ n. 0) 10 0) 20 0;
  stage = at (at (at (at (λ t. outside) 1 linking) 2 linking) 1 exchanging) 2 exchanging;
  node = at (at (λ t. 0) 1 10) 2 20;
  old = at (at (λ t. 0) 1 0) 2 0;
}

both-Reachable : Reachable both []
both-Reachable =
    step
      (step
        (step
          (step start (
            load 1 10 refl
              (record { there = λ e. omega arith; unlisted = tt; free = λ t h. absurd (h refl) })))
          (load 2 20 refl
            (record { there = λ e. omega arith; unlisted = tt; free = λ t h e. ground arith })))
        (link 1 refl))
      (link 2 refl)

-- thread 1 wins the exchange, and thread 2 tries again
abbrev pushed : Pushes
pushed = record both {
  head = 20;
  next = at both.next 20 10;
  stage = at (at (at (at both.stage 1 outside) 2 linking) 2 exchanging) 2 outside;
  old = at both.old 2 10;
}

pushed-Reachable : Reachable pushed (20 ∷ 10 ∷ [])
pushed-Reachable =
    step
      (step (step (step both-Reachable (exchange 1 refl refl)) (exchange_fails 2 refl))
        (link 2 refl))
      (exchange 2 refl refl)

Reachable-Chain_example : Chain pushed.next pushed.head (20 ∷ 10 ∷ [])
Reachable-Chain_example = Reachable-Chain pushed-Reachable
