-- ===== src/Optics/Pushes.antt =====
-- src/optics.c: the lock-free list of `optics_defer_free` in one epoch, as the atomic steps of any
-- number of threads, and the exchange of `optics_free_defered`.
pub mod Order
mod Tests
use optics.Base.{ℕ, ◌≡◌, ◌≢◌, List, [], ◌∷◌, All}
use optics.Optics.{at}

-- where a thread stands: outside, before it writes `pnode->next`, or before its exchange
pub data Stage : Type 0 where
  outside : Stage
  linking : Stage
  exchanging : Stage

-- The head of the list, the `next` of each node, and for each thread its stage, its node and `old`.
pub record Pushes : Type 0 where
  pub head : ℕ
  pub next : ℕ → ℕ
  pub stage : ℕ → Stage
  pub node : ℕ → ℕ
  pub old : ℕ → ℕ

-- an empty list, with every thread outside
abbrev pub empty : Pushes
empty = record { head = 0; next = λ n. 0; stage = λ t. outside; node = λ t. 0; old = λ t. 0 }

-- A node that a thread takes from the allocator: not 0, and neither in the list nor another's.
pub record Fresh (s : Pushes) (stack : List ℕ) (n : ℕ) : Type 0 where
  pub there : n ≢ 0
  pub unlisted : All (λ (x : ℕ). x ≢ n) stack
  pub free : (t : ℕ) → s.stage t ≢ outside → s.node t ≢ n

-- One atomic step. The lists are the nodes whose exchange succeeded since the list was last taken,
-- the latest first, before and after the step. A weak exchange may fail at any time.
pub data Step (s : Pushes) (stack : List ℕ) : Pushes → List ℕ → Type 0 where
  load :
      (t n : ℕ)
      → s.stage t ≡ outside
      → Fresh s stack n
      → Step s stack
          (record s { stage = at s.stage t linking; node = at s.node t n; old = at s.old t s.head })
          stack
  link :
      (t : ℕ)
      → s.stage t ≡ linking
      → Step s stack
          (record s { next = at s.next (s.node t) (s.old t); stage = at s.stage t exchanging })
          stack
  exchange :
      (t : ℕ)
      → s.stage t ≡ exchanging
      → s.head ≡ s.old t
      → Step s stack (record s { head = s.node t; stage = at s.stage t outside }) (s.node t ∷ stack)
  exchange_fails :
      (t : ℕ)
      → s.stage t ≡ exchanging
      → Step s stack (record s { stage = at s.stage t linking; old = at s.old t s.head }) stack
  take_all : Step s stack (record s { head = 0 }) []

pub data Reachable : Pushes → List ℕ → Type 0 where
  start : Reachable empty []
  step :
      {s s' : Pushes} {stack stack' : List ℕ}
      → Reachable s stack
      → Step s stack s' stack'
      → Reachable s' stack'

-- the list that the words of the nodes make from a head on
abbrev pub Chain : (ℕ → ℕ) → ℕ → List ℕ → Type 0
Chain next head [] = head ≡ 0
Chain next head (x ∷ xs) = (head ≡ x) × (x ≢ 0) × Chain next (next x) xs
