-- ===== src/Poller.antt =====
-- src/poller.c: the back-ends of a poller, and how an event reaches them.
pub mod Values
pub mod Merge
pub mod Poll
pub mod Delivery
pub mod Names
pub mod Limits
pub mod Normalize
pub mod Recording
mod Tests
use optics.Base.{
  ℕ, min, Bool, true, false, List, [], ◌∷◌, ◌++◌, map, Option, none, some, Text, length, leb, ◌==◌,
  if◌then◌else◌,
}

abbrev pub name_max_len : ℕ
name_max_len = 256

abbrev pub max_backends : ℕ
max_backends = 8

-- `enum optics_poll_type` with the value that comes with a metric; `P` is `struct optics_poll`
pub data Event (P : Type 0) : Type 0 where
  begin : Event P
  metric : P → Event P
  finish : Event P

-- `struct backend`: a callback over the state that `ctx` points to
pub record Backend (P C : Type 0) : Type 0 where
  pub ctx : C
  pub cb : C → Event P → C

-- `struct optics_poller`
pub record Poller (P C : Type 0) : Type 0 where
  pub host : Text
  pub backends : List (Backend P C)

module _ {P C : Type 0} where
  -- `optics_poller_alloc`, where the operating system knows the name of the host
  unfoldable pub alloc : Option Text → Option (Poller P C)
  alloc none = none
  alloc (some host) = some (record { host = host; backends = [] })

  -- `optics_poller_set_host`
  unfoldable pub set_host : Poller P C → Text → Poller P C × Bool
  set_host poller host =
      if min (length host) name_max_len == name_max_len
      then (poller, false)
      else (record poller { host = host }, true)

  -- `optics_poller_backend`
  unfoldable pub backend : Poller P C → C → (C → Event P → C) → Poller P C × Bool
  backend poller ctx cb = if leb max_backends (length poller.backends) then (poller, false) else (
    record poller { backends = poller.backends ++ (record { ctx = ctx; cb = cb } ∷ []) },
    true,
  )

  -- a call of a back-end
  abbrev pub call : Event P → Backend P C → Backend P C
  call event b = record b { ctx = b.cb b.ctx event }

  -- the loop of `poller_backend_record`
  unfoldable pub backend_record : List (Backend P C) → Event P → List (Backend P C)
  backend_record [] event = []
  backend_record (b ∷ bs) event = call event b ∷ backend_record bs event
