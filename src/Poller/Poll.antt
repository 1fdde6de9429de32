-- ===== src/Poller/Poll.antt =====
-- src/poller_poll.c: a poll of every region of the host; and the walk of their names in
-- src/utils/shm.c.
use optics.Base.{
  ℕ, ◌+◌, ◌-◌, Bool, true, false, not, List, [], ◌∷◌, ◌++◌, Option, none, some, Text, bytes, str_eq,
  take, drop, length, get_elem?, ltb, leb, ◌==◌, if◌then◌else◌, Run, ok, abort, ◌>>=◌, ◌>>◌, assert,
}
use optics.Htable
use optics.Htable.{Bucket}
use optics.Htable.Next.{entries}
use optics.Lens.Float.{Float}
use optics.Optics.Space.{Allocator}
use optics.Optics.{Optics, Header, Status, optics_ok, foreach_lens, epoch_inc_at}
use optics.Poller.{Poller, Backend, begin, metric, finish, backend_record}
use optics.Poller.Values.{Poll, Values, Context, Chance, Cells, poll_lens}

-- `struct dirent`, as far as it is looked at
pub record Entry : Type 0 where
  pub regular : Bool
  pub name : Text

-- `enum shm_ret`
pub data ShmRet : Type 0 where
  shm_ok shm_break shm_err : ShmRet

abbrev pub shm_prefix : Text
shm_prefix = bytes "optics."

-- The loop of `shm_foreach` over the entries of the directory. The code returns `ret`, which has no
-- value before the first call: that value is an argument.
unfoldable pub shm_foreach {ℓ} :
    {C : Type ℓ} → (C → Text → C × ShmRet) → C → ShmRet → List Entry → C × ShmRet
shm_foreach cb c ret [] = (c, ret)
shm_foreach cb c ret (e ∷ es) =
    let skipped = shm_foreach cb c ret es in
    let (c', ret') = cb c (drop (length shm_prefix) e.name) in
    let more = shm_foreach cb c' ret' es in
    if not e.regular
    then skipped
    else if not (str_eq (take (length shm_prefix) e.name) shm_prefix)
    then skipped
    else elim ret' [ shm_ok ↦ more | shm_break ↦ (c', shm_break) | shm_err ↦ (c', shm_err) ]

abbrev pub max_optics : ℕ
max_optics = 128

-- The time since the last poll, at least 1. The last branch also warns of a clock out of sync.
unfoldable pub elapsed : ℕ → ℕ → ℕ
elapsed ts last_poll = if ltb last_poll ts then ts - last_poll else if ts == last_poll then 1 else 1

module _ (F : Float) {C : Type 0} where
  -- the loop that hands each value to the back-ends
  unfoldable pub record_all :
      List (Poll F) → List Bucket → List (Backend (Poll F) C) → Run (List (Backend (Poll F) C))
  record_all polls [] bs = ok bs
  record_all polls (b ∷ rest) bs = elim (get_elem? polls b.value) [
    | none ↦ abort
    | some poll ↦ record_all polls rest (backend_record bs (metric poll))
  ]

module _ (F : Float) {S : Type 0} (A : Allocator S) where
  -- a region that is open: its lenses and what they hold
  pub record Shared : Type 0 where
    pub optics : Optics S
    pub cells : Cells F

  -- `struct poller_list_item`
  pub record Item : Type 0 where
    pub shared : Shared
    pub last_poll : ℕ
    pub epoch : ℕ

  -- `poller_shm_cb`; `attach` is `optics_open`
  unfoldable pub shm_cb : (Text → Option Shared) → List Item → Text → List Item × ShmRet
  shm_cb attach items name = elim (attach name) [
    | none ↦ (items, shm_ok)
    | some shared ↦
        let items' = items ++ (record { shared = shared; last_poll = 0; epoch = 0 } ∷ []) in
        (items', if leb max_optics (length items') then shm_break else shm_ok)
  ]

  -- the loop of `optics_poller_poll_at` that turns the epochs
  unfoldable pub turn_epochs : ℕ → ℕ → List Item → Run (List Item)
  turn_epochs fuel ts [] = ok []
  turn_epochs fuel ts (i ∷ is) = epoch_inc_at A fuel i.shared.optics ts >>= λ r.
      turn_epochs fuel ts is >>= λ rest.
      ok (record { shared = record i.shared { optics = r.0 }; last_poll = r.2; epoch = r.1 } ∷ rest)

  -- the callback of `poller_poll_optics`, over a state that an assertion may have stopped
  abbrev pub visit_lens :
      ℕ
      → Chance F
      → Context F
      → Run (Cells F × Values F)
      → Header
      → Run (Cells F × Values F) × Status
  visit_lens fuel c ctx st l = (st >>= λ s. poll_lens F fuel c ctx s l, optics_ok)

  -- `poller_poll_optics`
  unfoldable pub poll_optics : ℕ → Chance F → Text → Item → ℕ → Values F → Run (Item × Values F)
  unfolding elapsed
  poll_optics fuel c host item ts vals =
      let since = elapsed ts item.last_poll in
      let ctx : Context F = record {
        ts = ts;
        elapsed = since;
        host = host;
        prefix = item.shared.optics.prefix;
        epoch = item.epoch;
      } in
      assert (ltb 0 since)
      >> (foreach_lens A fuel item.shared.optics (visit_lens fuel c ctx)
            (ok (item.shared.cells, vals))
          >>= λ walked. walked.0 >>= λ s.
              ok (record item { shared = record item.shared { cells = s.0 } }, s.1))

  -- the loop that polls each region; the chances of a region are those of its index
  unfoldable pub poll_items :
      ℕ → (ℕ → Chance F) → Text → ℕ → ℕ → List Item → Values F → Run (List Item × Values F)
  unfolding poll_optics
  poll_items fuel chance host ts i [] vals = ok ([], vals)
  poll_items fuel chance host ts i (item ∷ items) vals =
      poll_optics fuel (chance i) host item ts vals >>= λ r.
      poll_items fuel chance host ts (i + 1) items r.1 >>= λ rest. ok (r.0 ∷ rest.0, rest.1)

  module _ {C : Type 0} where
    -- `optics_poller_poll_at` with the regions that it found, of which there is one at least
    unfoldable pub poll_found :
        ℕ → (ℕ → Chance F) → Poller (Poll F) C → ℕ → List Item → Run (Poller (Poll F) C × List Item)
    unfolding turn_epochs poll_items record_all
    poll_found fuel chance poller ts found = turn_epochs fuel ts found >>= λ turned.
        poll_items fuel chance poller.host ts 0 turned (record { table = Htable.reset; polls = [] })
        >>= λ r.
            record_all F r.1.polls (entries r.1.table) (backend_record poller.backends begin)
            >>= λ bs. ok (record poller { backends = backend_record bs finish }, r.0)

    -- `optics_poller_poll_at`, with the value that it returns and the regions as it leaves them
    unfoldable pub poll_at :
        ℕ
        → (ℕ → Chance F)
        → (Text → Option Shared)
        → ShmRet
        → List Entry
        → Poller (Poll F) C
        → ℕ
        → Run (Poller (Poll F) C × List Item × Bool)
    unfolding shm_cb poll_found
    poll_at fuel chance attach ret dir poller ts =
        let (found, walked) = shm_foreach (shm_cb attach) [] ret dir in
        elim walked as (λ _. Run (Poller (Poll F) C × List Item × Bool)) [
          | shm_err ↦ ok (poller, found, false)
          | _ ↦
              if length found == 0
              then ok (poller, found, true)
              else (poll_found fuel chance poller ts found >>= λ r. ok (r.0, r.1, true))
        ]
