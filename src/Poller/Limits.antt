-- ===== src/Poller/Limits.antt =====
-- src/poller_poll.c: how many regions and back-ends a poller takes.
use optics.Base.{
  ◌≤◌, ◌<◌, ◌≡◌, refl, inl, inr, Bool, true, false, not, List, [], ◌∷◌, ◌++◌, Option, Text, length,
  length-append, take, drop, str_eq, leb, not-leb→lt, if◌then◌else◌, Bool-cases, Option-cases,
  arith,
}
use optics.Lens.Float.{Float}
use optics.Optics.Space.{Allocator}
use optics.Poller.Poll.{
  Entry, ShmRet, shm_ok, shm_break, shm_err, shm_prefix, shm_foreach, shm_cb, Shared, Item,
}

module _ (F : Float) {S : Type 0} (A : Allocator S) (attach : Text → Option (Shared F A)) where
  -- A call takes one region at most, and stops the walk once there are 128.
  shm_cb_lem :
      (items : List (Item F A)) (name : Text)
      → length items < 128
      → let (items', ret) = shm_cb F A attach items name in
        (length items' ≤ 128) × (ret ≡ shm_ok → length items' < 128)
  unfolding shm_cb
  shm_cb_lem items name few = elim (Option-cases (attach name)) [
    | inl absent ↦
        let e : shm_cb F A attach items name ≡ (items, shm_ok) = rw (absent, shm_cb) in
        rw e (omega arith, λ r. few)
    | inr (shared, there) ↦
        let new : Item F A = record { shared = shared; last_poll = 0; epoch = 0 } in
        let items' = items ++ (new ∷ []) in
        let long = length-append items (new ∷ []) in
        elim (Bool-cases (leb 128 (length items'))) [
          | inl full ↦
              let e : shm_cb F A attach items name ≡ (items', shm_break) =
                rw (there, full, shm_cb) in
              rw e (omega (arith, long), λ r. cc)
          | inr room ↦
              let e : shm_cb F A attach items name ≡ (items', shm_ok) = rw (there, room, shm_cb) in
              let lt = not-leb→lt 128 (length items') room in rw e (omega arith, λ r. lt)
        ]
  ]

  -- From a list of fewer than 128 regions, the walk of the directory leaves 128 at most, whatever
  -- the files are.
  pub shm_foreach-le :
      (dir : List Entry) (ret : ShmRet) (items : List (Item F A))
      → length items < 128
      → length (shm_foreach (shm_cb F A attach) items ret dir).0 ≤ 128
  unfolding shm_foreach
  shm_foreach-le [] ret items few = omega arith
  shm_foreach-le (e ∷ es) ret items few =
      let name = drop (length shm_prefix) e.name in
      let (most, more) = shm_cb_lem items name few in
      let skip = shm_foreach-le es ret items few in
      go (not e.regular) (not (str_eq (take (length shm_prefix) e.name) shm_prefix))
        (shm_cb F A attach items name).1 (shm_foreach (shm_cb F A attach) items ret es)
        (shm_cb F A attach items name)
        (shm_foreach (shm_cb F A attach) (shm_cb F A attach items name).0
          (shm_cb F A attach items name).1 es)
        skip most
        (λ r.
          shm_foreach-le es (shm_cb F A attach items name).1 (shm_cb F A attach items name).0
            (more r))
    where
      go :
          (other foreign : Bool) (r : ShmRet) (skipped found again : List (Item F A) × ShmRet)
          → length skipped.0 ≤ 128
          → length found.0 ≤ 128
          → (r ≡ shm_ok → length again.0 ≤ 128)
          → length
              (if other
                then skipped
                else if foreign
                then skipped
                else elim r as (λ _. List (Item F A) × ShmRet) [
                  | shm_ok ↦ again
                  | shm_break ↦ (found.0, shm_break)
                  | shm_err ↦ (found.0, shm_err)
                ]).0
            ≤ 128
      go true foreign r skipped found again s f a = s
      go false true r skipped found again s f a = s
      go false false shm_ok skipped found again s f a = a refl
      go false false shm_break skipped found again s f a = f
      go false false shm_err skipped found again s f a = f
