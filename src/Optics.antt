-- ===== src/Optics.antt =====
-- src/optics.c and src/lens.c: the lenses of a region, their list, and the blocks whose release
-- waits for the epoch to turn twice. A call that the source makes of a pointer that is NULL, and a
-- table of keys that grows without end, are aborts here.
pub mod Space
pub mod Deferred
pub mod Links
pub mod Registry
pub mod Names
pub mod Session
pub mod Pushes
mod Tests
use optics.Base.{
  ℕ, zero, suc, ◌+◌, ◌-◌, ◌*◌, ◌%◌, ◌^◌, min, Bool, true, false, ◌&&◌, not, Option, none, some,
  take, length, Text, ltb, leb, ◌==◌, if◌then◌else◌, Run, ok, abort, ◌>>=◌, ◌>>◌, assert, List,
}
use optics.Htable.{Htable}
use optics.Htable
use optics.Optics.Space.{Allocator}

abbrev pub name_max_len : ℕ
name_max_len = 256

-- `enum optics_lens_type`
pub data LensType : Type 0 where
  counter : LensType
  gauge : LensType
  dist : LensType
  histo : LensType
  quantile : LensType

-- `enum optics_ret`
pub data Status : Type 0 where
  optics_ok : Status
  optics_err : Status
  optics_busy : Status
  optics_break : Status

-- `struct lens`, with the name that follows the lens in its block
pub record Header : Type 0 where
  pub off : ℕ
  pub type : LensType
  pub lens_len : ℕ
  pub name_len : ℕ
  pub next : ℕ
  pub prev : ℕ
  pub name : Text

-- `struct optics_defer`
pub record Defer : Type 0 where
  pub off : ℕ
  pub len : ℕ
  pub next : ℕ

abbrev pub header_len : ℕ
header_len = 64

abbrev pub defer_len : ℕ
defer_len = 24

-- `struct optics` and its header, in a region whose blocks `S` keeps. The lenses and the nodes of
-- deferred blocks stand by their offsets.
pub record Optics (S : Type 0) : Type 0 where
  pub space : S
  pub keys : Htable
  pub epoch : ℕ
  pub epoch_last_inc : ℕ
  pub defers : ℕ → ℕ
  pub lens_head : ℕ
  pub prefix : Text
  pub lenses : ℕ → Header
  pub nodes : ℕ → Defer

abbrev pub at {ℓ} : {A : Type ℓ} → (ℕ → A) → ℕ → A → ℕ → A
at f a v x = if x == a then v else f x

-- `lens_total_len`
unfoldable pub total_len : Header → ℕ
total_len l = header_len + l.name_len + l.lens_len

-- `optics_set_prefix`; the flag is the one it returns
unfoldable pub set_prefix : {S : Type 0} → Optics S → Text → Optics S × Bool
set_prefix o prefix =
    if min (length prefix) name_max_len == name_max_len
    then (o, false)
    else (record o { prefix = prefix }, true)

module _ {S : Type 0} (A : Allocator S) where
  open A use {alloc, free, reaches}

  -- `lens_alloc`; the offset is 0 where it returns NULL
  unfoldable pub lens_alloc : Optics S → LensType → ℕ → Text → Run (Optics S × ℕ)
  lens_alloc o type lens_len name =
      let name_len = min (length name) name_max_len + 1 in
      let total = header_len + name_len + lens_len in
      if name_len == name_max_len
      then ok (o, 0)
      else (alloc o.space total >>= λ (s, off).
          if off == 0
          then ok (record o { space = s }, 0)
          else if not (reaches s off total)
          then ok (record o { space = s }, 0)
          else ok (
            record o {
              space = s;
              lenses = at o.lenses off (record {
                off = off;
                type = type;
                lens_len = lens_len;
                name_len = name_len;
                next = 0;
                prev = 0;
                name = take (name_len - 1) name;
              });
            },
            off,
          ))

  -- `lens_free`
  unfoldable pub lens_free : Optics S → ℕ → Run (Optics S)
  lens_free o off =
      let l = o.lenses off in free o.space l.off (total_len l) >>= λ s. ok (record o { space = s })

  -- `optics_epoch`
  unfoldable pub epoch_of : Optics S → ℕ
  epoch_of o = o.epoch % 2

  -- `optics_defer_free`, where no other thread pushes at the same time
  unfoldable pub defer_free : Optics S → ℕ → ℕ → Run (Optics S × Bool)
  unfolding epoch_of
  defer_free o off len = alloc o.space defer_len >>= λ (s, node).
      if node == 0
      then ok (record o { space = s }, false)
      else if not (reaches s node defer_len)
      then ok (record o { space = s }, false)
      else (let e = epoch_of o in
          ok (
            record o {
              space = s;
              nodes = at o.nodes node (record { off = off; len = len; next = o.defers e });
              defers = at o.defers e node;
            },
            true,
          ))

  -- the loop of `optics_free_defered`; a node that cannot be reached leaks the rest
  unfoldable pub free_nodes : ℕ → (ℕ → Defer) → S → ℕ → Run S
  free_nodes zero nodes s node = abort
  free_nodes (suc fuel) nodes s node =
      if node == 0 then ok s else if not (reaches s node defer_len) then ok s else (do
        s1 ← free s (nodes node).off (nodes node).len
        s2 ← free s1 node defer_len
        free_nodes fuel nodes s2 (nodes node).next)

  -- `optics_free_defered`
  unfoldable pub free_defered : ℕ → Optics S → ℕ → Run (Optics S)
  free_defered fuel o e = free_nodes fuel o.nodes o.space (o.defers e) >>= λ s.
      ok (record o { space = s; defers = at o.defers e 0 })

  -- `optics_epoch_inc`, with the epoch that it ends
  unfoldable pub epoch_inc : ℕ → Optics S → Run (Optics S × ℕ)
  unfolding epoch_of free_defered
  epoch_inc fuel o = free_defered fuel o (1 - epoch_of o) >>= λ o'.
      ok (record o' { epoch = (o.epoch + 1) % 2 ^ 64 }, epoch_of o)

  -- `optics_epoch_inc_at`, with the time of the last one
  unfoldable pub epoch_inc_at : ℕ → Optics S → ℕ → Run (Optics S × ℕ × ℕ)
  unfolding epoch_inc
  epoch_inc_at fuel o now =
      epoch_inc fuel (record o { epoch_last_inc = now }) >>= λ (o', e). ok (o', e, o.epoch_last_inc)

  -- `lens_ptr`, which reads the length of the lens from its header
  unfoldable pub lens_ptr : Optics S → ℕ → Bool
  lens_ptr o off = reaches o.space off header_len && reaches o.space off (total_len (o.lenses off))

  -- `lens_set_next`
  unfoldable pub set_next : Optics S → ℕ → ℕ → Run (Optics S)
  unfolding lens_ptr
  set_next o lens next =
      let linked = at o.lenses lens (record (o.lenses lens) { next = next }) in
      if next == 0 then ok (record o { lenses = linked }) else (do
        assert (lens_ptr o next)
        assert ((linked next).prev == 0)
        ok (record o {
          lenses = at linked next (record (linked next) { prev = (linked lens).off });
        }))

  -- `optics_push_lens`, by the owner of the lock
  unfoldable pub push_lens : Optics S → ℕ → Run (Optics S)
  unfolding set_next
  push_lens o lens =
      set_next o lens o.lens_head >>= λ o'. ok (record o' { lens_head = (o'.lenses lens).off })

  -- the first half of `lens_kill`: the next lens forgets this one
  unfoldable pub kill_next : Optics S → ℕ → Run (Optics S)
  unfolding lens_ptr
  kill_next o lens =
      let next = (o.lenses lens).next in
      if next == 0 then ok o else (do
        assert (lens_ptr o next)
        assert ((o.lenses next).prev == (o.lenses lens).off)
        ok (record o {
          lenses = at o.lenses next (record (o.lenses next) { prev = (o.lenses lens).prev });
        }))

  -- the second half of `lens_kill`: the lens before it skips this one
  unfoldable pub kill_prev : Optics S → ℕ → Run (Optics S)
  unfolding lens_ptr
  kill_prev o lens =
      let prev = (o.lenses lens).prev in
      if prev == 0 then ok o else (do
        assert (lens_ptr o prev)
        assert ((o.lenses prev).next == (o.lenses lens).off)
        ok (record o {
          lenses = at o.lenses prev (record (o.lenses prev) { next = (o.lenses lens).next });
        }))

  -- `optics_remove_lens`, by the owner of the lock
  unfoldable pub remove_lens : Optics S → ℕ → Run (Optics S)
  unfolding kill_next kill_prev
  remove_lens o lens = do
    o1 ← kill_next o lens
    o2 ← kill_prev o1 lens
    let l = o2.lenses lens
    ok (if o2.lens_head == l.off then record o2 { lens_head = l.next } else o2)

  -- the loop of `optics_foreach_lens`, with a callback that has a state
  unfoldable pub foreach_from {ℓ} :
      {C : Type ℓ} → ℕ → Optics S → (C → Header → C × Status) → C → ℕ → Run (C × Status)
  unfolding lens_ptr
  foreach_from zero o cb c off = abort
  foreach_from (suc fuel) o cb c off =
      let l = o.lenses off in
      let (c', ret) = cb c l in
      let rest = foreach_from fuel o cb c' l.next in
      if off == 0
      then ok (c, optics_ok)
      else if not (lens_ptr o off)
      then ok (c, optics_err)
      else elim ret [
        | optics_ok ↦ rest
        | optics_err ↦ ok (c', optics_err)
        | optics_busy ↦ ok (c', optics_busy)
        | optics_break ↦ ok (c', optics_break)
      ]

  -- `optics_foreach_lens`
  unfoldable pub foreach_lens {ℓ} :
      {C : Type ℓ} → ℕ → Optics S → (C → Header → C × Status) → C → Run (C × Status)
  unfolding foreach_from
  foreach_lens fuel o cb c = foreach_from fuel o cb c o.lens_head
