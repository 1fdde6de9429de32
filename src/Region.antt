-- ===== src/Region.antt =====
-- src/region.c: a shared-memory file that grows by mapping it again, and bounds-checked pointers.
pub mod Grow
mod Tests
use optics.Base.{
  ℕ, zero, suc, ◌+◌, ◌-◌, ◌*◌, ◌%◌, ◌^◌, List, [], ◌∷◌, Bool, true, false, Option, none, some, ltb,
  leb, ◌||◌, if◌then◌else◌, double_until, Text, length, ◌++◌, str_eq,
}
use optics.Bits.{align}

abbrev pub default_len : ℕ
default_len = 1024 * 1024

abbrev pub cache_line_len : ℕ
cache_line_len = 64

abbrev pub name_max : ℕ
name_max = 255

-- `struct region_vma`: where a mapping of the file begins, and its length
pub record Mapping : Type 0 where
  pub base : ℕ
  pub len : ℕ

-- `struct region`, with the mapping in use, and the older ones behind it, which stay mapped. The lock
-- is held for the whole of `grow`.
pub record Region : Type 0 where
  pub owned : Bool
  pub min_pos : ℕ
  pub pos : ℕ
  pub vma_ptr : ℕ
  pub vma_len : ℕ
  pub old_vmas : List Mapping

abbrev pub mappings : Region → List Mapping
mappings r = record { base = r.vma_ptr; len = r.vma_len } ∷ r.old_vmas

-- What the operating system answers to the calls of one operation.
pub record Os : Type 0 where
  pub unlinked : Bool  -- `shm_unlink`, of a file that is there
  pub opened : Bool  -- `shm_open`, for a name that it may have
  pub truncated : Bool  -- `ftruncate`
  pub file_len : Option ℕ  -- `fstat`
  pub mapped : Bool  -- `mmap`
  pub address : ℕ  -- where it maps

-- the files of /dev/shm by their names
abbrev pub Files : Type 0 → Type 0
Files A = Text → Option A

abbrev pub keep : {A : Type 0} → Files A → Text → Option A → Files A
keep files full x q = if str_eq q full then x else files q

-- `region_shm_name`: "optics." and the name, if they fit with a nil byte
unfoldable pub shm_name : Text → ℕ → Option Text
shm_name name dest_len =
    let full = b'o' ∷ b'p' ∷ b't' ∷ b'i' ∷ b'c' ∷ b's' ∷ b'.' ∷ name in
    if ltb (length full) dest_len then some full else none

-- `region_unlink`
unfoldable pub unlink : {A : Type 0} → Os → Files A → Text → Files A × Bool
unlink os files name = elim (shm_name name name_max) [
  | none ↦ (files, false)
  | some full ↦ elim (files full) [
    | none ↦ (files, false)
    | some _ ↦ if os.unlinked then (keep files full none, true) else (files, false)
  ]
]

-- the rest of `region_create`, once the name is free
unfoldable pub create_new : Os → ℕ → Option Region
create_new os len =
    if os.truncated
    then if os.mapped
      then some (record {
        owned = true;
        min_pos = len;
        pos = align len cache_line_len;
        vma_ptr = os.address;
        vma_len = default_len;
        old_vmas = [];
      })
      else none
    else none

-- `region_create`, with the name of the file. A leftover of that name is unlinked first, and a file
-- that stays refuses the exclusive creation. The new file is not among the files yet: it has no words.
unfoldable pub create : {A : Type 0} → Os → Files A → Text → ℕ → Files A × Option (Region × Text)
unfolding unlink create_new
create os files name len =
    let files' = (unlink os files name).0 in
    elim (shm_name name name_max) [
      | none ↦ (files', none)
      | some full ↦ elim (files' full) [
        | some _ ↦ (files', none)
        | none ↦
            if os.opened
            then elim (create_new os len) [
              | none ↦ (files', none)
              | some r ↦ (files', some (r, full))
            ]
            else (files', none)
      ]
    ]

-- the rest of `region_open`, once the file is open
unfoldable pub open_found : Os → Option Region
open_found os = elim os.file_len [
  | none ↦ none
  | some len ↦
      if os.mapped
      then some (record {
        owned = false;
        min_pos = 0;
        pos = len;
        vma_ptr = os.address;
        vma_len = len;
        old_vmas = [];
      })
      else none
]

-- `region_open`, with the words of the file that has the name
unfoldable pub open_at : {A : Type 0} → Os → Files A → Text → Option (Region × A)
unfolding open_found
open_at os files name = elim (shm_name name name_max) [
  | none ↦ none
  | some full ↦ elim (files full) [
    | none ↦ none
    | some file ↦
        if os.opened then elim (open_found os) [ none ↦ none | some r ↦ some (r, file) ] else none
  ]
]

-- `region_grow`; the offset of the new space, or 0
unfoldable pub grow : Os → Region → ℕ → Region × ℕ
grow os r len =
    let new_pos = (r.pos + len) % 2 ^ 64 in
    let new_len = double_until 64 (new_pos + 1) r.vma_len in
    if r.owned
    then if leb new_pos r.vma_len
      then (record r { pos = new_pos }, r.pos)
      else if os.truncated
      then if os.mapped
        then (
          record r {
            pos = new_pos;
            vma_ptr = os.address;
            vma_len = new_len;
            old_vmas = mappings r;
          },
          r.pos,
        )
        else (r, 0)
      else (r, 0)
    else (r, 0)

-- `region_ptr_unsafe`: the pointer into the mapping in use, if the access ends inside the region
unfoldable pub ptr_unsafe : Region → ℕ → ℕ → Option ℕ
ptr_unsafe r off len =
    if ltb r.pos off || ltb r.pos ((off + len) % 2 ^ 64) then none else some (r.vma_ptr + off)

-- `region_ptr`
unfoldable pub ptr : Region → ℕ → ℕ → Option ℕ
unfolding ptr_unsafe
ptr r off len = if ltb off r.min_pos then none else ptr_unsafe r off len

-- `region_close`: the mappings are unmapped in order until one fails; then the file is closed, and
-- its name unlinked by the owner. The answers are those of `munmap`, `close` and `shm_unlink`.
unmap : List Bool → List Mapping → Bool
unmap answers [] = true
unmap [] (m ∷ vmas) = true
unmap (a ∷ answers) (m ∷ vmas) = if a then unmap answers vmas else false

unfoldable pub close : List Bool → Bool → Bool → Region → Bool
unfolding unmap
close unmapped closed unlinked r =
    if unmap unmapped (mappings r)
    then if closed then if r.owned then unlinked else true else false
    else false
