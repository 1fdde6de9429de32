-- ===== src/Alloc.antt =====
-- src/alloc.c: an allocator inside the region, with a free list for each class of sizes.
pub mod Classes
pub mod Lists
pub mod Fill
pub mod Take
pub mod Free
mod Tests
use optics.Base.{
  ℕ, zero, suc, ◌+◌, ◌-◌, ◌*◌, ◌/◌, ◌%◌, ◌^◌, Bool, true, false, ◌&&◌, not, Option, none, some, ltb,
  leb, ◌==◌, if◌then◌else◌, Run, ok, abort, ◌>>=◌, ◌>>◌, assert,
}
use optics.Bits.{ceil_div, ceil_pow2, ctz}
use optics.Region.{Region, Os, grow, ptr}

abbrev pub min_len : ℕ
min_len = 8

abbrev pub mid_inc : ℕ
mid_inc = 16

abbrev pub mid_len : ℕ
mid_len = 256

abbrev pub max_len : ℕ
max_len = 4096

abbrev pub classes : ℕ
classes = 21

-- `struct alloc` in its region: the heads of the two lists of each class, and the 64-bit words of
-- the region by their byte offsets.
pub record Heap : Type 0 where
  pub region : Region
  pub alloc_head : ℕ → ℕ
  pub free_head : ℕ → ℕ
  pub mem : ℕ → ℕ

abbrev pub update : (ℕ → ℕ) → ℕ → ℕ → ℕ → ℕ
update f a v x = if x == a then v else f x

-- `memset` of the `len` bytes at `off`, by words
abbrev pub fill : (ℕ → ℕ) → ℕ → ℕ → ℕ → ℕ → ℕ
fill mem off len v x = if leb off x && ltb x (off + len) then v else mem x

-- `alloc_class`: the length of the blocks, and the class
unfoldable pub class_of : ℕ → Run (ℕ × ℕ)
class_of len =
    assert (leb len max_len)
    >> (if leb len min_len
        then ok (min_len, 0)
        else if leb len mid_len
        then (let class = ceil_div len mid_inc in
            assert (ltb class classes) >> ok (class * mid_inc, class))
        else (let len' = ceil_pow2 len in
            let class = ctz len' - ctz mid_len + mid_len / mid_inc in
            assert (ltb class classes) >> ok (len', class)))

-- the loop of `alloc_fill_class`; the flag says that every node could be reached
unfoldable pub link_nodes : ℕ → Region → (ℕ → ℕ) → ℕ → ℕ → ℕ → (ℕ → ℕ) × Bool
link_nodes zero r mem len node end = (mem, false)
link_nodes (suc fuel) r mem len node end =
    let rest = link_nodes fuel r (update mem node (node + len)) len (node + len) end in
    if ltb (node + len) end
    then elim (ptr r node 8) [ none ↦ (mem, false) | some _ ↦ rest ]
    else (mem, true)

-- `alloc_fill_class`, with a slab of `count` blocks; the first block is the result
unfoldable pub fill_slab : Os → Heap → ℕ → ℕ → ℕ → Run (Heap × ℕ)
fill_slab os h len class count =
    let (r, start) = grow os h.region (len * count) in
    let nodes = len * count / len in
    let end = start + nodes * len in
    let (mem, reached) = link_nodes (nodes + 1) r h.mem len (start + len) end in
    let h' = record h { region = r; mem = mem } in
    if start == 0
    then ok (record h { region = r }, 0)
    else assert (ltb 2 nodes)
      >> (if reached
          then elim (ptr r (end - len) 8) [
            | none ↦ ok (h', 0)
            | some _ ↦ ok (
              record h' {
                mem = update mem (end - len) (h.alloc_head class);
                alloc_head = update h.alloc_head class (start + len);
              },
              start,
            )
          ]
          else ok (h', 0))

unfoldable pub fill_class : Os → Heap → ℕ → ℕ → Run (Heap × ℕ)
fill_class os h len class = fill_slab os h len class (if leb len mid_len then 256 else 16)

-- `alloc_init`
unfoldable pub init : Region → (ℕ → ℕ) → Heap
init r mem = record { region = r; alloc_head = λ c. 0; free_head = λ c. 0; mem = mem }

-- the exchange of `alloc_alloc`: the freed blocks become the list to allocate from
unfoldable pub reclaim : Heap → ℕ → Heap
reclaim h class =
    if h.alloc_head class == 0
    then record h {
      alloc_head = update h.alloc_head class (h.free_head class);
      free_head = update h.free_head class 0;
    }
    else h

-- the end of `alloc_alloc`: the first block of the list, cleared
unfoldable pub take_block : Heap → ℕ → ℕ → Run (Heap × ℕ)
take_block h len class =
    let off = h.alloc_head class in
    elim (ptr h.region off len) [
      | none ↦ ok (h, 0)
      | some _ ↦
          assert (not (off == h.mem off))
          >> ok (
            record h {
              alloc_head = update h.alloc_head class (h.mem off);
              mem = fill h.mem off len 0;
            },
            off,
          )
    ]

-- `alloc_alloc`; the offset of a cleared block, or 0
unfoldable pub alloc : Os → Heap → ℕ → Run (Heap × ℕ)
alloc os h len = assert (leb len max_len) >> do
  (len', class) ← class_of len
  let h' = reclaim h class
  if h'.alloc_head class == 0 then fill_class os h' len' class else take_block h' len' class

-- `alloc_free`, where no other thread pushes at the same time, so its loop ends at once
unfoldable pub free : Heap → ℕ → ℕ → Run Heap
free h off len = assert (leb len max_len) >> do
  (len', class) ← class_of len
  elim (ptr h.region off len') [
    | none ↦ ok h
    | some _ ↦ ok (record h {
      mem = update (fill h.mem off len' (2 ^ 64 - 1)) off (h.free_head class);
      free_head = update h.free_head class off;
    })
  ]
