-- ===== src/Region/Tests.antt =====
-- A small region and how it grows.
use optics.Base.{ℕ, ◌+◌, ◌≤◌, ◌≡◌, refl, ◌⊎◌, [], true, some, arith, ◌*◌}
use optics.Bits.{align}
use optics.Region.{Region, Os, mappings, create_new, grow, ptr, ptr_unsafe}
use optics.Region.Grow.{IsValid, create_new-IsValid, Points, Reached, ptr-Points, grow-ptr}

-- every call succeeds
abbrev working : Os
working = record {
  unlinked = true;
  opened = true;
  truncated = true;
  file_len = some 4096;
  mapped = true;
  address = 4096;
}

abbrev small : Region
small = record {
  owned = true;
  min_pos = 100;
  pos = 128;
  vma_ptr = 4096;
  vma_len = 1024 * 1024;
  old_vmas = [];
}

create_run : create_new working 100 ≡ some small
unfolding create_new align
create_run = refl

small-IsValid : IsValid small
small-IsValid = (create_new-IsValid working 100 (omega arith) create_run).0

abbrev word : ℕ
word = 104

ptr_run : ptr small word 8 ≡ some (4096 + word)
unfolding ptr ptr_unsafe
ptr_run = refl

-- the pointer of before the growth, and where it still leads
grow-ptr_example :
    let (r', start) = grow working small 2000000 in
    Points (mappings r') 104 8 4200
    × Reached r' 104 8
    × ((start ≡ 0) ⊎ ((104 + 8 ≤ start) × Reached r' start 2000000))
grow-ptr_example =
    grow-ptr working 2000000 104 8 4200 small-IsValid (omega arith) (omega arith) (omega arith)
      ptr_run (ptr-Points small 104 8 small-IsValid (omega arith) ptr_run)
