-- ===== src/Alloc/Tests.antt =====
-- A heap with one block to allocate and one that was freed.
use optics.Base.{
  ◌≢◌, double_until, ◌*◌, ℕ, ◌≡◌, refl, [], ◌∷◌, true, some, arith, ok, ◌==◌, if◌then◌else◌, inl,
  inr,
}
use optics.Alloc
use optics.Alloc.{Heap, class_of}
use optics.Bits.{ceil_div}
use optics.Region.{Os}
use optics.Region.{grow}
use optics.Region.Grow
use optics.Alloc.Fill.{Cut, slab_count, alloc-Cut}
use optics.Alloc.Lists.{Holds, Outside}
use optics.Alloc.Free.{free-Holds}
use optics.Alloc.Take.{first, Took, alloc-Took}

abbrev working : Os
working = record {
  unlinked = true;
  opened = true;
  truncated = true;
  file_len = some 4096;
  mapped = true;
  address = 4096;
}

abbrev heap : Heap
heap = record {
  region = record {
    owned = true;
    min_pos = 100;
    pos = 1024;
    vma_ptr = 4096;
    vma_len = 4096;
    old_vmas = [];
  };
  alloc_head = λ c. if c == 1 then 512 else 0;
  free_head = λ c. if c == 1 then 640 else 0;
  mem = λ x. 0;
}

heap-Holds : Holds heap 16 1 (512 ∷ []) (640 ∷ [])
heap-Holds = record {
  region = record {
    header = omega arith;
    mapped = omega arith;
    nonempty = omega arith;
    small = omega arith;
  };
  to_alloc = (refl, omega arith, refl);
  freed = (refl, omega arith, refl);
  inside = ((omega arith, omega arith), ((omega arith, omega arith), tt));
  separate = ((inl (omega arith), tt), (tt, tt));
}

class_run : class_of 10 ≡ ok (16, 1)
unfolding class_of ceil_div
class_run = refl

alloc-Took_example :
    (h : Heap) × (Alloc.alloc working heap 10 ≡ ok (h, 512)) × Took heap 16 1 512 [] (640 ∷ []) h
alloc-Took_example =
    alloc-Took working 10 16 1 (omega arith) class_run (omega arith) heap-Holds first

free-Holds_example :
    (h : Heap) × (Alloc.free heap 768 10 ≡ ok h)
    × Holds h 16 1 (512 ∷ []) (768 ∷ 640 ∷ [])
    × ((x : ℕ) → Outside 16 768 x → h.mem x ≡ heap.mem x)
free-Holds_example =
    free-Holds 10 16 1 768 (512 ∷ []) (640 ∷ []) (omega arith) class_run (omega arith) heap-Holds
      (omega arith) (omega arith, omega arith) (inr (omega arith), (inr (omega arith), tt))

abbrev bare : Heap
bare = record heap { alloc_head = λ c. 0; free_head = λ c. 0 }

bare-IsValid : Grow.IsValid bare.region
bare-IsValid = record {
  header = omega arith;
  mapped = omega arith;
  nonempty = omega arith;
  small = omega arith;
}

grows : (grow working bare.region (16 * slab_count 16)).1 ≢ 0
unfolding grow double_until
grows = omega arith

alloc-Cut_example :
    (h : Heap) × (start : ℕ) × (Alloc.alloc working bare 10 ≡ ok (h, start))
    × Cut bare 16 1 254 h start
alloc-Cut_example =
    alloc-Cut working bare 10 16 1 (omega arith) class_run bare-IsValid (omega arith) (omega arith)
      (omega arith) refl refl grows
