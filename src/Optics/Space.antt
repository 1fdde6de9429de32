-- ===== src/Optics/Space.antt =====
-- What src/optics.c uses of src/alloc.c and src/region.c.
use optics.Base.{
  ℕ, ◌≡◌, refl, Bool, false, true, none, some, Run, ok, assert, leb, >>=-eq-ok, ok_inj,
  Option-cases, inl, inr, sym, ap,
}
use optics.Region.{Os, ptr}
use optics.Alloc.{Heap, class_of}
use optics.Alloc

-- The operations on the blocks: `optics_alloc`, `optics_free`, and whether `optics_ptr` reaches the
-- bytes.
pub record Allocator (S : Type 0) : Type 0 where
  pub alloc : S → ℕ → Run (S × ℕ)
  pub free : S → ℕ → ℕ → Run S
  pub reaches : S → ℕ → ℕ → Bool

-- A release takes nothing out of reach.
pub record Laws {S : Type 0} (A : Allocator S) : Type 0 where
  pub free-reaches :
      {s s' : S} (off len x n : ℕ) → A.free s off len ≡ ok s' → A.reaches s' x n ≡ A.reaches s x n

-- `optics_alloc`, `optics_free` and `optics_ptr` on the heap of the region
unfoldable pub heap : Os → Allocator Heap
heap os = record {
  alloc = Alloc.alloc os;
  free = Alloc.free;
  reaches = λ h off len. elim (ptr h.region off len) [ none ↦ false | some p ↦ true ];
}

free-region :
    (h : Heap) {h' : Heap} (off len : ℕ) → Alloc.free h off len ≡ ok h' → h'.region ≡ h.region
unfolding Alloc.free
free-region h off len run =
    let (u, a, k) = >>=-eq-ok (assert (leb len 4096)) _ run in
    let (c, is, k') = >>=-eq-ok (class_of len) _ k in
    elim (Option-cases (ptr h.region off c.0)) [
      | inl e ↦ sym (ap (λ (x : Heap). x.region) (ok_inj (rw e at k')))
      | inr (p, e) ↦ sym (ap (λ (x : Heap). x.region) (ok_inj (rw e at k')))
    ]

-- The heap meets the law: `alloc_free` leaves the region alone.
pub heap-Laws : (os : Os) → Laws (heap os)
unfolding heap
heap-Laws os = record {
  free-reaches = λ {s} {s'} off len x n run. rw (free-region s off len run) refl;
}
