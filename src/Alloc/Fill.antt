-- ===== src/Alloc/Fill.antt =====
-- src/alloc.c: `alloc_fill_class`, which cuts a slab into the blocks of a class.
use optics.Base.{
  ℕ, zero, suc, ◌+◌, ◌-◌, ◌*◌, ◌/◌, ◌≤◌, ◌<◌, ◌≡◌, ◌≢◌, refl, subst, ◌∙◌, inl, inr, List, [], ◌∷◌,
  true, arith, ltb, leb, if◌then◌else◌, ok, All, All-map, ==_refl, ne→not-==, lt→ltb, append-nil,
  ◌^◌, Bool-cases, le→leb,
}
use native.Mathlib.Nat.{mul-div_right}
use optics.Region.{Region, Os, grow}
use optics.Region.Grow
use optics.Region.Grow.{Grown, ptr-of_in, grow-Grown}
use optics.Alloc.{Heap, update, link_nodes, fill_slab, fill_class, class_of, reclaim, alloc}
use optics.Alloc.Lists.{Chain, Apart, Separate, Inside, Holds}

-- `n + 1` blocks in a row: themselves, the last of them, and the end of the last
pub blocks : ℕ → ℕ → ℕ → List ℕ
blocks len node zero = node ∷ []
blocks len node (suc n) = node ∷ blocks len (node + len) n

last_block : ℕ → ℕ → ℕ → ℕ
last_block len node zero = node
last_block len node (suc n) = last_block len (node + len) n

-- the links of all but the last
linked : (ℕ → ℕ) → ℕ → ℕ → ℕ → ℕ → ℕ
linked mem len node zero = mem
linked mem len node (suc n) = linked (update mem node (node + len)) len (node + len) n

last_block-eq : (len node n : ℕ) → last_block len node n ≡ node + n * len
unfolding last_block
last_block-eq len node zero = omega arith
last_block-eq len node (suc n) = omega (arith, last_block-eq len (node + len) n)

last_block-ge : (len node n : ℕ) → node ≤ last_block len node n
last_block-ge len node n = omega (arith, last_block-eq len node n)

link_nodes-run :
    (r : Region) (len fuel n : ℕ) (mem : ℕ → ℕ) (node : ℕ)
    → Grow.IsValid r
    → 8 ≤ len
    → n < fuel
    → r.min_pos ≤ node
    → last_block len node n + len ≤ r.pos
    → link_nodes fuel r mem len node (last_block len node n + len) ≡ (linked mem len node n, true)
unfolding link_nodes linked last_block
link_nodes-run r len zero n mem node v wide enough low high = absurd (omega (arith, enough))
link_nodes-run r len (suc fuel) zero mem node v wide enough low high = ground arith
link_nodes-run r len (suc fuel) (suc n) mem node v wide enough low high =
    let ge = last_block-ge len (node + len) n in
    let more : ltb (node + len) (last_block len (node + len) n + len) ≡ true =
      lt→ltb _ _ (omega (arith, ge, wide)) in
    let at = ptr-of_in r node 8 v low (omega (arith, ge, wide, high)) in
    let ih =
      link_nodes-run r len fuel n (update mem node (node + len)) (node + len) v wide
        (omega (arith, enough)) (omega (arith, low)) high in
    rw (more, at) ih

linked-below : (len n : ℕ) (mem : ℕ → ℕ) (node x : ℕ) → x < node → linked mem len node n x ≡ mem x
unfolding linked
linked-below len zero mem node x lt = refl
linked-below len (suc n) mem node x lt =
    linked-below len n (update mem node (node + len)) (node + len) x (omega arith)
    ∙ rw (ne→not-== x node (omega (arith, lt))) refl

-- The links, and a 0 in the last block, are a chain of the blocks.
blocks-Chain :
    (len n : ℕ) (mem m : ℕ → ℕ) (node : ℕ)
    → 0 < len
    → node ≢ 0
    → m (last_block len node n) ≡ 0
    → ((x : ℕ) → x ≢ last_block len node n → m x ≡ linked mem len node n x)
    → Chain m node (blocks len node n)
unfolding blocks linked last_block
blocks-Chain len zero mem m node pos ne ended same = (refl, ne, ended)
blocks-Chain len (suc n) mem m node pos ne ended same =
    let ge = last_block-ge len (node + len) n in
    let mem' = update mem node (node + len) in
    let step : m node ≡ node + len =
      same node (omega (arith, ge, pos))
      ∙ linked-below len n mem' (node + len) node (omega (arith, pos))
      ∙ rw (==_refl node) refl in
    (refl, ne, rw step (blocks-Chain len n mem' m (node + len) pos (omega (arith, pos)) ended same))

blocks-within :
    (len node n : ℕ)
    → All (λ x. (node ≤ x) × (x + len ≤ last_block len node n + len)) (blocks len node n)
unfolding blocks last_block
blocks-within len node zero = ((omega arith, omega arith), tt)
blocks-within len node (suc n) =
    let ge = last_block-ge len (node + len) n in
    (
      (omega arith, omega (arith, ge)),
      All-map _ _ (blocks len (node + len) n) (λ x h. (omega (arith, h.0), h.1))
          (blocks-within len (node + len) n),
    )

blocks-Separate : (len node n : ℕ) → Separate len (blocks len node n)
unfolding blocks
blocks-Separate len node zero = (tt, tt)
blocks-Separate len node (suc n) = (
  All-map _ (Apart len node) (blocks len (node + len) n) (λ x h. inl h.0)
      (blocks-within len (node + len) n),
  blocks-Separate len (node + len) n,
)

-- how many blocks a slab of a class has
abbrev pub slab_count : ℕ → ℕ
slab_count len = if leb len 256 then 256 else 16

-- what a slab that was cut gives
pub record Cut (h : Heap) (len class n : ℕ) (h' : Heap) (start : ℕ) : Type 0 where
  pub first : start ≡ h.region.pos
  pub holds : Holds h' len class (blocks len (start + len) n) []
  pub within : Inside h'.region len start
  pub apart : All (Apart len start) (blocks len (start + len) n)

-- Where the region grows, a slab of at least three blocks, for a class whose lists are empty, is cut
-- without an abort.
pub fill_slab-Cut :
    (os : Os) (h : Heap) (len class n : ℕ)
    → Grow.IsValid h.region
    → 0 < h.region.pos
    → h.region.pos + len * (n + 2) < 2 ^ 61
    → 8 ≤ len
    → 1 ≤ n
    → h.alloc_head class ≡ 0
    → h.free_head class ≡ 0
    → (grow os h.region (len * (n + 2))).1 ≢ 0
    → (h' : Heap) × (start : ℕ) × (fill_slab os h len class (n + 2) ≡ ok (h', start))
      × Cut h len class n h' start
unfolding fill_slab
fill_slab-Cut os h len class n v pos small wide two none_left none_freed grew =
    let out = grow os h.region (len * (n + 2)) in
    let r = out.0 in
    let start = out.1 in
    let g : Grown h.region (len * (n + 2)) r start =
      elim (grow-Grown os (len * (n + 2)) v pos small) [
        | inl g ↦ g
        | inr (z, same) ↦ absurd (grew z)
      ] in
    let node = start + len in
    let last = last_block len node n in
    let at_last = last_block-eq len node n in
    let nodes : len * (n + 2) / len ≡ n + 2 = mul-div_right (n + 2) (omega (arith, wide)) in
    let end : start + (n + 2) * len ≡ last + len = omega (arith, at_last) in
    let room : last + len ≤ r.pos = omega (arith, at_last, g.pos, g.start) in
    let run =
      link_nodes-run r len (n + 2 + 1) n h.mem node g.valid wide (omega arith)
        (omega (arith, g.same_header, v.header, g.start)) room in
    let back : last + len - len ≡ last = omega arith in
    let ge = last_block-ge len node n in
    let at =
      ptr-of_in r last 8 g.valid (omega (arith, ge, g.same_header, v.header, g.start))
        (omega (arith, room, wide)) in
    let many : ltb 2 (n + 2) ≡ true = lt→ltb 2 (n + 2) (omega (arith, two)) in
    let mem = linked h.mem len node n in
    let m = update mem last 0 in
    (
      record h { region = r; mem = m; alloc_head = update h.alloc_head class node },
      start,
      rw (nodes, end, run, back, at, ne→not-== start 0 grew, many, none_left)
          (rw (nodes, end, run, back) refl),
      record {
        first = g.start;
        holds = record {
          region = g.valid;
          to_alloc = rw (==_refl class) (
              blocks-Chain len n h.mem m node (omega (arith, wide)) (omega (arith, wide))
                (rw (==_refl last) refl) (λ x away. rw (ne→not-== x last away) refl));
          freed = none_freed;
          inside = rw (append-nil (blocks len node n)) (
              All-map _ (Inside r len) (blocks len node n)
                (λ x at_x. (
                  omega (arith, at_x.0, g.same_header, v.header, g.start),
                  omega (arith, at_x.1, room),
                ))
                (blocks-within len node n));
          separate = rw (append-nil (blocks len node n)) (blocks-Separate len node n);
        };
        within = (omega (arith, g.same_header, v.header, g.start), omega (arith, room, ge));
        apart =
            All-map _ (Apart len start) (blocks len node n) (λ x at_x. inl at_x.0)
              (blocks-within len node n);
      },
    )

abbrev emptied : Heap → ℕ → Heap
emptied h class = record h {
  alloc_head = update h.alloc_head class 0;
  free_head = update h.free_head class 0;
}

reclaim-empty :
    (h : Heap) (class : ℕ)
    → h.alloc_head class ≡ 0
    → h.free_head class ≡ 0
    → reclaim h class ≡ emptied h class
unfolding reclaim
reclaim-empty h class none_left none_freed = rw (none_left, none_freed) refl

fill_class-Cut :
    (os : Os) (h : Heap) (len class : ℕ)
    → Grow.IsValid h.region
    → 0 < h.region.pos
    → h.region.pos + len * (slab_count len) < 2 ^ 61
    → 8 ≤ len
    → h.alloc_head class ≡ 0
    → h.free_head class ≡ 0
    → (grow os h.region (len * (slab_count len))).1 ≢ 0
    → (h' : Heap) × (start : ℕ) × (fill_class os h len class ≡ ok (h', start))
      × Cut h len class (slab_count len - 2) h' start
unfolding fill_class
fill_class-Cut os h len class v pos small wide none_left none_freed grew =
    elim (Bool-cases (leb len 256)) [
      | inl short ↦
          let e : slab_count len ≡ 254 + 2 = rw short refl in
          rw short (
            fill_slab-Cut os h len class 254 v pos
              (subst (λ k. h.region.pos + len * k < 2 ^ 61) e small) wide (omega arith) none_left
              none_freed (subst (λ k. (grow os h.region (len * k)).1 ≢ 0) e grew))
      | inr long ↦
          let e : slab_count len ≡ 14 + 2 = rw long refl in
          rw long (
            fill_slab-Cut os h len class 14 v pos
              (subst (λ k. h.region.pos + len * k < 2 ^ 61) e small) wide (omega arith) none_left
              none_freed (subst (λ k. (grow os h.region (len * k)).1 ≢ 0) e grew))
    ]

-- In a valid region that is not empty, below 2^61 bytes, where the region grows, an allocation of
-- at most 4096 bytes from a class of blocks of at least 8 bytes whose lists are empty cuts a slab
-- without an abort: the first block is handed out, the others are the free list of the class, all
-- inside the region and apart from each other and from the first.
pub alloc-Cut :
    (os : Os) (h : Heap) (size len class : ℕ)
    → size ≤ 4096
    → class_of size ≡ ok (len, class)
    → Grow.IsValid h.region
    → 0 < h.region.pos
    → h.region.pos + len * (slab_count len) < 2 ^ 61
    → 8 ≤ len
    → h.alloc_head class ≡ 0
    → h.free_head class ≡ 0
    → (grow os h.region (len * (slab_count len))).1 ≢ 0
    → (h' : Heap) × (start : ℕ) × (alloc os h size ≡ ok (h', start))
      × Cut h len class (slab_count len - 2) h' start
unfolding alloc
alloc-Cut os h size len class fits is v pos small wide none_left none_freed grew =
    let z = emptied h class in
    let (h', start, run, c) =
      fill_class-Cut os z len class v pos small wide (rw (==_refl class) refl)
        (rw (==_refl class) refl) grew in
    let again = reclaim-empty h class none_left none_freed in
    (
      h',
      start,
      rw (le→leb size 4096 fits, is, again, ==_refl class) run,
      record { first = c.first; holds = c.holds; within = c.within; apart = c.apart },
    )
