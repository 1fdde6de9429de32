-- ===== src/Alloc/Take.antt =====
-- src/alloc.c: `alloc_alloc` on the free lists of a class.
use optics.Base.{
  ℕ, ◌+◌, ◌≤◌, ◌<◌, ◌≡◌, ◌≢◌, refl, sym, subst, ◌∙◌, List, [], ◌∷◌, ◌++◌, false, some, arith, ◌==◌,
  ok, All, All-left, All-right, All-map, ==_refl, ne→not-==, append-nil, le→leb,
}
use optics.Region.{Os, ptr}
use optics.Region.Grow.{ptr-of_in}
use optics.Alloc.{Heap, update, fill, class_of, reclaim, take_block, alloc}
use optics.Alloc.Lists.{
  Apart, Outside, Apart-Outside, Chain-frame, Holds, Inside, fill-Outside, not_self,
}

-- what taking a block gives
pub record Took (h : Heap) (len class o : ℕ) (a f : List ℕ) (h' : Heap) : Type 0 where
  pub holds : Holds h' len class a f
  pub cleared : (x : ℕ) → o ≤ x → x < o + len → h'.mem x ≡ 0
  pub untouched : (x : ℕ) → Outside len o x → h'.mem x ≡ h.mem x
  pub away : All (Apart len o) (a ++ f)
  pub within : Inside h.region len o

took : Heap → ℕ → ℕ → ℕ → Heap
took h len class o = record h {
  alloc_head = update h.alloc_head class (h.mem o);
  mem = fill h.mem o len 0;
}

take_block-run :
    (h : Heap) (len class o : ℕ)
    → h.alloc_head class ≡ o
    → ptr h.region o len ≡ some (h.region.vma_ptr + o)
    → (o == h.mem o) ≡ false
    → take_block h len class ≡ ok (took h len class o, o)
unfolding take_block took
take_block-run h len class o e =
    subst
      (λ x.
        ptr h.region x len ≡ some (h.region.vma_ptr + x)
        → (x == h.mem x) ≡ false
        → take_block h len class ≡ ok (took h len class x, x))
      e (λ p d. rw (p, d, take_block))

take_block-Took :
    {h : Heap} (len class o : ℕ) (a f : List ℕ)
    → 0 < len
    → Holds h len class (o ∷ a) f
    → (h' : Heap) × (take_block h len class ≡ ok (h', o)) × Took h len class o a f h'
unfolding took
take_block-Took {h} len class o a f pos v =
    let (head, ne, rest) = v.to_alloc in
    let (lo, hi) = v.inside.0 in
    let away = v.separate.0 in
    let m' = fill h.mem o len 0 in
    let frame =
      λ (x : ℕ) (p : Apart len o x). fill-Outside h.mem o len 0 x (Apart-Outside len o x pos p) in
    let differs : (o == h.mem o) ≡ false =
      ne→not-== o (h.mem o)
        (not_self len o (h.mem o) h.mem a pos ne (All-left (Apart len o) a f away) rest) in
    (
      took h len class o,
      take_block-run h len class o head (ptr-of_in h.region o len v.region lo hi) differs,
      record {
        holds = record {
          region = v.region;
          to_alloc = rw (==_refl class) (
              Chain-frame h.mem m' (h.mem o) a
                (All-map _ _ a frame (All-left (Apart len o) a f away)) rest);
          freed =
              Chain-frame h.mem m' (h.free_head class) f
                (All-map _ _ f frame (All-right (Apart len o) a f away)) v.freed;
          inside = v.inside.1;
          separate = v.separate.1;
        };
        cleared = λ x l r. ground arith;
        untouched = λ x out. fill-Outside h.mem o len 0 x out;
        away = away;
        within = (lo, hi);
      },
    )

-- `reclaim` does nothing while there are blocks to allocate, and moves the freed ones otherwise.
reclaim-some :
    {h : Heap} (len class o : ℕ) (a f : List ℕ) → Holds h len class (o ∷ a) f → reclaim h class ≡ h
unfolding reclaim
reclaim-some {h} len class o a f v =
    let (head, ne, rest) = v.to_alloc in
    let busy : h.alloc_head class ≢ 0 = λ e. ne (sym head ∙ e) in
    rw (ne→not-== (h.alloc_head class) 0 busy)

abbrev moved : Heap → ℕ → Heap
moved h class = record h {
  alloc_head = update h.alloc_head class (h.free_head class);
  free_head = update h.free_head class 0;
}

reclaim-none : (h : Heap) (class : ℕ) → h.alloc_head class ≡ 0 → reclaim h class ≡ moved h class
unfolding reclaim
reclaim-none h class e = rw e

moved-Holds :
    {h : Heap} (len class : ℕ) (f : List ℕ)
    → Holds h len class [] f
    → Holds (moved h class) len class f []
moved-Holds {h} len class f v = record {
  region = v.region;
  to_alloc = rw (==_refl class) v.freed;
  freed = rw (==_refl class) refl;
  inside = rw append-nil v.inside;
  separate = rw append-nil v.separate;
}

-- the blocks that an allocation looks at: those to allocate, or else the freed ones
pub data Ready : List ℕ → List ℕ → ℕ → List ℕ → List ℕ → Type 0 where
  first : {o : ℕ} {a f : List ℕ} → Ready (o ∷ a) f o a f
  second : {o : ℕ} {f : List ℕ} → Ready [] (o ∷ f) o f []

-- While a class of valid free lists has a block, an allocation of at most 4096 bytes takes one off
-- its lists; the block is cleared, inside the region and apart from those that stay, and no word
-- that begins outside of the block changes.
pub alloc-Took :
    (os : Os) {h : Heap} (n len class : ℕ) {a f a' f' : List ℕ} {o : ℕ}
    → n ≤ 4096
    → class_of n ≡ ok (len, class)
    → 0 < len
    → Holds h len class a f
    → Ready a f o a' f'
    → (h' : Heap) × (alloc os h n ≡ ok (h', o)) × Took h len class o a' f' h'
unfolding alloc
alloc-Took os {h} n len class small is pos v (first {o = o} {a = a} {f = f}) =
    let (head, ne, rest) = v.to_alloc in
    let busy : h.alloc_head class ≢ 0 = λ e. ne (sym head ∙ e) in
    let (h', run, t) = take_block-Took len class o a f pos v in
    (
      h',
      rw
          (
            le→leb n 4096 small,
            is,
            reclaim-some len class o a f v,
            ne→not-== (h.alloc_head class) 0 busy,
          )
          run,
      t,
    )
alloc-Took os {h} n len class small is pos v (second {o = o} {f = f}) =
    let m = moved h class in
    let w = moved-Holds len class (o ∷ f) v in
    let (head, ne, rest) = w.to_alloc in
    let busy : m.alloc_head class ≢ 0 = λ e. ne (sym head ∙ e) in
    let (h', run, t) = take_block-Took len class o f [] pos w in
    (
      h',
      rw
          (
            le→leb n 4096 small,
            is,
            reclaim-none h class v.to_alloc,
            ne→not-== (m.alloc_head class) 0 busy,
          )
          run,
      record {
        holds = t.holds;
        cleared = t.cleared;
        untouched = t.untouched;
        away = t.away;
        within = t.within;
      },
    )
