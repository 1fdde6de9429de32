-- ===== src/Alloc/Free.antt =====
-- src/alloc.c: `alloc_free` on the free lists of a class.
use optics.Base.{
  ℕ, ◌-◌, ◌^◌, ◌≤◌, ◌<◌, ◌≡◌, ◌≢◌, refl, ◌∙◌, List, ◌∷◌, ◌++◌, ok, ◌>>=◌, All, All-left, All-right,
  All-map, All-append, ==_refl, le→leb,
}
use optics.Region.Grow.{ptr-of_in}
use optics.Alloc.{Heap, update, fill, class_of, free}
use optics.Alloc.Lists.{
  Apart, Outside, Apart-Outside, Chain-frame, Holds, Inside, Separate-insert, fill-Outside,
  update-Outside,
}

-- A block of at most 4096 bytes that is freed goes in front of the freed ones of its class, whose
-- lists stay valid, if it is inside the region, not at 0, and overlaps none of them; no word that
-- begins outside of the block changes.
pub free-Holds :
    {h : Heap} (n len class off : ℕ) (a f : List ℕ)
    → n ≤ 4096
    → class_of n ≡ ok (len, class)
    → 0 < len
    → Holds h len class a f
    → off ≢ 0
    → Inside h.region len off
    → All (Apart len off) (a ++ f)
    → (h' : Heap) × (free h off n ≡ ok h')
      × Holds h' len class a (off ∷ f)
      × ((x : ℕ) → Outside len off x → h'.mem x ≡ h.mem x)
unfolding free
free-Holds {h} n len class off a f small is pos v ne inside away =
    let m0 = fill h.mem off len (2 ^ 64 - 1) in
    let m = update m0 off (h.free_head class) in
    let frame = λ (x : ℕ) (p : Outside len off x).
      update-Outside m0 off len (h.free_head class) x pos p
      ∙ fill-Outside h.mem off len (2 ^ 64 - 1) x p in
    let near = λ (x : ℕ) (p : Apart len off x). frame x (Apart-Outside len off x pos p) in
    (
      record h { mem = m; free_head = update h.free_head class off },
      rw (le→leb n 4096 small, is)
          (let at = ptr-of_in h.region off len v.region inside.0 inside.1 in rw (◌>>=◌, at)),
      record {
        region = v.region;
        to_alloc =
            Chain-frame h.mem m (h.alloc_head class) a
              (All-map _ _ a near (All-left (Apart len off) a f away)) v.to_alloc;
        freed =
            rw (==_refl class, ==_refl off)
              (
                refl,
                ne,
                Chain-frame h.mem m (h.free_head class) f
                    (All-map _ _ f near (All-right (Apart len off) a f away)) v.freed,
              );
        inside =
            All-append (Inside h.region len) a (off ∷ f)
              (All-left (Inside h.region len) a f v.inside)
              (inside, All-right (Inside h.region len) a f v.inside);
        separate = Separate-insert len off a f away v.separate;
      },
      frame,
    )
