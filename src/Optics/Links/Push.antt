-- ===== src/Optics/Links/Push.antt =====
-- `optics_push_lens` on the doubly linked list.
use optics.Base.{
  ℕ, ◌≡◌, ◌≢◌, refl, sym, List, [], ◌∷◌, All, All-map, All-both, true, ok, ◌>>=◌, ne→not-==,
  ==_refl,
}
use optics.Optics.Space.{Allocator}
use optics.Optics.{Optics, at, lens_ptr, set_next, push_lens}
use optics.Optics.Links.{Linked, Linked-Same, Distinct, Same}

module _ {S : Type 0} (A : Allocator S) where
  -- The push of a lens whose header is fresh and not at 0 onto a doubly linked list that does not
  -- have it, of distinct lenses that can all be reached, succeeds and puts it in front.
  pub push_lens-Linked :
      (o : Optics S) (x : ℕ) (l : List ℕ)
      → Linked o.lenses 0 o.lens_head l
      → Distinct l
      → All (λ y. lens_ptr A o y ≡ true) l
      → All (λ y. y ≢ x) l
      → x ≢ 0
      → (o.lenses x).off ≡ x
      → (o.lenses x).prev ≡ 0
      → (o' : Optics S) × (push_lens A o x ≡ ok o') × Linked o'.lenses 0 o'.lens_head (x ∷ l)
  unfolding push_lens set_next
  push_lens-Linked o x [] k d reached new ne off prev = (
    record o { lenses = at o.lenses x (record (o.lenses x) { next = o.lens_head }); lens_head = x },
    rw (k, ==_refl x, off) refl,
    rw (==_refl x, k) (refl, ne, off, prev, refl),
  )
  push_lens-Linked o x (y ∷ l) (here, ny, offy, prevy, rest) (apart, d) (at_y, reached) (nyx, new)
        ne off prev =
      let m1 = at o.lenses x (record (o.lenses x) { next = y }) in
      let m2 = at m1 y (record (m1 y) { prev = x }) in
      let nxy : x ≢ y = λ e. nyx (sym e) in
      let frame =
        All-map _ (Same o.lenses m2) l
          (λ z h. rw (ne→not-== z y h.0, ne→not-== z x h.1) (refl, refl, refl))
          (All-both _ _ l apart new) in
      (
        record o { lenses = m2; lens_head = x },
        rw
            (
              here,
              ne→not-== y 0 ny,
              at_y,
              ne→not-== y x nyx,
              prevy,
              ◌>>=◌,
              ne→not-== x y nxy,
              ==_refl x,
              off,
            )
            refl,
        rw (==_refl x, ==_refl y, ne→not-== x y nxy, ne→not-== y x nyx)
            (
              refl,
              ne,
              off,
              prev,
              (refl, ny, offy, refl, Linked-Same o.lenses m2 y (o.lenses y).next l frame rest),
            ),
      )
