-- ===== src/Optics/Links/Remove.antt =====
-- `optics_remove_lens` on the doubly linked list.
use optics.Base.{
  ℕ, ◌≡◌, ◌≢◌, refl, sym, ◌∙◌, ap, subst, List, [], ◌∷◌, ◌++◌, All, All-map, All-left, All-right,
  arith, true, ok, ◌==◌, ne→not-==, ==_refl, not-==→ne, if◌then◌else◌, Bool-cases, inl, inr,
}
use optics.Optics.Space.{Allocator}
use optics.Optics.{Optics, Header, lens_ptr, kill_next, kill_prev, remove_lens, total_len}
use optics.Optics.Links.{Linked, Linked-nonzero, Distinct}
use optics.Optics.Links.Unlink.{
  first, head-ne, n, p, prev-holds, prev-next, skip-Skips, skip_next, skip_prev, unlinked,
}

module _ {S : Type 0} (A : Allocator S) where
  kill_next-run :
      (o : Optics S) (x n p : ℕ)
      → (o.lenses x).next ≡ n
      → (o.lenses x).prev ≡ p
      → (n ≢ 0 → (lens_ptr A o n ≡ true) × ((o.lenses n).prev ≡ (o.lenses x).off))
      → kill_next A o x ≡ ok (record o { lenses = skip_next o.lenses n p })
  unfolding kill_next
  kill_next-run o x n p is_n is_p held = elim (Bool-cases (n == 0)) [
    | inl last ↦ rw (is_n, last) refl
    | inr more ↦
        let (reached, linked) = held (not-==→ne n 0 more) in
        rw (is_n, more, reached, linked, ==_refl (o.lenses x).off, is_p) refl
  ]

  kill_prev-run :
      (o : Optics S) (x n p : ℕ)
      → (o.lenses x).next ≡ n
      → (o.lenses x).prev ≡ p
      → (p ≢ 0 → (lens_ptr A o p ≡ true) × ((o.lenses p).next ≡ (o.lenses x).off))
      → kill_prev A o x ≡ ok (record o { lenses = skip_prev o.lenses n p })
  unfolding kill_prev
  kill_prev-run o x n p is_n is_p held = elim (Bool-cases (p == 0)) [
    | inl last ↦ rw (is_p, last) refl
    | inr more ↦
        let (reached, linked) = held (not-==→ne p 0 more) in
        rw (is_p, more, reached, linked, ==_refl (o.lenses x).off, is_n) refl
  ]

  lens_ptr-skip_next :
      (o : Optics S) (n p y : ℕ)
      → lens_ptr A (record o { lenses = skip_next o.lenses n p }) y ≡ lens_ptr A o y
  unfolding lens_ptr total_len
  lens_ptr-skip_next o n p y =
      let len : total_len (skip_next o.lenses n p y) ≡ total_len (o.lenses y) = ground arith in
      rw len refl

  prev-behind :
      (m : ℕ → Header) (x q h : ℕ) (a b : List ℕ)
      → Linked m q h (a ++ x ∷ b)
      → (m x).next ≢ 0
      → (m (m x).next).prev ≡ x
  prev-behind m x q h [] [] k nz = absurd (nz k.4)
  prev-behind m x q h [] (y ∷ b) (here, ne, off, pr, (is, ny, offy, pry, rest)) nz =
      subst (λ z. (m z).prev ≡ x) (sym is) pry
  prev-behind m x q h (y ∷ a) b k nz = prev-behind m x y (m y).next a b k.4 nz

  next-reached :
      (o : Optics S) (x q h : ℕ) (a b : List ℕ)
      → Linked o.lenses q h (a ++ x ∷ b)
      → All (λ y. lens_ptr A o y ≡ true) (a ++ x ∷ b)
      → (o.lenses x).next ≢ 0
      → lens_ptr A o (o.lenses x).next ≡ true
  next-reached o x q h [] [] k all nz = absurd (nz k.4)
  next-reached o x q h [] (y ∷ b) (here, ne, off, pr, (is, ny, offy, pry, rest)) all nz =
      rw is all.1.0
  next-reached o x q h (y ∷ a) b k all nz = next-reached o x y (o.lenses y).next a b k.4 all.1 nz

  at-lens :
      (m : ℕ → Header) (x q h : ℕ) (a b : List ℕ)
      → Linked m q h (a ++ x ∷ b)
      → Distinct (a ++ x ∷ b)
      → ((m x).off ≡ x) × (x ≢ 0) × (x ≢ (m x).next)
  at-lens m x q h [] b k d = (k.2, k.1, head-ne m x b b x (m x).next x k.4 d.0 k.1)
  at-lens m x q h (y ∷ a) b k d = at-lens m x y (m y).next a b k.4 d.1

  front-ne : (x : ℕ) (a b : List ℕ) → Distinct (a ++ x ∷ b) → All (λ y. y ≢ x) a
  front-ne x [] b d = tt
  front-ne x (y ∷ a) b (new, d) = (λ e. (All-right _ a (x ∷ b) new).0 (sym e), front-ne x a b d)

  skip_next-at : (m : ℕ → Header) (n p x : ℕ) → x ≢ n → skip_next m n p x ≡ m x
  skip_next-at m n p x ne = elim (Bool-cases (n == 0)) [
    | inl last ↦ rw last refl
    | inr more ↦ rw (more, ne→not-== x n ne) refl
  ]

  skip_next-next : (m : ℕ → Header) (n p z : ℕ) → (skip_next m n p z).next ≡ (m z).next
  skip_next-next m n p z = ground arith

  new_head :
      (o : Optics S) (x n : ℕ) (a b : List ℕ) (m : ℕ → Header)
      → Linked m 0 o.lens_head (a ++ x ∷ b)
      → Distinct (a ++ x ∷ b)
      → (if o.lens_head == x then record o { lens_head = n } else o)
        ≡ record o { lens_head = first a o.lens_head n }
  new_head o x n [] b m k d = rw (k.0, ==_refl x) refl
  new_head o x n (y ∷ a) b m k d =
      let far : o.lens_head ≢ x = λ e. (All-right _ a (x ∷ b) d.0).0 (sym e ∙ k.0) in
      rw (ne→not-== o.lens_head x far) refl

  -- In a doubly linked list of distinct lenses that can all be reached, the removal of a lens
  -- succeeds wherever it stands, and leaves the other lenses doubly linked in their order.
  pub remove_lens-Linked :
      (o : Optics S) (x : ℕ) (a b : List ℕ)
      → Linked o.lenses 0 o.lens_head (a ++ x ∷ b)
      → Distinct (a ++ x ∷ b)
      → All (λ y. lens_ptr A o y ≡ true) (a ++ x ∷ b)
      → (o' : Optics S) × (remove_lens A o x ≡ ok o') × Linked o'.lenses 0 o'.lens_head (a ++ b)
  unfolding remove_lens
  remove_lens-Linked o x a b k d reached =
      let m = o.lenses in
      let n = (m x).next in
      let p = (m x).prev in
      let m1 = skip_next m n p in
      let m2 = skip_prev m1 n p in
      let s = skip-Skips m n p in
      let (off, ne, xn) = at-lens m x 0 o.lens_head a b k d in
      let px : p ≢ x =
        prev-holds m x b (λ w. w ≢ x) a 0 o.lens_head k (front-ne x a b d) (λ e. ne (sym e)) in
      let xp : x ≢ p = λ e. px (sym e) in
      let same : m1 x ≡ m x = skip_next-at m n p x xn in
      let run1 = kill_next-run o x n p refl refl (λ z. (
        next-reached o x 0 o.lens_head a b k reached z,
        prev-behind m x 0 o.lens_head a b k z ∙ sym off,
      )) in
      let o1 : Optics S = record o { lenses = m1 } in
      let seen : (p ≢ 0 → lens_ptr A o p ≡ true) =
        prev-holds m x b (λ w. w ≢ 0 → lens_ptr A o w ≡ true) a 0 o.lens_head k
          (All-map _ _ a (λ w h z. h) (All-left _ a (x ∷ b) reached)) (λ z. absurd (z refl)) in
      let run2 = kill_prev-run o1 x n p (rw same refl) (rw same refl) (λ z. (
        lens_ptr-skip_next o n p p ∙ seen z,
        skip_next-next m n p p
            ∙ prev-next m x b a 0 o.lens_head k (λ e. absurd (e refl)) z
            ∙ sym (ap (λ (l : Header). l.off) same ∙ off),
      )) in
      (
        record o { lenses = m2; lens_head = first a o.lens_head n },
        rw (run1, run2, s.off x ∙ off, s.next x xp)
            (ap ok (new_head (record o { lenses = m2 }) x n a b m k d)),
        unlinked m x b s a 0 o.lens_head k d (Linked-nonzero m 0 o.lens_head (a ++ x ∷ b) k),
      )
