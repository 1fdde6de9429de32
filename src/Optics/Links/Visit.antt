-- ===== src/Optics/Links/Visit.antt =====
-- `optics_foreach_lens` against a visit of a list of headers.
use optics.Base.{
  ℕ, zero, suc, ◌<◌, ◌≡◌, refl, sym, subst, List, [], ◌∷◌, length, All, arith, true, Run, ok,
  ne→not-==, map,
}
use optics.Optics.Space.{Allocator}
use optics.Optics.{
  Optics, Header, Status, optics_ok, optics_err, optics_busy, optics_break, lens_ptr, foreach_from,
  foreach_lens,
}
use optics.Optics.Links.{Linked}

-- A callback on each header of a list, until one of its calls does not return `optics_ok`.
pub visit {ℓ} : {C : Type ℓ} → (C → Header → C × Status) → C → List Header → C × Status
visit cb c [] = (c, optics_ok)
visit cb c (h ∷ hs) =
    let (c', ret) = cb c h in
    let rest = visit cb c' hs in
    elim ret [
      | optics_ok ↦ rest
      | optics_err ↦ (c', optics_err)
      | optics_busy ↦ (c', optics_busy)
      | optics_break ↦ (c', optics_break)
    ]

module _ {ℓ} {S : Type 0} (A : Allocator S) {C : Type ℓ} (cb : C → Header → C × Status) where
  ret_case :
      (c : C) (ret : Status) (r : Run (C × Status)) (v : C × Status)
      → r ≡ ok v
      → elim ret as (λ _. Run (C × Status)) [
        | optics_ok ↦ r
        | optics_err ↦ ok (c, optics_err)
        | optics_busy ↦ ok (c, optics_busy)
        | optics_break ↦ ok (c, optics_break)
      ]
        ≡ ok (elim ret [
          | optics_ok ↦ v
          | optics_err ↦ (c, optics_err)
          | optics_busy ↦ (c, optics_busy)
          | optics_break ↦ (c, optics_break)
        ])
  ret_case c optics_ok r v e = e
  ret_case c optics_err r v e = refl
  ret_case c optics_busy r v e = refl
  ret_case c optics_break r v e = refl

  foreach_from-visit :
      (fuel : ℕ) (o : Optics S) (c : C) (prev head : ℕ) (l : List ℕ)
      → Linked o.lenses prev head l
      → All (λ y. lens_ptr A o y ≡ true) l
      → length l < fuel
      → foreach_from A fuel o cb c head ≡ ok (visit cb c (map o.lenses l))
  unfolding foreach_from visit
  foreach_from-visit zero o c prev head l k all enough = absurd (omega (arith, enough))
  foreach_from-visit (suc fuel) o c prev head [] k all enough = rw k refl
  foreach_from-visit (suc fuel) o c prev head (x ∷ l) (here, ne, off, pr, rest) (at_x, all) enough =
      let ih =
        foreach_from-visit fuel o (cb c (o.lenses x)).0 x (o.lenses x).next l rest all
          (omega (arith, enough)) in
      subst (λ z. foreach_from A (suc fuel) o cb c z ≡ ok (visit cb c (map o.lenses (x ∷ l))))
        (sym here)
        (rw (ne→not-== x 0 ne, at_x) (ret_case (cb c (o.lenses x)).0 (cb c (o.lenses x)).1 _ _ ih))

  -- On a linked list of lenses that can all be reached, with more fuel than lenses, the walk calls
  -- the callback on the lenses in the order of the list, each once, up to the first call that does
  -- not return optics_ok.
  pub foreach_lens-visit :
      (fuel : ℕ) (o : Optics S) (c : C) (l : List ℕ)
      → Linked o.lenses 0 o.lens_head l
      → All (λ y. lens_ptr A o y ≡ true) l
      → length l < fuel
      → foreach_lens A fuel o cb c ≡ ok (visit cb c (map o.lenses l))
  unfolding foreach_lens
  foreach_lens-visit fuel o c l k all enough =
      foreach_from-visit fuel o c 0 o.lens_head l k all enough
